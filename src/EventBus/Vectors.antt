-- ===== src/EventBus/Vectors.antt =====
-- crates/infrarust-core/src/event_bus/bus.rs: the vectors of handlers in a map, when one is written
-- and when one handler is removed.
use infrarust.Common.{
  ℕ, suc, ◌+◌, ◌≤◌, ◌≡◌, inl, inr, Option, none, some, List, [], ◌∷◌, length, All, Bool-cases,
  arith,
}
use infrarust.Common.Maps.{Eq, Map, lookup, insert}
use infrarust.EventBus.{HandlerEntry, or_empty, first_left, remove_handle, remove_from}
use infrarust.EventBus.Order.{Removed, RemovedAt, remove_handle-RemovedAt, Removed-length}

module _ {E A : Type 0} where
  -- Each vector of the map has the property.
  abbrev pub Vectors : (List (HandlerEntry E) → Type 0) → Map A (List (HandlerEntry E)) → Type 0
  Vectors P m = All (λ e. P e.1) m

  -- The number of handlers in the map.
  abbrev pub total : Map A (List (HandlerEntry E)) → ℕ
  total [] = 0
  total ((key, entries) ∷ m) = length entries + total m

  -- What is left of a map when one handler of one vector is removed.
  pub data RemovedIn : Map A (List (HandlerEntry E)) → Map A (List (HandlerEntry E)) → Type 0 where
    here :
        {key : A} {entries left : List (HandlerEntry E)} {m : Map A (List (HandlerEntry E))}
        → Removed entries left
        → RemovedIn ((key, entries) ∷ m) ((key, left) ∷ m)
    there :
        {key : A} {entries : List (HandlerEntry E)} {m rest : Map A (List (HandlerEntry E))}
        → RemovedIn m rest
        → RemovedIn ((key, entries) ∷ m) ((key, entries) ∷ rest)

  abbrev pub RemovedFrom :
      Map A (List (HandlerEntry E)) → Option (Map A (List (HandlerEntry E))) → Type 0
  RemovedFrom m (some left) = RemovedIn m left
  RemovedFrom m none = Unit

  first_left-RemovedFrom :
      (key : A) (entries : List (HandlerEntry E)) (m : Map A (List (HandlerEntry E)))
      (o : Option (List (HandlerEntry E))) (rest : Option (Map A (List (HandlerEntry E))))
      → RemovedAt entries o
      → RemovedFrom m rest
      → RemovedFrom ((key, entries) ∷ m) (first_left key entries m o rest)
  first_left-RemovedFrom key entries m (some left) rest r s = here r
  first_left-RemovedFrom key entries m none (some rest) r s = there s
  first_left-RemovedFrom key entries m none none r s = tt

  pub remove_from-RemovedFrom :
      (handle : ℕ) (m : Map A (List (HandlerEntry E))) → RemovedFrom m (remove_from handle m)
  unfolding remove_from
  remove_from-RemovedFrom handle [] = tt
  remove_from-RemovedFrom handle ((key, entries) ∷ m) =
      first_left-RemovedFrom key entries m (remove_handle handle entries) (remove_from handle m)
        (remove_handle-RemovedAt handle entries) (remove_from-RemovedFrom handle m)

  pub RemovedIn-Vectors :
      (P : List (HandlerEntry E) → Type 0)
      → ((entries left : List (HandlerEntry E)) → Removed entries left → P entries → P left)
      → {m left : Map A (List (HandlerEntry E))} → RemovedIn m left
      → Vectors P m
      → Vectors P left
  RemovedIn-Vectors P keeps (here {entries} {left} r) (p, ps) = (keeps entries left r p, ps)
  RemovedIn-Vectors P keeps (there r) (p, ps) = (p, RemovedIn-Vectors P keeps r ps)

  pub RemovedIn-total :
      {m left : Map A (List (HandlerEntry E))} → RemovedIn m left → suc (total left) ≡ total m
  RemovedIn-total (here r) = omega (arith, Removed-length r)
  RemovedIn-total (there r) = omega (arith, RemovedIn-total r)

  pub Vectors-weaken :
      {P Q : List (HandlerEntry E) → Type 0}
      → ((entries : List (HandlerEntry E)) → P entries → Q entries)
      → (m : Map A (List (HandlerEntry E))) → Vectors P m
      → Vectors Q m
  Vectors-weaken f [] ps = tt
  Vectors-weaken f ((key, entries) ∷ m) (p, ps) = (f entries p, Vectors-weaken f m ps)

  module _ ⦃e : Eq A⦄ where
    pub Vectors-insert :
        (P : List (HandlerEntry E) → Type 0) (key : A) (entries : List (HandlerEntry E))
        (m : Map A (List (HandlerEntry E)))
        → P entries
        → Vectors P m
        → Vectors P (insert key entries m)
    unfolding insert
    Vectors-insert P key entries [] p ps = (p, tt)
    Vectors-insert P key entries ((j, w) ∷ m) p (q, ps) =
        let rest = Vectors-insert P key entries m p ps in
        elim (Bool-cases (e.beq j key)) [
          | inl same ↦ rw same (p, ps)
          | inr other ↦ rw other (q, rest)
        ]

    pub Vectors-lookup :
        (P : List (HandlerEntry E) → Type 0) (key : A) (m : Map A (List (HandlerEntry E)))
        → P []
        → Vectors P m
        → P (or_empty (lookup key m))
    unfolding lookup
    Vectors-lookup P key [] p ps = p
    Vectors-lookup P key ((j, w) ∷ m) p (q, ps) =
        let rest = Vectors-lookup P key m p ps in
        elim (Bool-cases (e.beq j key)) [ inl same ↦ rw same q | inr other ↦ rw other rest ]

    pub total-insert :
        (key : A) (entries : List (HandlerEntry E)) (m : Map A (List (HandlerEntry E)))
        → total (insert key entries m) + length (or_empty (lookup key m)) ≡ total m + length entries
    unfolding insert lookup
    total-insert key entries [] = omega arith
    total-insert key entries ((j, w) ∷ m) =
        let rest = total-insert key entries m in
        elim (Bool-cases (e.beq j key)) [
          | inl same ↦ rw same (omega arith)
          | inr other ↦ rw other (omega (arith, rest))
        ]

    pub total-lookup :
        (key : A) (m : Map A (List (HandlerEntry E))) → length (or_empty (lookup key m)) ≤ total m
    unfolding lookup
    total-lookup key [] = omega arith
    total-lookup key ((j, w) ∷ m) =
        let rest = total-lookup key m in
        elim (Bool-cases (e.beq j key)) [
          | inl same ↦ rw same (omega arith)
          | inr other ↦ rw other (omega (arith, rest))
        ]
