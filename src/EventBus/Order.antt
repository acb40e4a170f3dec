-- ===== src/EventBus/Order.antt =====
-- crates/infrarust-core/src/event_bus/bus.rs: the order of a vector of handlers, by priority and
-- then by handle, which an insertion behind the handlers of the same priority and a removal keep.
use infrarust.Common.{
  ℕ, zero, suc, ◌<◌, ◌≤◌, ◌≡◌, refl, ap, ◌⊎◌, inl, inr, Bool, true, false, Option, none, some, List,
  [], ◌∷◌, ◌++◌, length, take, drop, All, All-weaken, leb, ◌==◌, if◌then◌else◌, Bool-cases, arith,
}
use infrarust.EventBus.{
  HandlerEntry, partition_point, insert_sorted, keep_entry, remove_handle, dispatch, run_handler,
}

module _ {E : Type 0} where
  abbrev pub Before : HandlerEntry E → HandlerEntry E → Type 0
  Before a b = (a.priority < b.priority) ⊎ ((a.priority ≡ b.priority) × (a.handle < b.handle))

  abbrev pub IsOrdered : List (HandlerEntry E) → Type 0
  IsOrdered [] = Unit
  IsOrdered (h ∷ entries) = All (Before h) entries × IsOrdered entries

  -- The handles that were given out are below the next one.
  abbrev pub HandlesBelow : ℕ → List (HandlerEntry E) → Type 0
  HandlesBelow n entries = All (λ h. h.handle < n) entries

  -- Of two handlers, the later one runs on what the earlier one has left.
  pub dispatch-append :
      (earlier later : List (HandlerEntry E)) (event : E)
      → dispatch (earlier ++ later) event ≡ dispatch later (dispatch earlier event)
  unfolding dispatch
  dispatch-append [] later event = refl
  dispatch-append (h ∷ earlier) later event =
      dispatch-append earlier later (run_handler h.kind event)

  pub take-drop :
      (n : ℕ) (entries : List (HandlerEntry E)) → take n entries ++ drop n entries ≡ entries
  take-drop zero entries = refl
  take-drop (suc n) [] = refl
  take-drop (suc n) (h ∷ entries) = ap (λ l. h ∷ l) (take-drop n entries)

  pub HandlesBelow-weaken :
      (m n : ℕ)
      → m ≤ n
      → (entries : List (HandlerEntry E)) → HandlesBelow m entries
      → HandlesBelow n entries
  HandlesBelow-weaken m n h = All-weaken (λ b below. omega (arith, below, h))

  Before-newer :
      (a b : HandlerEntry E) → leb a.priority b.priority ≡ true → a.handle < b.handle → Before a b
  Before-newer a b le newer = ground (arith, le, newer)

  Before-higher : (a b : HandlerEntry E) → leb b.priority a.priority ≡ false → Before a b
  Before-higher a b gt = ground (arith, gt)

  Before-trans : (a b c : HandlerEntry E) → Before a b → Before b c → Before a c
  Before-trans a b c (inl p) (inl q) = inl (omega arith)
  Before-trans a b c (inl p) (inr q) = inl (omega (arith, q.0))
  Before-trans a b c (inr p) (inl q) = inl (omega (arith, p.0))
  Before-trans a b c (inr p) (inr q) = inr (omega (arith, p.0, q.0), omega (arith, p.1, q.1))

  Before-above :
      (entry h b : HandlerEntry E)
      → entry.priority < h.priority
      → Before h b
      → entry.priority < b.priority
  Before-above entry h b above (inl p) = omega arith
  Before-above entry h b above (inr p) = omega (arith, p.0)

  abbrev not_after : HandlerEntry E → HandlerEntry E → Bool
  not_after entry h = leb h.priority entry.priority

  insert_sorted-empty : (entry : HandlerEntry E) → insert_sorted entry [] ≡ entry ∷ []
  unfolding insert_sorted partition_point
  insert_sorted-empty entry = refl

  insert_sorted-∷ :
      (entry h : HandlerEntry E) (entries : List (HandlerEntry E))
      → insert_sorted entry (h ∷ entries) ≡ (
          let rest = insert_sorted entry entries in
          if not_after entry h then h ∷ rest else entry ∷ h ∷ entries)
  unfolding insert_sorted partition_point
  insert_sorted-∷ entry h entries = elim (Bool-cases (not_after entry h)) [
    | inl fits ↦ rw fits refl
    | inr higher ↦ rw higher refl
  ]

  pub All-insert_sorted :
      (P : HandlerEntry E → Type 0) (entry : HandlerEntry E) (entries : List (HandlerEntry E))
      → P entry
      → All P entries
      → All P (insert_sorted entry entries)
  All-insert_sorted P entry [] p ps = rw (insert_sorted-empty entry) (p, tt)
  All-insert_sorted P entry (h ∷ entries) p (ph, ps) =
      rw (insert_sorted-∷ entry h entries) (elim (Bool-cases (not_after entry h)) [
        | inl fits ↦ rw fits (ph, All-insert_sorted P entry entries p ps)
        | inr higher ↦ rw higher (p, (ph, ps))
      ])

  -- A new handler has the largest handle, so that it stands behind those of its priority.
  pub insert_sorted-IsOrdered :
      (entry : HandlerEntry E) (entries : List (HandlerEntry E))
      → HandlesBelow entry.handle entries
      → IsOrdered entries
      → IsOrdered (insert_sorted entry entries)
  insert_sorted-IsOrdered entry [] below ordered = rw (insert_sorted-empty entry) (tt, tt)
  insert_sorted-IsOrdered entry (h ∷ entries) (bh, below) (before, ordered) =
      rw (insert_sorted-∷ entry h entries) (elim (Bool-cases (not_after entry h)) [
        | inl fits ↦ rw fits (
          All-insert_sorted (Before h) entry entries (Before-newer h entry fits bh) before,
          insert_sorted-IsOrdered entry entries below ordered,
        )
        | inr higher ↦ rw higher (
            let first = Before-higher entry h higher in
            (
              (first, All-weaken (λ b. Before-trans entry h b first) entries before),
              (before, ordered),
            ))
      ])

  pub length-insert_sorted :
      (entry : HandlerEntry E) (entries : List (HandlerEntry E))
      → length (insert_sorted entry entries) ≡ suc (length entries)
  length-insert_sorted entry [] = rw (insert_sorted-empty entry) refl
  length-insert_sorted entry (h ∷ entries) =
      rw (insert_sorted-∷ entry h entries) (elim (Bool-cases (not_after entry h)) [
        | inl fits ↦ rw fits (ap suc (length-insert_sorted entry entries))
        | inr higher ↦ rw higher refl
      ])

  -- The handlers before the place of a new one, and those behind it.
  pub partition_point-earlier :
      (entry : HandlerEntry E) (entries : List (HandlerEntry E))
      → All
          (λ h. h.priority ≤ entry.priority)
          (take (partition_point (λ h. leb h.priority entry.priority) entries) entries)
  unfolding partition_point
  partition_point-earlier entry [] = tt
  partition_point-earlier entry (h ∷ entries) = elim (Bool-cases (not_after entry h)) [
    | inl fits ↦ rw fits (ground (arith, fits), partition_point-earlier entry entries)
    | inr higher ↦ rw higher tt
  ]

  pub partition_point-later :
      (entry : HandlerEntry E) (entries : List (HandlerEntry E))
      → IsOrdered entries
      → All
          (λ h. entry.priority < h.priority)
          (drop (partition_point (λ h. leb h.priority entry.priority) entries) entries)
  unfolding partition_point
  partition_point-later entry [] ordered = tt
  partition_point-later entry (h ∷ entries) (before, ordered) =
      elim (Bool-cases (not_after entry h)) [
        | inl fits ↦ rw fits (partition_point-later entry entries ordered)
        | inr higher ↦ rw higher (
            let above : entry.priority < h.priority = ground (arith, higher) in
            (above, All-weaken (λ b hb. Before-above entry h b above hb) entries before))
      ]

  -- What is left of a vector when one handler is removed.
  pub data Removed : List (HandlerEntry E) → List (HandlerEntry E) → Type 0 where
    here : {h : HandlerEntry E} {entries : List (HandlerEntry E)} → Removed (h ∷ entries) entries
    there :
        {h : HandlerEntry E} {entries left : List (HandlerEntry E)}
        → Removed entries left
        → Removed (h ∷ entries) (h ∷ left)

  abbrev pub RemovedAt : List (HandlerEntry E) → Option (List (HandlerEntry E)) → Type 0
  RemovedAt entries (some left) = Removed entries left
  RemovedAt entries none = Unit

  keep_entry-RemovedAt :
      (h : HandlerEntry E) (entries : List (HandlerEntry E)) (o : Option (List (HandlerEntry E)))
      → RemovedAt entries o
      → RemovedAt (h ∷ entries) (keep_entry h o)
  keep_entry-RemovedAt h entries (some left) r = there r
  keep_entry-RemovedAt h entries none r = tt

  pub remove_handle-RemovedAt :
      (handle : ℕ) (entries : List (HandlerEntry E))
      → RemovedAt entries (remove_handle handle entries)
  unfolding remove_handle
  remove_handle-RemovedAt handle [] = tt
  remove_handle-RemovedAt handle (h ∷ entries) =
      let rest =
        keep_entry-RemovedAt h entries (remove_handle handle entries)
          (remove_handle-RemovedAt handle entries) in
      elim (Bool-cases (h.handle == handle)) [
        | inl found ↦ rw found here
        | inr other ↦ rw other rest
      ]

  pub Removed-All :
      (P : HandlerEntry E → Type 0) {entries left : List (HandlerEntry E)}
      → Removed entries left
      → All P entries
      → All P left
  Removed-All P here (p, ps) = ps
  Removed-All P (there r) (p, ps) = (p, Removed-All P r ps)

  pub Removed-IsOrdered :
      {entries left : List (HandlerEntry E)}
      → Removed entries left
      → IsOrdered entries
      → IsOrdered left
  Removed-IsOrdered here (before, ordered) = ordered
  Removed-IsOrdered (there {h} r) (before, ordered) =
      (Removed-All (Before h) r before, Removed-IsOrdered r ordered)

  pub Removed-length :
      {entries left : List (HandlerEntry E)}
      → Removed entries left
      → suc (length left) ≡ length entries
  Removed-length here = refl
  Removed-length (there r) = ap suc (Removed-length r)
