-- ===== src/Common/Keys.antt =====
-- Maps that hold a key once, as concurrent maps do.
use mathlib.Core.Path.{◌≡◌, refl, sym, ap}
use mathlib.Core.Logic.{inl, inr}
use mathlib.Core.Option.{none}
use mathlib.Core.List.{[], ◌∷◌}
use native.Mathlib.Omega.{arith}
use infrarust.Common.Tests.{Bool-cases}
use infrarust.Common.Lists.{All}
use infrarust.Common.Maps.{
  Map, Eq, lookup, insert, remove, lookup-insert, lookup-remove, lookup-empty,
}

module _ {ℓ κ} {K : Type ℓ} {V : Type κ} ⦃eq : Eq K⦄ where
  abbrev pub IsUnique : Map K V → Type (ℓ ⊔ κ)
  IsUnique [] = Unit
  IsUnique ((k, e) ∷ m) = (lookup k m ≡ none) × IsUnique m

  pub insert-IsUnique : (k : K) (e : V) (m : Map K V) → IsUnique m → IsUnique (insert k e m)
  unfolding insert
  insert-IsUnique k e [] h = (lookup-empty k, tt)
  insert-IsUnique k e ((j, d) ∷ m) (n, h) = elim (Bool-cases (eq.beq j k)) [
    | inl q ↦ rw q (n, h)
    | inr q ↦ rw q (
      ground (arith, lookup-insert k j e m, eq.beq_iff j k, eq.beq_iff k j),
      insert-IsUnique k e m h,
    )
  ]

  pub remove-IsUnique : (k : K) (m : Map K V) → IsUnique m → IsUnique (remove k m)
  unfolding remove
  remove-IsUnique k [] h = tt
  remove-IsUnique k ((j, d) ∷ m) (n, h) = elim (Bool-cases (eq.beq j k)) [
    | inl q ↦ rw q (remove-IsUnique k m h)
    | inr q ↦ rw q (ground (arith, lookup-remove k j m), remove-IsUnique k m h)
  ]

  pub remove-absent : (k : K) (m : Map K V) → lookup k m ≡ none → remove k m ≡ m
  unfolding lookup remove
  remove-absent k [] h = refl
  remove-absent k ((j, d) ∷ m) h = elim (Bool-cases (eq.beq j k)) [
    | inl q ↦ absurd (ground (arith, rw q at h))
    | inr q ↦ rw q (ap (λ l. (j, d) ∷ l) (remove-absent k m (rw q at h)))
  ]

  -- What holds of every pair of a map still does when a pair with it is written, or a key removed.
  pub insert-All {μ} :
      (Q : K × V → Type μ) (k : K) (e : V) (m : Map K V) → Q (k, e) → All Q m → All Q (insert k e m)
  unfolding insert
  insert-All Q k e [] q h = (q, tt)
  insert-All Q k e ((j, d) ∷ m) q (p, h) =
      let rest = insert-All Q k e m q h in
      elim (Bool-cases (eq.beq j k)) [
        | inl same ↦ rw same (rw (sym ((eq.beq_iff j k).0 same)) at q, h)
        | inr other ↦ rw other (p, rest)
      ]

  pub remove-All {μ} : (Q : K × V → Type μ) (k : K) (m : Map K V) → All Q m → All Q (remove k m)
  unfolding remove
  remove-All Q k [] h = tt
  remove-All Q k ((j, d) ∷ m) (p, h) =
      let rest = remove-All Q k m h in
      elim (Bool-cases (eq.beq j k)) [ inl same ↦ rw same rest | inr other ↦ rw other (p, rest) ]
