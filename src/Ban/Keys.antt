-- ===== src/Ban/Keys.antt =====
-- A map of bans with each key once, as a concurrent map has it, and what dropping the expired keys
-- leaves of such a map.
use infrarust.Common.{
  ℕ, ◌≤◌, ◌+◌, ◌≡◌, refl, sym, ap, Bool, false, none, some, List, [], ◌∷◌, Option-cases, Bool-cases,
  inl, inr, arith, ◌||◌, if◌then◌else◌, length, All, All-weaken, true,
}
use infrarust.Common.Keys.{IsUnique, remove-IsUnique, remove-absent, remove-All}
use infrarust.Common.Maps.{Map, Eq, lookup, remove, lookup-remove, beq_self, nat_key, string_key}
use infrarust.Ban.Types.{BanEntry, is_expired}
use infrarust.Ban.Storage.{expired_keys, remove_all}
use infrarust.Ban.View.{live_at, expired_by_mono}

module _ {ℓ} {K : Type ℓ} ⦃eq : Eq K⦄ where
  contains : List K → K → Bool
  contains [] j = false
  contains (k ∷ ks) j = eq.beq k j || contains ks j

  lookup-remove_all :
      (ks : List K) (j : K) (m : Map K BanEntry)
      → lookup j (remove_all ks m) ≡ (if contains ks j then none else lookup j m)
  unfolding remove_all contains
  lookup-remove_all [] j m = refl
  lookup-remove_all (k ∷ ks) j m =
      rw (lookup-remove_all ks j (remove k m), lookup-remove k j m) (ground arith)

  contains-expired :
      (now : ℕ) (j : K) (m : Map K BanEntry)
      → IsUnique m
      → contains (expired_keys now m) j
        ≡ elim (lookup j m) [ none ↦ false | some e ↦ is_expired now e ]
  unfolding contains expired_keys lookup
  contains-expired now j [] h = refl
  contains-expired now j ((k, e) ∷ m) (n, h) =
      let rest = contains-expired now j m h in
      elim (Bool-cases (eq.beq k j)) [
        | inl q ↦
            let same : lookup j m ≡ none = rw (sym ((eq.beq_iff k j).0 q)) n in
            let ended : contains (expired_keys now m) j ≡ false = rw same at rest in
            elim (Bool-cases (is_expired now e)) [
              | inl x ↦ rw (q, x) (ground (arith, q))
              | inr x ↦ rw (q, x) ended
            ]
        | inr q ↦ elim (Bool-cases (is_expired now e)) [
          | inl x ↦ rw (q, x) (ground (arith, q, rest))
          | inr x ↦ rw (q, x) rest
        ]
      ]

  pub purged_view :
      (now later : ℕ) (j : K) (m : Map K BanEntry)
      → now ≤ later
      → IsUnique m
      → live_at later (lookup j (remove_all (expired_keys now m) m)) ≡ live_at later (lookup j m)
  purged_view now later j m h u = elim (Option-cases (lookup j m)) [
    | inl n ↦ rw (lookup-remove_all (expired_keys now m) j m, n) (ground arith)
    | inr (e, p) ↦
        let gone = expired_by_mono now later e.expires_at h in
        rw (lookup-remove_all (expired_keys now m) j m, contains-expired now j m u, p)
          (ground (arith, gone))
  ]

  expired-purged :
      (now : ℕ) (m : Map K BanEntry)
      → IsUnique m
      → (j : K) (e : BanEntry) → lookup j (remove_all (expired_keys now m) m) ≡ some e
      → is_expired now e ≡ false
  expired-purged now m u j e p =
      let kept = lookup-remove_all (expired_keys now m) j m in
      let ended = contains-expired now j m u in
      elim (Option-cases (lookup j m)) [
        | inl n ↦ absurd (ground (arith, rw n at kept, p))
        | inr (d, q) ↦ ground (arith, rw q at kept, rw q at ended, p)
      ]

  -- No expired entry is left.
  pub live-purged :
      (now : ℕ) (j : K) (m : Map K BanEntry)
      → IsUnique m
      → live_at now (lookup j (remove_all (expired_keys now m) m))
        ≡ lookup j (remove_all (expired_keys now m) m)
  live-purged now j m u = elim (Option-cases (lookup j (remove_all (expired_keys now m) m))) [
    | inl n ↦ rw n refl
    | inr (e, p) ↦ rw (p, expired-purged now m u j e p) refl
  ]

  contains_self : (ks : List K) → All (λ k. contains ks k ≡ true) ks
  unfolding contains
  contains_self [] = tt
  contains_self (k ∷ ks) =
      (rw (beq_self k) refl, All-weaken (λ j h. rw h (ground arith)) ks (contains_self ks))

  -- The keys are those of entries that have expired, and nothing is left under them.
  pub expired_keys-dropped :
      (now : ℕ) (m : Map K BanEntry)
      → IsUnique m
      → All
          (λ k.
            (e : BanEntry) × (lookup k m ≡ some e)
            × (is_expired now e ≡ true)
            × (lookup k (remove_all (expired_keys now m) m) ≡ none))
          (expired_keys now m)
  expired_keys-dropped now m u =
      All-weaken
        (λ k h.
          let ended = contains-expired now k m u in
          let gone = rw h at (lookup-remove_all (expired_keys now m) k m) in
          elim (Option-cases (lookup k m)) [
            | inl n ↦ absurd (ground (arith, h, rw n at ended))
            | inr (e, p) ↦ (e, p, sym (rw (p, h) at ended), gone)
          ])
        (expired_keys now m) (contains_self (expired_keys now m))

  remove_all-head :
      (ks : List K) (j : K) (d : BanEntry) (m : Map K BanEntry)
      → remove_all ks ((j, d) ∷ m)
        ≡ (if contains ks j then remove_all ks m else (j, d) ∷ remove_all ks m)
  unfolding remove_all contains remove
  remove_all-head [] j d m = refl
  remove_all-head (k ∷ ks) j d m = elim (Bool-cases (eq.beq k j)) [
    | inl q ↦ rw (q, (eq.beq_iff j k).1 (sym ((eq.beq_iff k j).0 q))) refl
    | inr q ↦
        let apart : eq.beq j k ≡ false = ground (arith, q, eq.beq_iff j k, eq.beq_iff k j) in
        rw (q, apart) (remove_all-head ks j d (remove k m))
  ]

  pub length-purged :
      (now : ℕ) (m : Map K BanEntry)
      → IsUnique m
      → length m ≡ length (expired_keys now m) + length (remove_all (expired_keys now m) m)
  unfolding expired_keys remove_all remove
  length-purged now [] h = refl
  length-purged now ((k, e) ∷ m) (n, h) =
      let rest = length-purged now m h in
      elim (Bool-cases (is_expired now e)) [
        | inl x ↦
            let ks = expired_keys now m in
            let first : remove k ((k, e) ∷ m) ≡ m = rw (beq_self k) (remove-absent k m n) in
            rw x (omega (arith, rest, ap (λ l. length (remove_all ks l)) first))
        | inr x ↦
            let kept = contains-expired now k m h in
            rw (x, remove_all-head (expired_keys now m) k e m, rw n at kept) (omega (arith, rest))
      ]

  pub remove_all-IsUnique :
      (ks : List K) (m : Map K BanEntry) → IsUnique m → IsUnique (remove_all ks m)
  unfolding remove_all
  remove_all-IsUnique [] m h = h
  remove_all-IsUnique (k ∷ ks) m h = remove_all-IsUnique ks (remove k m) (remove-IsUnique k m h)

  pub remove_all-All :
      (Q : K × BanEntry → Type 0) (ks : List K) (m : Map K BanEntry)
      → All Q m
      → All Q (remove_all ks m)
  unfolding remove_all
  remove_all-All Q [] m h = h
  remove_all-All Q (k ∷ ks) m h = remove_all-All Q ks (remove k m) (remove-All Q k m h)
