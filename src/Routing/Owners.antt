-- ===== src/Routing/Owners.antt =====
-- What registering and unregistering do to the owners of exact domains, and to the patterns.
use Prim.Native.String.{String}
use infrarust.Common.{
  ◌≡◌, ◌∙◌, refl, sym, ap, true, false, none, some, List, [], ◌∷◌, ◌++◌, if◌then◌else◌,
  Option-cases, Bool-cases, inl, inr, arith,
}
use mathlib.Core.List.{append_assoc, append-nil}
use infrarust.Common.Maps.{Map, lookup, insert, remove, lookup-insert, lookup-remove, string_key}
use infrarust.Common.Keys.{IsUnique, remove-absent}
use infrarust.Routing.Types.{ProviderId, provider_key, is_wildcard}
use infrarust.Routing.Router.{
  RouterEntry, register_exact, unregister_exact, remove_owned, any_wildcard, wildcards_of,
  patterns_of,
}
use infrarust.Routing.Resolve.{has}

-- A registration leaves the patterns out.
pub lookup-register_wildcard :
    (id : ProviderId) (ds : List String) (m : Map String ProviderId) (d : String)
    → is_wildcard d ≡ true
    → lookup d (register_exact id ds m) ≡ lookup d m
unfolding register_exact
lookup-register_wildcard id [] m d w = refl
lookup-register_wildcard id (x ∷ xs) m d w =
    let rest = lookup-register_wildcard id xs (if is_wildcard x then m else insert x id m) d w in
    rest ∙ ground (arith, w, string_key.beq_iff x d, lookup-insert x d id m)

remove_owned-kept :
    (id : ProviderId) (x : String) (m : Map String ProviderId) (d : String) (p : ProviderId)
    → lookup d (remove_owned id x m) ≡ some p
    → (lookup d m ≡ some p) × (string_key.beq x d ≡ true → provider_key.beq p id ≡ false)
unfolding remove_owned
remove_owned-kept id x m d p h = elim (Option-cases (lookup x m)) [
  | inl n ↦ let g = rw (n, remove_owned) at h in (g, ground (arith, n, g, string_key.beq_iff x d))
  | inr (o, f) ↦
      let g = rw (f, remove_owned) at h in
      ground (arith, g, f, string_key.beq_iff x d, lookup-remove x d m)
]

-- A domain that still has an owner had the same before, and if it was unregistered for `id`, then
-- its owner is another.
pub unregister_exact-kept :
    (id : ProviderId) (ds : List String) (m : Map String ProviderId) (d : String) (p : ProviderId)
    → lookup d (unregister_exact id ds m) ≡ some p
    → (lookup d m ≡ some p)
      × (has d ds ≡ true → is_wildcard d ≡ false → provider_key.beq p id ≡ false)
unfolding unregister_exact has
unregister_exact-kept id [] m d p h = (h, λ q w. absurd (ground arith))
unregister_exact-kept id (x ∷ xs) m d p h =
    let (f, g) =
      unregister_exact-kept id xs (if is_wildcard x then m else remove_owned id x m) d p h in
    elim (Bool-cases (is_wildcard x)) [
      | inl w ↦ (rw w at f, ground (arith, w, g, string_key.beq_iff x d))
      | inr w ↦
          let (f', g') = remove_owned-kept id x m d p (rw w at f) in (f', ground (arith, w, g, g'))
    ]

pub wildcards_of-none :
    (id : ProviderId) (ds : List String) → any_wildcard ds ≡ false → wildcards_of id ds ≡ []
wildcards_of-none id [] h = refl
wildcards_of-none id (d ∷ ds) h = ground (arith, wildcards_of-none id ds)

module _ {ℓ} {A : Type ℓ} where
  pub patterns_of-insert :
      (id : ProviderId) (e : RouterEntry A) (m : Map ProviderId (RouterEntry A))
      → lookup id m ≡ none
      → patterns_of (insert id e m) ≡ patterns_of m ++ wildcards_of id e.domains
  unfolding insert lookup
  patterns_of-insert id e [] h = append-nil (wildcards_of id e.domains)
  patterns_of-insert id e ((k, d) ∷ m) h = elim (Bool-cases (provider_key.beq k id)) [
    | inl q ↦ absurd (ground (arith, rw q at h))
    | inr q ↦
        rw (q, patterns_of-insert id e m (rw q at h))
          (sym
            (append_assoc (wildcards_of k d.domains) (patterns_of m) (wildcards_of id e.domains)))
  ]

  pub patterns_of-remove :
      (id : ProviderId) (e : RouterEntry A) (m : Map ProviderId (RouterEntry A))
      → IsUnique m
      → lookup id m ≡ some e
      → any_wildcard e.domains ≡ false
      → patterns_of (remove id m) ≡ patterns_of m
  unfolding remove lookup
  patterns_of-remove id e [] u h w = absurd (ground arith)
  patterns_of-remove id e ((k, d) ∷ m) (n, u) h w = elim (Bool-cases (provider_key.beq k id)) [
    | inl q ↦
        let same : k ≡ id = (provider_key.beq_iff k id).0 q in
        let gone : remove id m ≡ m = remove-absent id m (rw same at n) in
        let first : d ≡ e = ground (arith, rw q at h) in
        let no_patterns : wildcards_of k d.domains ≡ [] =
          wildcards_of-none k d.domains (rw (sym first) at w) in
        rw (q, gone, no_patterns) refl
    | inr q ↦
        rw q (ap (λ l. wildcards_of k d.domains ++ l) (patterns_of-remove id e m u (rw q at h) w))
  ]
