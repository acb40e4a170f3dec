-- ===== src/Routing/Routes.antt =====
-- Sequences of changes from a new router on, and where connections are routed then.
use Prim.Native.String.{String}
use infrarust.Common.{
  ◌≡◌, ◌⊎◌, refl, Bool, true, false, none, some, List, [], ◌∷◌, All, All-append, Option-cases,
  Bool-cases, inl, inr, arith,
}
use infrarust.Common.Maps.{Map, lookup, string_key, beq_self}
use infrarust.Common.Keys.{IsUnique}
use infrarust.Routing.Types.{ProviderId, provider_key, ServerConfig, is_wildcard}
use infrarust.Routing.Router.{
  RouterEntry, DomainRouter, empty_router, remove_config, remove_all_by_provider_type, update,
  resolve, routed, exact_match, wildcard_match, WildcardEntry, wildcards_of, patterns_of,
}
use infrarust.Routing.Resolve.{has, key_of}
use infrarust.Routing.Registered.{
  IsRegistered, empty_router-IsRegistered, remove_config-IsRegistered, update-IsRegistered,
  remove_all_by_provider_type-IsRegistered,
}

-- A change of the configurations, as the providers report them.
pub data Change {ℓ} (A : Type ℓ) : Type ℓ where
  updates : ProviderId → ServerConfig A → Change A
  removes : ProviderId → Change A
  removes_type : String → Change A

module _ {ℓ} {A : Type ℓ} where
  -- A pattern of a provider with its domains.
  Listed : Map ProviderId (RouterEntry A) → WildcardEntry → Type ℓ
  Listed m w =
      (e : RouterEntry A) × (lookup w.provider_id m ≡ some e)
      × (has w.raw e.domains ≡ true)
      × (is_wildcard w.raw ≡ true)

  wildcards_of-Listed :
      (m : Map ProviderId (RouterEntry A)) (id : ProviderId) (e : RouterEntry A) (ds : List String)
      → lookup id m ≡ some e
      → ((d : String) → has d ds ≡ true → has d e.domains ≡ true)
      → All (Listed m) (wildcards_of id ds)
  unfolding Listed has
  wildcards_of-Listed m id e [] f h = tt
  wildcards_of-Listed m id e (d ∷ ds) f h =
      let rest = wildcards_of-Listed m id e ds f (λ x q. h x (ground (arith, q))) in
      elim (Bool-cases (is_wildcard d)) [
        | inl w ↦ rw w ((e, f, h d (ground (arith, beq_self d)), w), rest)
        | inr w ↦ rw w rest
      ]

  Listed-cons :
      (k : ProviderId) (d : RouterEntry A) (m : Map ProviderId (RouterEntry A))
      (ws : List WildcardEntry)
      → lookup k m ≡ none
      → All (Listed m) ws
      → All (Listed ((k, d) ∷ m)) ws
  unfolding Listed lookup
  Listed-cons k d m [] n h = tt
  Listed-cons k d m (w ∷ ws) n ((e, f, asked, wild), hs) =
      let apart : provider_key.beq k w.provider_id ≡ false =
        ground (arith, n, f, provider_key.beq_iff k w.provider_id) in
      ((e, rw apart f, asked, wild), Listed-cons k d m ws n hs)

  patterns_of-Listed :
      (m : Map ProviderId (RouterEntry A)) → IsUnique m → All (Listed m) (patterns_of m)
  unfolding lookup
  patterns_of-Listed [] u = tt
  patterns_of-Listed ((k, d) ∷ m) (n, u) =
      All-append (Listed ((k, d) ∷ m)) (wildcards_of k d.domains) (patterns_of m)
        (wildcards_of-Listed ((k, d) ∷ m) k d d.domains (rw (beq_self k) refl) (λ x q. q))
        (Listed-cons k d m (patterns_of m) n (patterns_of-Listed m u))

module _ {ℓ} {A : Type ℓ} (to_lowercase : String → String) (matches : String → String → Bool) where
  unfoldable pub apply_changes : DomainRouter A → List (Change A) → DomainRouter A
  apply_changes r [] = r
  apply_changes r (updates id config ∷ cs) =
      apply_changes (update to_lowercase matches r id config) cs
  apply_changes r (removes id ∷ cs) = apply_changes (remove_config r id) cs
  apply_changes r (removes_type t ∷ cs) = apply_changes (remove_all_by_provider_type r t) cs

  apply_changes-IsRegistered :
      (r : DomainRouter A) (cs : List (Change A))
      → IsRegistered r
      → IsRegistered (apply_changes r cs)
  unfolding apply_changes
  apply_changes-IsRegistered r [] h = h
  apply_changes-IsRegistered r (updates id config ∷ cs) h =
      apply_changes-IsRegistered (update to_lowercase matches r id config) cs
        (update-IsRegistered to_lowercase matches r id config h)
  apply_changes-IsRegistered r (removes id ∷ cs) h =
      apply_changes-IsRegistered (remove_config r id) cs (remove_config-IsRegistered r id h)
  apply_changes-IsRegistered r (removes_type t ∷ cs) h =
      apply_changes-IsRegistered (remove_all_by_provider_type r t) cs
        (remove_all_by_provider_type-IsRegistered to_lowercase matches r t h)

  -- The provider has an exact domain that is the one looked up, or a pattern that matches it.
  abbrev pub Wants : DomainRouter A → ProviderId → ServerConfig A → String → Type ℓ
  Wants r p c d =
      (e : RouterEntry A) × (lookup p r.configs ≡ some e)
      × (e.config ≡ c)
      × ((x : String) × (has x e.domains ≡ true)
          × (((x ≡ d) × (is_wildcard x ≡ false)) ⊎ ((is_wildcard x ≡ true) × (matches x d ≡ true))))

  wildcard_match-Wants :
      (r : DomainRouter A) (ws : List WildcardEntry) (d : String) (p : ProviderId)
      (c : ServerConfig A)
      → All (Listed r.configs) ws
      → wildcard_match to_lowercase matches r ws d ≡ some (p, c)
      → Wants r p c d
  unfolding wildcard_match Listed
  wildcard_match-Wants r [] d p c h q = absurd (ground arith)
  wildcard_match-Wants r (w ∷ ws) d p c ((e, f, asked, wild), hs) q =
      elim (Bool-cases (matches w.raw d)) [
        | inl m ↦
            let found : some (w.provider_id, e.config) ≡ some (p, c) = rw (m, f, routed) at q in
            let who : w.provider_id ≡ p = ground (arith, found) in
            let what : e.config ≡ c = ground (arith, found) in
            (e, rw who at f, what, (w.raw, asked, inr (wild, m)))
        | inr m ↦ wildcard_match-Wants r ws d p c hs (rw m at q)
      ]

  resolve-Wants :
      (r : DomainRouter A) (domain : String) (p : ProviderId) (c : ServerConfig A)
      → IsRegistered r
      → resolve to_lowercase matches r domain ≡ some (p, c)
      → Wants r p c (key_of to_lowercase domain)
  unfolding resolve exact_match
  resolve-Wants r domain p c h q =
      let d = key_of to_lowercase domain in
      let listed = patterns_of-Listed r.configs h.unique in
      let scanned = wildcard_match-Wants r r.wildcard_patterns d p c (rw h.patterns listed) in
      elim (Option-cases (lookup d r.exact_domains)) [
        | inl n ↦ scanned (rw (n, resolve, exact_match) at q)
        | inr (o, f) ↦
            let ((e, g, asked), w) = h.owners d o f in
            let found : some (o, e.config) ≡ some (p, c) =
              rw (f, resolve, exact_match, g, routed) at q in
            let who : o ≡ p = ground (arith, found) in
            let what : e.config ≡ c = ground (arith, found) in
            (e, rw who at g, what, (d, asked, inl (refl, w)))
      ]

  -- After any sequence of updates and removals from a new router on, a connection is only routed
  -- to a registered provider, with its current configuration, that has the looked-up domain among
  -- its exact domains or a pattern that matches it.
  pub apply_changes-Wants :
      (cs : List (Change A)) (domain : String) (p : ProviderId) (c : ServerConfig A)
      → resolve to_lowercase matches (apply_changes empty_router cs) domain ≡ some (p, c)
      → Wants (apply_changes empty_router cs) p c (key_of to_lowercase domain)
  apply_changes-Wants cs domain p c q =
      resolve-Wants (apply_changes empty_router cs) domain p c
        (apply_changes-IsRegistered empty_router cs empty_router-IsRegistered) q
