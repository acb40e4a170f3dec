-- ===== src/Routing/Resolve.antt =====
-- Which server a domain is routed to.
use Prim.Native.String.{String}
use infrarust.Common.{
  ◌≡◌, ◌≢◌, ◌∙◌, refl, Bool, true, false, ◌||◌, Option, none, some, List, [], ◌∷◌, map,
  if◌then◌else◌, Option-cases, Bool-cases, inl, inr, arith,
}
use infrarust.Common.Maps.{Map, lookup, insert, lookup-insert, lookup-remove, string_key, beq_self}
use infrarust.Routing.Types.{
  ProviderId, provider_key, ServerConfig, normalize_handshake, is_wildcard,
}
use infrarust.Routing.Router.{
  RouterEntry, DomainRouter, register_exact, remove_config, any_wildcard, add, resolve, routed,
  or_next, exact_match, wildcard_match, WildcardEntry,
}

-- A domain stands in a list.
unfoldable pub has : String → List String → Bool
has d [] = false
has d (x ∷ xs) = string_key.beq x d || has d xs

-- The owner of a domain after a registration: the new one for its exact domains.
pub lookup-register_exact :
    (id : ProviderId) (ds : List String) (m : Map String ProviderId) (d : String)
    → is_wildcard d ≡ false
    → lookup d (register_exact id ds m) ≡ (if has d ds then some id else lookup d m)
unfolding register_exact has
lookup-register_exact id [] m d w = refl
lookup-register_exact id (x ∷ xs) m d w =
    let rest = lookup-register_exact id xs (if is_wildcard x then m else insert x id m) d w in
    rest ∙ ground (arith, w, string_key.beq_iff x d, lookup-insert x d id m)

-- The key under which a handshake's domain is looked up.
abbrev pub key_of : (String → String) → String → String
key_of to_lowercase domain = to_lowercase (normalize_handshake domain)

module _ {ℓ} {A : Type ℓ} where
  pub lookup-remove_config :
      (r : DomainRouter A) (id p : ProviderId)
      → lookup p (remove_config r id).configs
        ≡ (if provider_key.beq id p then none else lookup p r.configs)
  unfolding remove_config
  lookup-remove_config r id p = elim (Option-cases (lookup id r.configs)) [
    | inl n ↦ rw (n, remove_config) (ground (arith, n, provider_key.beq_iff id p))
    | inr (e, f) ↦ elim (Bool-cases (any_wildcard e.domains)) [
      | inl w ↦ rw (f, remove_config, w) (lookup-remove id p r.configs)
      | inr w ↦ rw (f, remove_config, w) (lookup-remove id p r.configs)
    ]
  ]

  pub configs-add :
      (to_lowercase : String → String) (matches : String → String → Bool) (r : DomainRouter A)
      (id : ProviderId) (config : ServerConfig A)
      → ((add to_lowercase matches r id config).configs
          ≡ insert id
              (record { config = config; domains = map to_lowercase config.domains })
              r.configs)
        × ((add to_lowercase matches r id config).exact_domains
            ≡ register_exact id (map to_lowercase config.domains) r.exact_domains)
  unfolding add
  configs-add to_lowercase matches r id config =
      elim (Bool-cases (any_wildcard (map to_lowercase config.domains))) [
        | inl w ↦ rw w (refl, refl)
        | inr w ↦ rw w (refl, refl)
      ]

module _ {ℓ} {A : Type ℓ} (to_lowercase : String → String) (matches : String → String → Bool) where
  -- A configuration that was just added gets every connection to one of its exact domains,
  -- whatever was registered before and whatever patterns match.
  pub resolve-add :
      (r : DomainRouter A) (id : ProviderId) (config : ServerConfig A) (domain : String)
      → is_wildcard (key_of to_lowercase domain) ≡ false
      → has (key_of to_lowercase domain) (map to_lowercase config.domains) ≡ true
      → resolve to_lowercase matches (add to_lowercase matches r id config) domain
        ≡ some (id, config)
  unfolding resolve exact_match
  resolve-add r id config domain w h =
      let (stored, owners) = configs-add to_lowercase matches r id config in
      let d = key_of to_lowercase domain in
      let owned : lookup d (add to_lowercase matches r id config).exact_domains ≡ some id =
        rw
          (
            owners,
            lookup-register_exact id (map to_lowercase config.domains) r.exact_domains d w,
            h,
          )
          refl in
      let entry : RouterEntry A = record {
        config = config;
        domains = map to_lowercase config.domains;
      } in
      let there : lookup id (add to_lowercase matches r id config).configs ≡ some entry =
        rw (stored, lookup-insert id id entry r.configs, beq_self id) refl in
      rw (owned, exact_match, there, routed) refl

  routed-found :
      (r : DomainRouter A) (q p : ProviderId) (c : ServerConfig A)
      → routed r q ≡ some (p, c)
      → (e : RouterEntry A) × (lookup p r.configs ≡ some e) × (e.config ≡ c)
  routed-found r q p c h = elim (Option-cases (lookup q r.configs)) [
    | inl n ↦ absurd (ground (arith, rw (n, routed) at h))
    | inr (e, f) ↦ let g = rw (f, routed) at h in (e, ground (arith, g, f), ground (arith, g))
  ]

  or_next-found :
      (r : DomainRouter A) (a b : Option (ProviderId × ServerConfig A)) (p : ProviderId)
      (c : ServerConfig A)
      → (a ≡ some (p, c) → (e : RouterEntry A) × (lookup p r.configs ≡ some e) × (e.config ≡ c))
      → (b ≡ some (p, c) → (e : RouterEntry A) × (lookup p r.configs ≡ some e) × (e.config ≡ c))
      → or_next a b ≡ some (p, c)
      → (e : RouterEntry A) × (lookup p r.configs ≡ some e) × (e.config ≡ c)
  or_next-found r none b p c f g h = g h
  or_next-found r (some x) b p c f g h = f h

  exact_match-found :
      (r : DomainRouter A) (d : String) (p : ProviderId) (c : ServerConfig A)
      → exact_match to_lowercase matches r d ≡ some (p, c)
      → (e : RouterEntry A) × (lookup p r.configs ≡ some e) × (e.config ≡ c)
  unfolding exact_match
  exact_match-found r d p c h = elim (Option-cases (lookup d r.exact_domains)) [
    | inl n ↦ absurd (ground (arith, rw (n, exact_match) at h))
    | inr (q, f) ↦ routed-found r q p c (rw (f, exact_match) at h)
  ]

  wildcard_match-found :
      (r : DomainRouter A) (ws : List WildcardEntry) (d : String) (p : ProviderId)
      (c : ServerConfig A)
      → wildcard_match to_lowercase matches r ws d ≡ some (p, c)
      → (e : RouterEntry A) × (lookup p r.configs ≡ some e) × (e.config ≡ c)
  unfolding wildcard_match
  wildcard_match-found r [] d p c h = absurd (ground arith)
  wildcard_match-found r (w ∷ ws) d p c h =
      let rest = wildcard_match-found r ws d p c in
      elim (Bool-cases (matches w.raw d)) [
        | inl m ↦
            or_next-found r (routed r w.provider_id) (wildcard_match to_lowercase matches r ws d) p
              c (routed-found r w.provider_id p c) rest (rw m at h)
        | inr m ↦ rest (rw m at h)
      ]

  -- What `resolve` answers is a provider that is registered, with its current configuration.
  pub resolve-found :
      (r : DomainRouter A) (domain : String) (p : ProviderId) (c : ServerConfig A)
      → resolve to_lowercase matches r domain ≡ some (p, c)
      → (e : RouterEntry A) × (lookup p r.configs ≡ some e) × (e.config ≡ c)
  unfolding resolve exact_match
  resolve-found r domain p c h =
      let d = key_of to_lowercase domain in
      or_next-found r (exact_match to_lowercase matches r d)
        (wildcard_match to_lowercase matches r r.wildcard_patterns d) p c
        (exact_match-found r d p c) (wildcard_match-found r r.wildcard_patterns d p c) h

  -- A provider that was removed is not routed to, neither by an exact domain nor by a pattern.
  pub resolve-remove_config :
      (r : DomainRouter A) (id p : ProviderId) (domain : String) (c : ServerConfig A)
      → resolve to_lowercase matches (remove_config r id) domain ≡ some (p, c)
      → p ≢ id
  resolve-remove_config r id p domain c h same =
      let (e, f, _) = resolve-found (remove_config r id) domain p c h in
      absurd (ground (arith, f, lookup-remove_config r id p, provider_key.beq_iff id p, same))
