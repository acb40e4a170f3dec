-- ===== src/Routing/Registered.antt =====
-- The invariant that the tables of the router agree with its configurations, and the operations.
use Prim.Native.String.{String}
use infrarust.Common.{
  ◌≡◌, ◌∙◌, refl, sym, Bool, true, false, none, some, List, [], ◌∷◌, map, Option-cases, Bool-cases,
  inl, inr, arith,
}
use mathlib.Core.List.{append-nil}
use infrarust.Common.Maps.{
  lookup, remove, lookup-insert, lookup-remove, string_key, beq_self, lookup-empty,
}
use infrarust.Common.Keys.{IsUnique, insert-IsUnique, remove-IsUnique}
use infrarust.Routing.Types.{ProviderId, provider_key, ServerConfig, is_wildcard}
use infrarust.Routing.Router.{
  RouterEntry, DomainRouter, empty_router, register_exact, unregister_exact, remove_config,
  remove_configs, remove_all_by_provider_type, ids_of_type, any_wildcard, add, update, patterns_of,
}
use infrarust.Routing.Resolve.{has, lookup-register_exact, lookup-remove_config, configs-add}
use infrarust.Routing.Owners.{
  lookup-register_wildcard, unregister_exact-kept, wildcards_of-none, patterns_of-insert,
  patterns_of-remove,
}

module _ {ℓ} {A : Type ℓ} where
  -- A provider that is registered with a domain.
  abbrev pub Asks : DomainRouter A → ProviderId → String → Type ℓ
  Asks r p d = (e : RouterEntry A) × (lookup p r.configs ≡ some e) × (has d e.domains ≡ true)

  pub record IsRegistered (r : DomainRouter A) : Type ℓ where
    pub unique : IsUnique r.configs
    pub patterns : r.wildcard_patterns ≡ patterns_of r.configs
    pub owners :
        (d : String) (p : ProviderId)
        → lookup d r.exact_domains ≡ some p
        → Asks r p d × (is_wildcard d ≡ false)

  pub empty_router-IsRegistered : IsRegistered (empty_router {A = A})
  empty_router-IsRegistered = record {
    unique = tt;
    patterns = refl;
    owners = λ d p h. absurd (ground (arith, lookup-empty {V = ProviderId} d, h));
  }

  remove_owners :
      (r : DomainRouter A) (id : ProviderId) (e : RouterEntry A)
      → IsRegistered r
      → lookup id r.configs ≡ some e
      → (d : String) (p : ProviderId)
      → lookup d (unregister_exact id e.domains r.exact_domains) ≡ some p
      → ((x : RouterEntry A) × (lookup p (remove id r.configs) ≡ some x) × (has d x.domains ≡ true))
        × (is_wildcard d ≡ false)
  remove_owners r id e h f d p q =
      let (before, other) = unregister_exact-kept id e.domains r.exact_domains d p q in
      let ((x, g, asked), w) = h.owners d p before in
      let apart : provider_key.beq id p ≡ false = elim (Bool-cases (provider_key.beq id p)) [
        | inl s ↦
            let same : id ≡ p = (provider_key.beq_iff id p).0 s in
            let here : x ≡ e = ground (arith, rw (sym same) at g, f) in
            absurd (ground (arith, other (rw here at asked) w, provider_key.beq_iff p id, sym same))
        | inr s ↦ s
      ] in
      ((x, rw (lookup-remove id p r.configs, apart) g, asked), w)

  pub remove_config-IsRegistered :
      (r : DomainRouter A) (id : ProviderId) → IsRegistered r → IsRegistered (remove_config r id)
  unfolding remove_config
  remove_config-IsRegistered r id h = elim (Option-cases (lookup id r.configs)) [
    | inl n ↦ rw (n, remove_config) h
    | inr (e, f) ↦ elim (Bool-cases (any_wildcard e.domains)) [
      | inl w ↦
          rw (f, remove_config, w)
            (record {
              unique = remove-IsUnique id r.configs h.unique;
              patterns = refl;
              owners = remove_owners r id e h f;
            })
      | inr w ↦
          rw (f, remove_config, w)
            (record {
              unique = remove-IsUnique id r.configs h.unique;
              patterns = h.patterns ∙ sym (patterns_of-remove id e r.configs h.unique f w);
              owners = remove_owners r id e h f;
            })
    ]
  ]

module _ {ℓ} {A : Type ℓ} (to_lowercase : String → String) (matches : String → String → Bool) where
  add_owners :
      (r : DomainRouter A) (id : ProviderId) (config : ServerConfig A)
      → IsRegistered r
      → lookup id r.configs ≡ none
      → (d : String) (p : ProviderId)
      → lookup d (add to_lowercase matches r id config).exact_domains ≡ some p
      → Asks (add to_lowercase matches r id config) p d × (is_wildcard d ≡ false)
  add_owners r id config h n d p q =
      let ds = map to_lowercase config.domains in
      let entry : RouterEntry A = record { config = config; domains = ds } in
      let (stored, exact) = configs-add to_lowercase matches r id config in
      let q' : lookup d (register_exact id ds r.exact_domains) ≡ some p = rw exact at q in
      let old : lookup d r.exact_domains ≡ some p
          → Asks (add to_lowercase matches r id config) p d × (is_wildcard d ≡ false) =
        λ o.
          let ((x, g, asked), w) = h.owners d p o in
          let apart : provider_key.beq id p ≡ false =
            ground (arith, n, g, provider_key.beq_iff id p) in
          ((x, rw (stored, lookup-insert id p entry r.configs, apart) g, asked), w) in
      elim (Bool-cases (is_wildcard d)) [
        | inl w ↦ old (sym (lookup-register_wildcard id ds r.exact_domains d w) ∙ q')
        | inr w ↦
            let owner = sym (lookup-register_exact id ds r.exact_domains d w) ∙ q' in
            elim (Bool-cases (has d ds)) [
              | inl asked ↦
                  let same : id ≡ p = ground (arith, rw asked at owner) in
                  (
                    (
                      entry,
                      rw (stored, sym same, lookup-insert id id entry r.configs, beq_self id) refl,
                      asked,
                    ),
                    w,
                  )
              | inr other ↦ old (rw other at owner)
            ]
      ]

  add_patterns :
      (r : DomainRouter A) (id : ProviderId) (config : ServerConfig A)
      → IsRegistered r
      → lookup id r.configs ≡ none
      → (add to_lowercase matches r id config).wildcard_patterns
        ≡ patterns_of (add to_lowercase matches r id config).configs
  unfolding add
  add_patterns r id config h n =
      let ds = map to_lowercase config.domains in
      let entry : RouterEntry A = record { config = config; domains = ds } in
      elim (Bool-cases (any_wildcard ds)) [
        | inl w ↦ rw w refl
        | inr w ↦
            rw (w, patterns_of-insert id entry r.configs n, wildcards_of-none id ds w)
              (h.patterns ∙ sym (append-nil (patterns_of r.configs)))
      ]

  -- A provider that is not there yet.
  pub add-IsRegistered :
      (r : DomainRouter A) (id : ProviderId) (config : ServerConfig A)
      → IsRegistered r
      → lookup id r.configs ≡ none
      → IsRegistered (add to_lowercase matches r id config)
  add-IsRegistered r id config h n =
      let entry : RouterEntry A = record {
        config = config;
        domains = map to_lowercase config.domains;
      } in
      let (stored, exact) = configs-add to_lowercase matches r id config in
      record {
        unique = rw stored (insert-IsUnique id entry r.configs h.unique);
        patterns = add_patterns r id config h n;
        owners = add_owners r id config h n;
      }

  lookup-removed :
      (r : DomainRouter A) (id : ProviderId) → lookup id (remove_config r id).configs ≡ none
  lookup-removed r id = lookup-remove_config r id id ∙ rw (beq_self id) refl

  pub update-IsRegistered :
      (r : DomainRouter A) (id : ProviderId) (config : ServerConfig A)
      → IsRegistered r
      → IsRegistered (update to_lowercase matches r id config)
  unfolding update
  update-IsRegistered r id config h =
      add-IsRegistered (remove_config r id) id config (remove_config-IsRegistered r id h)
        (lookup-removed r id)

  remove_configs-IsRegistered :
      (r : DomainRouter A) (ids : List ProviderId)
      → IsRegistered r
      → IsRegistered (remove_configs r ids)
  unfolding remove_configs
  remove_configs-IsRegistered r [] h = h
  remove_configs-IsRegistered r (id ∷ ids) h =
      remove_configs-IsRegistered (remove_config r id) ids (remove_config-IsRegistered r id h)

  pub remove_all_by_provider_type-IsRegistered :
      (r : DomainRouter A) (provider_type : String)
      → IsRegistered r
      → IsRegistered (remove_all_by_provider_type r provider_type)
  unfolding remove_all_by_provider_type
  remove_all_by_provider_type-IsRegistered r provider_type h =
      remove_configs-IsRegistered r (ids_of_type provider_type r.configs) h
