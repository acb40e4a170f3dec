-- ===== src/Routing/Router.antt =====
-- domain_router.rs: `DomainRouter`. `to_lowercase` is the standard library's, and `matches` is
-- the third-party `WildMatch`: a pattern and a text. The locks are left out: an operation is one
-- step.
use Prim.Native.String.{String}
use infrarust.Common.{
  ℕ, ◌+◌, Bool, false, ◌||◌, Option, none, some, List, [], ◌∷◌, ◌++◌, map, length, if◌then◌else◌,
  ◌==◌,
}
use infrarust.Common.Maps.{Map, lookup, insert, remove, string_key}
use infrarust.Routing.Types.{
  ProviderId, provider_key, ServerConfig, effective_id, normalize_handshake, is_wildcard,
}

pub record RouterEntry {ℓ} (A : Type ℓ) : Type ℓ where
  pub config : ServerConfig A
  pub domains : List String

-- The compiled matcher is the pattern that it was made from.
pub record WildcardEntry : Type 0 where
  pub raw : String
  pub provider_id : ProviderId

pub record DomainRouter {ℓ} (A : Type ℓ) : Type ℓ where
  pub configs : Map ProviderId (RouterEntry A)
  pub exact_domains : Map String ProviderId
  pub wildcard_patterns : List WildcardEntry

abbrev pub any_wildcard : List String → Bool
any_wildcard [] = false
any_wildcard (d ∷ ds) = is_wildcard d || any_wildcard ds

-- The loop of `add` over the exact domains: the last writer owns a domain.
unfoldable pub register_exact :
    ProviderId → List String → Map String ProviderId → Map String ProviderId
register_exact id [] m = m
register_exact id (d ∷ ds) m = register_exact id ds (if is_wildcard d then m else insert d id m)

-- `remove_if(domain, |_, owner| owner == id)`
unfoldable pub remove_owned : ProviderId → String → Map String ProviderId → Map String ProviderId
remove_owned id d m = elim (lookup d m) [
  | none ↦ m
  | some owner ↦ if provider_key.beq owner id then remove d m else m
]

-- The loop of `remove`.
unfoldable pub unregister_exact :
    ProviderId → List String → Map String ProviderId → Map String ProviderId
unregister_exact id [] m = m
unregister_exact id (d ∷ ds) m =
    unregister_exact id ds (if is_wildcard d then m else remove_owned id d m)

abbrev pub wildcards_of : ProviderId → List String → List WildcardEntry
wildcards_of id [] = []
wildcards_of id (d ∷ ds) =
    let rest = wildcards_of id ds in
    if is_wildcard d then record { raw = d; provider_id = id } ∷ rest else rest

-- `*counts.entry(provider_type).or_insert(0) += 1`
abbrev pub count_one : String → Map String ℕ → Map String ℕ
count_one provider_type counts = elim (lookup provider_type counts) [
  | none ↦ insert provider_type 1 counts
  | some n ↦ insert provider_type (n + 1) counts
]

module _ {ℓ} {A : Type ℓ} where
  abbrev pub empty_router : DomainRouter A
  empty_router = record { configs = []; exact_domains = []; wildcard_patterns = [] }

  abbrev pub patterns_of : Map ProviderId (RouterEntry A) → List WildcardEntry
  patterns_of [] = []
  patterns_of ((id, e) ∷ m) = wildcards_of id e.domains ++ patterns_of m

  abbrev pub rebuild_wildcards : DomainRouter A → DomainRouter A
  rebuild_wildcards r = record r { wildcard_patterns = patterns_of r.configs }

  unfoldable pub remove_config : DomainRouter A → ProviderId → DomainRouter A
  remove_config r id = elim (lookup id r.configs) [
    | none ↦ r
    | some e ↦
        let left = record r {
          configs = remove id r.configs;
          exact_domains = unregister_exact id e.domains r.exact_domains;
        } in
        if any_wildcard e.domains then rebuild_wildcards left else left
  ]

  unfoldable pub remove_configs : DomainRouter A → List ProviderId → DomainRouter A
  remove_configs r [] = r
  remove_configs r (id ∷ ids) = remove_configs (remove_config r id) ids

  abbrev pub ids_of_type : String → Map ProviderId (RouterEntry A) → List ProviderId
  ids_of_type provider_type [] = []
  ids_of_type provider_type ((id, e) ∷ m) =
      let rest = ids_of_type provider_type m in
      if string_key.beq id.provider_type provider_type then id ∷ rest else rest

  unfoldable pub remove_all_by_provider_type : DomainRouter A → String → DomainRouter A
  remove_all_by_provider_type r provider_type =
      remove_configs r (ids_of_type provider_type r.configs)

  abbrev pub list_all : DomainRouter A → List (ProviderId × ServerConfig A)
  list_all r = map (λ p. (p.0, p.1.config)) r.configs

  abbrev pub find_config : String → Map ProviderId (RouterEntry A) → Option (ServerConfig A)
  find_config server_id [] = none
  find_config server_id ((id, e) ∷ m) =
      let rest = find_config server_id m in
      if string_key.beq (effective_id e.config) server_id then some e.config else rest

  abbrev pub find_by_server_id : DomainRouter A → String → Option (ServerConfig A)
  find_by_server_id r server_id = find_config server_id r.configs

  abbrev pub count_configs : Map ProviderId (RouterEntry A) → Map String ℕ → Map String ℕ
  count_configs [] counts = counts
  count_configs ((id, e) ∷ m) counts = count_configs m (count_one id.provider_type counts)

  abbrev pub count_by_provider : DomainRouter A → Map String ℕ
  count_by_provider r = count_configs r.configs []

  abbrev pub len : DomainRouter A → ℕ
  len r = length r.configs

  abbrev pub is_empty : DomainRouter A → Bool
  is_empty r = len r == 0

  -- A provider's configuration, if it is still there.
  abbrev pub routed : DomainRouter A → ProviderId → Option (ProviderId × ServerConfig A)
  routed r id = elim (lookup id r.configs) [ none ↦ none | some e ↦ some (id, e.config) ]

  abbrev pub or_next :
      Option (ProviderId × ServerConfig A)
      → Option (ProviderId × ServerConfig A)
      → Option (ProviderId × ServerConfig A)
  or_next (some found) next = some found
  or_next none next = next

module _ {ℓ} {A : Type ℓ} (to_lowercase : String → String) (matches : String → String → Bool) where
  unfoldable pub add : DomainRouter A → ProviderId → ServerConfig A → DomainRouter A
  add r id config =
      let registered = map to_lowercase config.domains in
      let stored = record r {
        configs = insert id (record { config = config; domains = registered }) r.configs;
        exact_domains = register_exact id registered r.exact_domains;
      } in
      if any_wildcard registered then rebuild_wildcards stored else stored

  unfoldable pub update : DomainRouter A → ProviderId → ServerConfig A → DomainRouter A
  update r id config = add (remove_config r id) id config

  -- The scan over the patterns.
  unfoldable pub wildcard_match :
      DomainRouter A → List WildcardEntry → String → Option (ProviderId × ServerConfig A)
  wildcard_match r [] normalized = none
  wildcard_match r (w ∷ ws) normalized =
      let rest = wildcard_match r ws normalized in
      if matches w.raw normalized then or_next (routed r w.provider_id) rest else rest

  unfoldable pub exact_match : DomainRouter A → String → Option (ProviderId × ServerConfig A)
  exact_match r normalized = elim (lookup normalized r.exact_domains) [
    | none ↦ none
    | some id ↦ routed r id
  ]

  unfoldable pub resolve : DomainRouter A → String → Option (ProviderId × ServerConfig A)
  resolve r domain =
      let normalized = to_lowercase (normalize_handshake domain) in
      or_next (exact_match r normalized) (wildcard_match r r.wildcard_patterns normalized)

  abbrev pub resolve_config : DomainRouter A → String → Option (ServerConfig A)
  resolve_config r domain = elim (resolve r domain) [ none ↦ none | some (id, c) ↦ some c ]
