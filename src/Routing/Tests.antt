-- ===== src/Routing/Tests.antt =====
-- Runs of the router, with names in lower case and one pattern that matches everything.
use Prim.Native.String.{String}
use infrarust.Common.{◌≡◌, ◌≢◌, refl, Bool, true, false, none, some, List, [], ◌∷◌}
use infrarust.Common.Maps.{lookup, insert, remove, string_key}
use infrarust.Routing.Types.{
  ProviderId, provider_key, ServerConfig, is_wildcard, normalize_handshake,
}
use infrarust.Routing.Router.{
  DomainRouter, empty_router, add, update, remove_config, resolve, exact_match, wildcard_match,
  register_exact, unregister_exact, remove_owned,
}
use infrarust.Routing.Resolve.{has, resolve-add, resolve-remove_config}
use infrarust.Routing.Routes.{Change, updates, apply_changes, Wants, apply_changes-Wants}

abbrev same_case : String → String
same_case s = s

abbrev star : String → String → Bool
star pattern text = string_key.beq pattern "*"

abbrev survival : ProviderId
survival = record { provider_type = "file"; unique_id = "survival.toml" }

abbrev fallback : ProviderId
fallback = record { provider_type = "docker"; unique_id = "fallback" }

abbrev survival_config : ServerConfig (Unit {0})
survival_config = record {
  id = some "survival";
  name = none;
  domains = "mc.example.com" ∷ "play.example.com" ∷ [];
  rest = tt;
}

abbrev fallback_config : ServerConfig (Unit {0})
fallback_config = record { id = none; name = some "fallback"; domains = "*" ∷ []; rest = tt }

-- A trailing dot, and the mark of a modded client.
forge_address : normalize_handshake "mc.example.com.\0FML2\0" ≡ "mc.example.com"
forge_address = refl

plain_domain : is_wildcard "mc.example.com" ≡ false
unfolding is_wildcard
plain_domain = refl

asked_for : has "mc.example.com" survival_config.domains ≡ true
unfolding has
asked_for = refl

resolve-add_example :
    resolve same_case star
      (add same_case star empty_router survival survival_config)
      "mc.example.com."
    ≡ some (survival, survival_config)
resolve-add_example =
    resolve-add same_case star empty_router survival survival_config "mc.example.com." plain_domain
      asked_for

abbrev changes : List (Change (Unit {0}))
changes = updates fallback fallback_config ∷ updates survival survival_config ∷ []

abbrev both : DomainRouter (Unit {0})
both = apply_changes same_case star empty_router changes

-- The exact domain goes first, and any other one goes to the pattern.
survival_first : resolve same_case star both "play.example.com" ≡ some (survival, survival_config)
unfolding apply_changes update remove_config add register_exact is_wildcard lookup insert resolve
    exact_match
survival_first = refl

others_fall_back : resolve same_case star both "example.org" ≡ some (fallback, fallback_config)
unfolding apply_changes update remove_config add register_exact is_wildcard lookup insert resolve
    exact_match wildcard_match
others_fall_back = refl

fallback_after_removal :
    resolve same_case star (remove_config both survival) "mc.example.com"
    ≡ some (fallback, fallback_config)
unfolding apply_changes update remove_config add register_exact is_wildcard lookup insert resolve
    exact_match wildcard_match unregister_exact remove_owned remove
fallback_after_removal = refl

resolve-remove_config_example : fallback ≢ survival
resolve-remove_config_example =
    resolve-remove_config same_case star both survival fallback "mc.example.com" fallback_config
      fallback_after_removal

apply_changes-Wants_example : Wants same_case star both fallback fallback_config "example.org"
apply_changes-Wants_example =
    apply_changes-Wants same_case star changes "example.org" fallback fallback_config
      others_fall_back
