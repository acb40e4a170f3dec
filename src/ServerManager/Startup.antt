-- ===== src/ServerManager/Startup.antt =====
-- service.rs: `ServerManagerService::new` and `initial_health_check`, and the service from there
-- on under any interleaving of its tasks.
use Prim.Native.String.{String}
use infrarust.Common.{ℕ, ◌≡◌, refl, Option, List, [], ◌∷◌, Option-cases, inl, inr, arith}
use infrarust.Common.Maps.{lookup, insert, string_key, Map}
use infrarust.ServerManager.State.{ProviderStatus}
use infrarust.ServerManager.Service.{
  ServerEntry, Service, empty_service, fresh_entry, health_checked,
}
use infrarust.ServerManager.Waiters.{
  IsConserved, queued, answered, times, queued-insert, queued-insert_new,
}
use infrarust.ServerManager.Events.{Event, run, run-IsConserved}

-- The fields of a server's configuration that the service keeps: the idle time, the start timeout,
-- and, but for a local process, the poll interval.
pub data ServerManagerConfig : Type 0 where
  local : Option ℕ → ℕ → ServerManagerConfig
  pterodactyl : Option ℕ → ℕ → ℕ → ServerManagerConfig
  crafty : Option ℕ → ℕ → ℕ → ServerManagerConfig

abbrev pub entry_of : ServerManagerConfig → ServerEntry
entry_of (local shutdown_after timeout) = fresh_entry shutdown_after timeout 5000
entry_of (pterodactyl shutdown_after timeout poll) = fresh_entry shutdown_after timeout poll
entry_of (crafty shutdown_after timeout poll) = fresh_entry shutdown_after timeout poll

-- The loop of `new`.
pub insert_configs :
    List (String × ServerManagerConfig) → Map String ServerEntry → Map String ServerEntry
insert_configs [] m = m
insert_configs ((id, config) ∷ configs) m = insert_configs configs (insert id (entry_of config) m)

pub new_service : List (String × ServerManagerConfig) → Service
new_service configs = record empty_service { entries = insert_configs configs [] }

-- `initial_health_check`, with the provider's answer for each server.
abbrev pub initial_health_check : Service → List (String × Option ProviderStatus) → Service
initial_health_check s [] = s
initial_health_check s ((id, answer) ∷ rest) =
    initial_health_check (health_checked s id answer) rest

-- Nobody waits at a server that was just stored.
queued-insert_entry :
    (c : ℕ) (id : String) (config : ServerManagerConfig) (m : Map String ServerEntry)
    → queued c m ≡ 0
    → queued c (insert id (entry_of config) m) ≡ 0
unfolding times
queued-insert_entry c id config m h =
    let idle : times c (entry_of config).waiters ≡ 0 = no_waiters config in
    elim (Option-cases (lookup id m)) [
      | inl n ↦ omega (arith, h, idle, queued-insert_new c id (entry_of config) m n)
      | inr (e, f) ↦ omega (arith, h, idle, queued-insert c id e (entry_of config) m f)
    ]
  where
    no_waiters : (config : ServerManagerConfig) → times c (entry_of config).waiters ≡ 0
    no_waiters (local a t) = refl
    no_waiters (pterodactyl a t p) = refl
    no_waiters (crafty a t p) = refl

queued-insert_configs :
    (c : ℕ) (configs : List (String × ServerManagerConfig)) (m : Map String ServerEntry)
    → queued c m ≡ 0
    → queued c (insert_configs configs m) ≡ 0
unfolding insert_configs
queued-insert_configs c [] m h = h
queued-insert_configs c ((id, config) ∷ configs) m h =
    queued-insert_configs c configs (insert id (entry_of config) m)
      (queued-insert_entry c id config m h)

new_service-IsConserved :
    (configs : List (String × ServerManagerConfig)) → IsConserved (new_service configs)
unfolding new_service queued answered
new_service-IsConserved configs = record {
  once = λ c. ground (arith, queued-insert_configs c configs [] refl);
}

-- From the start of the service on, under every interleaving of the tasks of the service, each
-- channel handed out to a waiting connection is queued at one server or has been sent one
-- message, and no other channel is.
pub run-new_service :
    (configs : List (String × ServerManagerConfig)) (evs : List Event)
    → IsConserved (run (new_service configs) evs)
run-new_service configs evs =
    run-IsConserved (new_service configs) evs (new_service-IsConserved configs)
