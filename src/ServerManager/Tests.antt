-- ===== src/ServerManager/Tests.antt =====
-- Runs of the server manager.
use Prim.Native.String.{String}
use infrarust.Common.{ℕ, ◌-◌, ◌≤◌, ◌≡◌, refl, true, none, some, List, [], ◌∷◌, ◌++◌, arith}
use infrarust.Common.Maps.{lookup, insert, string_key}
use infrarust.ServerManager.State.{ServerState, ProviderStatus, success, failure, process_exited}
use infrarust.ServerManager.Service.{
  ServerEntry, Service, empty_service, fresh_entry, calls_start, start_answered, start_failed,
  stop_server, stop_answered,
}
use infrarust.ServerManager.Monitor.{check_auto_shutdown, idle_check, polled}
use infrarust.ServerManager.Waiters.{IsConserved}
use infrarust.ServerManager.Events.{Event, ensures, start_answers, updates, notifies, run}
use infrarust.ServerManager.Startup.{
  ServerManagerConfig, local, crafty, new_service, run-new_service,
}
use infrarust.ServerManager.Idle.{checks, idle_shutdown_waits}
use infrarust.ServerManager.Herd as Herd
use infrarust.ServerManager.Herd.{
  all_wait, channels, Queued, ensures_start_once, herd_is_served, herd_is_refused,
}
use infrarust.ServerManager.Stop.{stop_strands_waiters}

-- A service with one server, which stops after ten seconds without players.
abbrev lobby : ServerEntry
lobby = fresh_entry (some 10_000) 60_000 500

abbrev ready : Service
ready = record empty_service { entries = ("lobby", lobby) ∷ [] }

ready_entry : lookup "lobby" ready.entries ≡ some lobby
unfolding lookup
ready_entry = refl

-- Two connections wait, the provider fails, and a third connection tries again.
abbrev busy : List Event
busy =
    ensures "lobby"
    ∷ ensures "lobby"
    ∷ start_answers "lobby" (failure (process_exited "lobby"))
    ∷ ensures "lobby"
    ∷ updates "lobby" ProviderStatus.running
    ∷ notifies "lobby" success
    ∷ []

abbrev configured : List (String × ServerManagerConfig)
configured = ("lobby", local (some 10_000) 60_000) ∷ ("hub", crafty none 30_000 1_000) ∷ []

run-new_service_example : IsConserved (run (new_service configured) busy)
run-new_service_example = run-new_service configured busy

ensures_start_once_example :
    Queued 3 ready "lobby" lobby (Herd.ensures 3 ready "lobby")
    × ((Herd.ensures 3 ready "lobby").1 ≡ calls_start 0 60_000 ∷ all_wait 1 60_000 2)
ensures_start_once_example = ensures_start_once 2 ready "lobby" lobby ready_entry refl

herd_is_served_example :
    ((polled (Herd.ensures 2 ready "lobby").0 "lobby" ProviderStatus.running true).0.sent
      ≡ (0, success) ∷ (1, success) ∷ [])
    × (lookup "lobby"
          (polled (Herd.ensures 2 ready "lobby").0 "lobby" ProviderStatus.running true).0.entries
        ≡ some (record lobby { state = ServerState.online; waiters = [] }))
herd_is_served_example = herd_is_served 1 ready "lobby" lobby true ready_entry refl

herd_is_refused_example :
    ((start_answered
        (Herd.ensures 2 ready "lobby").0
        "lobby"
        (failure (process_exited "lobby"))).sent
      ≡ (0, start_failed "lobby") ∷ (1, start_failed "lobby") ∷ [])
    × (lookup "lobby"
          (start_answered
            (Herd.ensures 2 ready "lobby").0
            "lobby"
            (failure (process_exited "lobby"))).entries
        ≡ some (record lobby { state = ServerState.crashed; waiters = [] }))
herd_is_refused_example =
    herd_is_refused 1 ready "lobby" lobby (process_exited "lobby") ready_entry refl

-- A server that one connection waits for.
abbrev awaited : ServerEntry
awaited = record lobby { state = ServerState.starting; waiters = 0 ∷ [] }

abbrev pending : Service
pending = record ready { entries = ("lobby", awaited) ∷ []; next_channel = 1 }

pending_entry : lookup "lobby" pending.entries ≡ some awaited
unfolding lookup
pending_entry = refl

abbrev halted : Service
halted = stop_answered (stop_server pending "lobby").0 "lobby" ServerState.starting success

stop_strands_waiters_example :
    ((polled halted "lobby" ProviderStatus.stopped true).0.sent ≡ [])
    × (lookup "lobby" (polled halted "lobby" ProviderStatus.stopped true).0.entries
        ≡ some (record awaited { state = ServerState.sleeping }))
stop_strands_waiters_example = stop_strands_waiters pending "lobby" awaited pending_entry true

abbrev no_players : ℕ
no_players = 0

-- A player is seen at 1000, nobody at 5000, and nobody at 12000.
stops_at_last :
    (check_auto_shutdown
      (checks ready "lobby" ([] ++ ((1, 1_000) ∷ (0, 5_000) ∷ [])))
      "lobby"
      0
      12_000).1
    ≡ true
unfolding checks check_auto_shutdown idle_check lookup insert
stops_at_last = refl

idle_shutdown_waits_example : (no_players ≡ 0) × (10_000 ≤ 12_000 - 1_000)
idle_shutdown_waits_example =
    idle_shutdown_waits ready "lobby" lobby 10_000 [] ((0, 5_000) ∷ []) 1 1_000 no_players 12_000
      ready_entry refl (omega arith) (omega arith, tt) stops_at_last
