-- ===== src/ServerManager/Monitor.antt =====
-- monitor.rs: the task that polls one server. A round is cut where it awaits the provider; time is
-- a number of milliseconds that the caller reads.
use Prim.Native.String.{String}
use infrarust.Common.{
  ℕ, ◌-◌, ◌*◌, Bool, true, false, Option, none, some, ltb, leb, ◌==◌, if◌then◌else◌,
}
use infrarust.Common.Maps.{lookup, string_key}
use infrarust.ServerManager.State.{
  ServerState, rank, ProviderStatus, process_exited, success, failure,
}
use infrarust.ServerManager.Service.{
  ServerEntry, Service, put_entry, get_state, update_state, notify_waiters, get_poll_interval,
}

-- The length of the sleep before a round.
abbrev pub sleep_interval : Service → String → Bool → ℕ
sleep_interval s server_id fast_poll =
    if fast_poll then get_poll_interval s server_id else get_poll_interval s server_id * 6

-- A crashed server is not polled.
abbrev pub skips_poll : Service → String → Bool
skips_poll s server_id = elim (get_state s server_id) [
  | none ↦ false
  | some state ↦ rank state == rank ServerState.crashed
]

-- Step 2 after a transition: who is told, and whether to poll fast.
unfoldable pub on_transition : Service → String → ServerState → Bool → Service × Bool
on_transition s server_id ServerState.online fast_poll = (notify_waiters s server_id success, false)
on_transition s server_id ServerState.crashed fast_poll =
    (notify_waiters s server_id (failure (process_exited server_id)), false)
on_transition s server_id ServerState.sleeping fast_poll =
    (notify_waiters s server_id (failure (process_exited server_id)), false)
on_transition s server_id ServerState.starting fast_poll = (s, true)
on_transition s server_id ServerState.stopping fast_poll = (s, true)
on_transition s server_id ServerState.unknown fast_poll = (s, fast_poll)

-- Step 2: `update_state`, and what follows a transition.
unfoldable pub after_update :
    Service × Option (ServerState × ServerState) → String → Bool → Service × Bool
after_update (s, none) server_id fast_poll = (s, fast_poll)
after_update (s, some (old, new_state)) server_id fast_poll =
    on_transition s server_id new_state fast_poll

unfoldable pub polled : Service → String → ProviderStatus → Bool → Service × Bool
polled s server_id new_status fast_poll =
    after_update (update_state s server_id new_status) server_id fast_poll

-- `check_auto_shutdown`, up to `stop_server`: the service, and whether the server is to be stopped.
unfoldable pub idle_check :
    Service → String → ServerEntry → ℕ → Option ℕ → Option ℕ → Service × Bool
idle_check s server_id e now none last_seen = (s, false)
idle_check s server_id e now (some shutdown_after) none =
    (put_entry s server_id (record e { last_player_seen = some now }), false)
idle_check s server_id e now (some shutdown_after) (some last_seen) =
    (s, leb shutdown_after (now - last_seen))

unfoldable pub check_auto_shutdown : Service → String → ℕ → ℕ → Service × Bool
check_auto_shutdown s server_id player_count now = elim (lookup server_id s.entries) [
  | none ↦ (s, false)
  | some e ↦
      if ltb 0 player_count
      then (put_entry s server_id (record e { last_player_seen = some now }), false)
      else idle_check s server_id e now e.shutdown_after e.last_player_seen
]

-- A round with the provider's answer: the service, fast polling, and whether `stop_server` follows.
abbrev pub monitor_round :
    Service → String → Bool → Option ProviderStatus → ℕ → ℕ → Service × Bool × Bool
monitor_round s server_id fast_poll none player_count now = (s, fast_poll, false)
monitor_round s server_id fast_poll (some ProviderStatus.running) player_count now =
    let (polled_s, fast) = polled s server_id ProviderStatus.running fast_poll in
    let (checked, stop) = check_auto_shutdown polled_s server_id player_count now in
    (checked, fast, stop)
monitor_round s server_id fast_poll (some status) player_count now =
    let (polled_s, fast) = polled s server_id status fast_poll in (polled_s, fast, false)
