-- ===== src/ServerManager/Service.antt =====
-- service.rs: `ServerManagerService`. An `async` method that awaits its provider is two functions,
-- before and after the await, since any other task may run in between; the provider's answer is an
-- argument of the second. A `oneshot` channel is a number, and what was sent is kept in `sent`.
use Prim.Native.String.{String}
use infrarust.Common.{
  ℕ, ◌+◌, Option, none, some, List, [], ◌∷◌, ◌++◌, map, ◌==◌, not, if◌then◌else◌,
}
use infrarust.Common.Maps.{Map, lookup, insert, string_key}
use infrarust.ServerManager.State.{
  ServerState, is_startable, rank, ProviderStatus, from_status, ServerManagerError,
  server_not_found, invalid_state, provider, Outcome, success, failure,
}

-- `provider` is left out: its answers are arguments.
pub record ServerEntry : Type 0 where
  pub state : ServerState
  pub shutdown_after : Option ℕ
  pub start_timeout : ℕ
  pub poll_interval : ℕ
  pub last_player_seen : Option ℕ
  pub waiters : List ℕ

-- One call of a state change listener.
pub record Notice : Type 0 where
  pub listener : ℕ
  pub server_id : String
  pub old_state : ServerState
  pub new_state : ServerState

-- The service, with what it has done to the outside: messages sent, and listeners called.
pub record Service : Type 0 where
  pub entries : Map String ServerEntry
  pub listeners : List ℕ
  pub next_listener_id : ℕ
  pub next_channel : ℕ
  pub sent : List (ℕ × Outcome)
  pub notices : List Notice

-- What `new` and `register_server` store for a server.
abbrev pub fresh_entry : Option ℕ → ℕ → ℕ → ServerEntry
fresh_entry shutdown_after start_timeout poll_interval = record {
  state = ServerState.sleeping;
  shutdown_after = shutdown_after;
  start_timeout = start_timeout;
  poll_interval = poll_interval;
  last_player_seen = none;
  waiters = [];
}

-- `new` without servers; each configured server is then stored as by `register_server`.
abbrev pub empty_service : Service
empty_service = record {
  entries = [];
  listeners = [];
  next_listener_id = 1;
  next_channel = 0;
  sent = [];
  notices = [];
}

unfoldable pub register_server : Service → String → Option ℕ → ℕ → ℕ → Service
register_server s server_id shutdown_after start_timeout poll_interval = record s {
  entries = insert server_id (fresh_entry shutdown_after start_timeout poll_interval) s.entries;
}

abbrev pub get_state : Service → String → Option ServerState
get_state s server_id = elim (lookup server_id s.entries) [ none ↦ none | some e ↦ some e.state ]

unfoldable pub add_on_state_change : Service → Service × ℕ
add_on_state_change s = (
  record s {
    listeners = s.listeners ++ (s.next_listener_id ∷ []);
    next_listener_id = s.next_listener_id + 1;
  },
  s.next_listener_id,
)

abbrev pub retain_other : ℕ → List ℕ → List ℕ
retain_other listener_id [] = []
retain_other listener_id (id ∷ ids) =
    let rest = retain_other listener_id ids in if id == listener_id then rest else id ∷ rest

unfoldable pub remove_on_state_change : Service → ℕ → Service
remove_on_state_change s listener_id = record s { listeners = retain_other listener_id s.listeners }

-- Every listener of the snapshot is called, a panic of one is caught.
abbrev pub notices_for : String → ServerState → ServerState → List ℕ → List Notice
notices_for server_id old new =
    map (λ id. record { listener = id; server_id = server_id; old_state = old; new_state = new })

unfoldable pub fire_state_change : Service → String → ServerState → ServerState → Service
fire_state_change s server_id old new = record s {
  notices = s.notices ++ notices_for server_id old new s.listeners;
}

-- A write through the guard of `get_mut`.
abbrev pub put_entry : Service → String → ServerEntry → Service
put_entry s server_id e = record s { entries = insert server_id e s.entries }

-- `for tx in waiters { tx.send(..) }`
abbrev pub messages : Outcome → List ℕ → List (ℕ × Outcome)
messages result = map (λ tx. (tx, result))

abbrev pub send_all : Service → List ℕ → Outcome → Service
send_all s waiters result = record s { sent = s.sent ++ messages result waiters }

-- What the first part of `ensure_started` goes on with: return, wait on a channel, or call the
-- provider's `start` and then wait.
pub data Begun : Type 0 where
  returns : Outcome → Begun
  waits : ℕ → ℕ → Begun
  calls_start : ℕ → ℕ → Begun

-- A new channel joins the waiters.
abbrev pub with_waiter : ServerEntry → ℕ → ServerEntry
with_waiter e tx = record e { waiters = e.waiters ++ (tx ∷ []) }

-- The arms that start the server.
unfoldable pub begin_start : Service → String → ServerEntry → Service × Begun
begin_start s server_id e =
    let tx = s.next_channel in
    let waiting =
      put_entry (record s { next_channel = tx + 1 }) server_id
        (with_waiter (record e { state = ServerState.starting }) tx) in
    (
      fire_state_change waiting server_id e.state ServerState.starting,
      calls_start tx e.start_timeout,
    )

-- The arm that joins the waiters of a start under way.
unfoldable pub join_start : Service → String → ServerEntry → Service × Begun
join_start s server_id e =
    let tx = s.next_channel in
    (
      put_entry (record s { next_channel = tx + 1 }) server_id (with_waiter e tx),
      waits tx e.start_timeout,
    )

unfoldable pub begin_from : ServerState → Service → String → ServerEntry → Service × Begun
begin_from ServerState.online s server_id e = (s, returns success)
begin_from ServerState.stopping s server_id e =
    (s, returns (failure (invalid_state server_id ServerState.stopping "connect")))
begin_from ServerState.sleeping s server_id e = begin_start s server_id e
begin_from ServerState.crashed s server_id e = begin_start s server_id e
begin_from ServerState.starting s server_id e = join_start s server_id e
begin_from ServerState.unknown s server_id e = begin_start s server_id e

-- `ensure_started`, up to the provider's `start` or the wait.
unfoldable pub ensure_started : Service → String → Service × Begun
ensure_started s server_id = elim (lookup server_id s.entries) [
  | none ↦ (s, returns (failure (server_not_found server_id)))
  | some e ↦ begin_from e.state s server_id e
]

-- The answers to the waiters of a start that failed.
abbrev pub start_failed : String → Outcome
start_failed server_id = failure (provider server_id "start failed")

-- `ensure_started` after the provider's `start`: its error is returned, an `ok` goes on to wait.
unfoldable pub start_answered : Service → String → Outcome → Service
start_answered s server_id success = s
start_answered s server_id (failure x) = elim (lookup server_id s.entries) [
  | none ↦ s
  | some e ↦
      let taken = put_entry s server_id (record e { state = ServerState.crashed; waiters = [] }) in
      send_all (fire_state_change taken server_id ServerState.starting ServerState.crashed)
        e.waiters (start_failed server_id)
]

-- What a wait ends with: a message, a channel closed without one, or the timeout.
pub data Arrival : Type 0 where
  message : Outcome → Arrival
  closed : Arrival
  timed_out : Arrival

abbrev pub wait_result : String → ℕ → Arrival → Outcome
wait_result server_id timeout (message result) = result
wait_result server_id timeout closed =
    failure (provider server_id "waiter channel closed unexpectedly")
wait_result server_id timeout timed_out =
    failure (ServerManagerError.start_timeout server_id timeout)

-- `start_server`, up to the provider's `start`, whose answer is its result; `none` is that call.
unfoldable pub start_server : Service → String → Service × Option Outcome
start_server s server_id = elim (lookup server_id s.entries) [
  | none ↦ (s, some (failure (server_not_found server_id)))
  | some e ↦
      if not (is_startable e.state)
      then (s, some (failure (invalid_state server_id e.state "start")))
      else (
        fire_state_change (put_entry s server_id (record e { state = ServerState.starting }))
            server_id e.state ServerState.starting,
        none,
      )
]

-- `stop_server`, up to the provider's `stop`: the state before, or the error that is returned.
pub data StopBegun : Type 0 where
  calls_stop : ServerState → StopBegun
  stop_refused : ServerManagerError → StopBegun

unfoldable pub stop_server : Service → String → Service × StopBegun
stop_server s server_id = elim (lookup server_id s.entries) [
  | none ↦ (s, stop_refused (server_not_found server_id))
  | some e ↦ (
    fire_state_change (put_entry s server_id (record e { state = ServerState.stopping })) server_id
        e.state ServerState.stopping,
    calls_stop e.state,
  )
]

-- A change of an entry, if it is still there.
unfoldable pub modify_entry : Service → String → (ServerEntry → ServerEntry) → Service
modify_entry s server_id change = elim (lookup server_id s.entries) [
  | none ↦ s
  | some e ↦ put_entry s server_id (change e)
]

-- `stop_server` after the provider's `stop`.
unfoldable pub stop_answered : Service → String → ServerState → Outcome → Service
stop_answered s server_id old_state success =
    fire_state_change
      (modify_entry s server_id
        (λ e. record e { state = ServerState.sleeping; last_player_seen = none }))
      server_id ServerState.stopping ServerState.sleeping
stop_answered s server_id old_state (failure x) =
    fire_state_change (modify_entry s server_id (λ e. record e { state = old_state })) server_id
      ServerState.stopping old_state

-- `update_state`: the transition, if the state changed.
unfoldable pub update_state :
    Service → String → ProviderStatus → Service × Option (ServerState × ServerState)
update_state s server_id new_status = elim (lookup server_id s.entries) [
  | none ↦ (s, none)
  | some e ↦
      let new_state = from_status new_status in
      if rank e.state == rank new_state then (s, none) else (
        fire_state_change (put_entry s server_id (record e { state = new_state })) server_id e.state
            new_state,
        some (e.state, new_state),
      )
]

abbrev pub waiter_message : String → Outcome → Outcome
waiter_message server_id success = success
waiter_message server_id (failure x) = failure (provider server_id "server failed to start")

unfoldable pub notify_waiters : Service → String → Outcome → Service
notify_waiters s server_id result = elim (lookup server_id s.entries) [
  | none ↦ s
  | some e ↦
      send_all (put_entry s server_id (record e { waiters = [] })) e.waiters
        (waiter_message server_id result)
]

abbrev pub get_poll_interval : Service → String → ℕ
get_poll_interval s server_id = elim (lookup server_id s.entries) [
  | none ↦ 5000
  | some e ↦ e.poll_interval
]

-- One round of `initial_health_check`, with the answer of `check_status` for the server; an error
-- changes nothing.
unfoldable pub health_checked : Service → String → Option ProviderStatus → Service
health_checked s server_id none = s
health_checked s server_id (some status) = elim (lookup server_id s.entries) [
  | none ↦ s
  | some e ↦
      let new_state = from_status status in
      let written = put_entry s server_id (record e { state = new_state }) in
      if rank e.state == rank new_state
      then written
      else fire_state_change written server_id e.state new_state
]
