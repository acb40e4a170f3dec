-- ===== src/ServerManager/Events.antt =====
-- The service under any interleaving of its tasks: each step is what one task does between two
-- awaits, and a run is a list of steps.
use Prim.Native.String.{String}
use infrarust.Common.{
  ℕ, ◌≡◌, refl, Option, none, some, List, [], ◌∷◌, ltb, ◌==◌, Option-cases, Bool-cases, inl, inr,
  arith,
}
use infrarust.Common.Maps.{lookup, string_key}
use infrarust.ServerManager.State.{
  ServerState, ProviderStatus, Outcome, success, failure, rank, from_status, is_startable,
}
use infrarust.ServerManager.Service.{
  ServerEntry, Service, ensure_started, begin_start, begin_from, join_start, with_waiter,
  start_answered, start_failed, start_server, stop_server, stop_answered, update_state,
  notify_waiters, waiter_message, modify_entry, fire_state_change, health_checked,
  add_on_state_change, remove_on_state_change, empty_service, register_server, fresh_entry,
}
use infrarust.ServerManager.Monitor.{check_auto_shutdown, idle_check}
use infrarust.ServerManager.Waiters.{
  IsConserved, IsConserved-kept, IsConserved-answered, IsConserved-joined, queued, answered, times,
  queued-insert_new,
}

pub data Event : Type 0 where
  ensures : String → Event
  start_answers : String → Outcome → Event
  starts : String → Event
  stops : String → Event
  stop_answers : String → ServerState → Outcome → Event
  updates : String → ProviderStatus → Event
  notifies : String → Outcome → Event
  checks_health : String → Option ProviderStatus → Event
  checks_idle : String → ℕ → ℕ → Event
  adds_listener : Event
  removes_listener : ℕ → Event

pub step : Service → Event → Service
step s (ensures id) = (ensure_started s id).0
step s (start_answers id r) = start_answered s id r
step s (starts id) = (start_server s id).0
step s (stops id) = (stop_server s id).0
step s (stop_answers id old r) = stop_answered s id old r
step s (updates id status) = (update_state s id status).0
step s (notifies id r) = notify_waiters s id r
step s (checks_health id answer) = health_checked s id answer
step s (checks_idle id count now) = (check_auto_shutdown s id count now).0
step s adds_listener = (add_on_state_change s).0
step s (removes_listener listener) = remove_on_state_change s listener

pub run : Service → List Event → Service
run s [] = s
run s (ev ∷ evs) = run (step s ev) evs

module _ (s : Service) (id : String) (h : IsConserved s) where
  join_start-IsConserved :
      (e : ServerEntry) → lookup id s.entries ≡ some e → IsConserved (join_start s id e).0
  unfolding join_start
  join_start-IsConserved e f =
      IsConserved-joined s _ id e (with_waiter e s.next_channel) f refl h refl refl refl

  begin_start-IsConserved :
      (e : ServerEntry) → lookup id s.entries ≡ some e → IsConserved (begin_start s id e).0
  unfolding begin_start fire_state_change
  begin_start-IsConserved e f =
      IsConserved-joined s _ id e
        (with_waiter (record e { state = ServerState.starting }) s.next_channel) f refl h refl refl
        refl

  begin_from-IsConserved :
      (state : ServerState) (e : ServerEntry)
      → lookup id s.entries ≡ some e
      → IsConserved (begin_from state s id e).0
  unfolding begin_from
  begin_from-IsConserved ServerState.online e f = h
  begin_from-IsConserved ServerState.stopping e f = h
  begin_from-IsConserved ServerState.starting e f = join_start-IsConserved e f
  begin_from-IsConserved ServerState.sleeping e f = begin_start-IsConserved e f
  begin_from-IsConserved ServerState.crashed e f = begin_start-IsConserved e f
  begin_from-IsConserved ServerState.unknown e f = begin_start-IsConserved e f

  ensure_started-IsConserved : IsConserved (ensure_started s id).0
  unfolding ensure_started
  ensure_started-IsConserved = elim (Option-cases (lookup id s.entries)) [
    | inl n ↦ rw (n, ensure_started) h
    | inr (e, f) ↦ rw (f, ensure_started) (begin_from-IsConserved e.state e f)
  ]

  start_answered-IsConserved : (r : Outcome) → IsConserved (start_answered s id r)
  unfolding start_answered fire_state_change
  start_answered-IsConserved success = h
  start_answered-IsConserved (failure x) = elim (Option-cases (lookup id s.entries)) [
    | inl n ↦ rw (n, start_answered) h
    | inr (e, f) ↦
        rw (f, start_answered)
          (IsConserved-answered s _ id e (record e { state = ServerState.crashed; waiters = [] }) f
            refl h (start_failed id) refl refl refl)
  ]

  start_server-IsConserved : IsConserved (start_server s id).0
  unfolding start_server fire_state_change
  start_server-IsConserved = elim (Option-cases (lookup id s.entries)) [
    | inl n ↦ rw (n, start_server) h
    | inr (e, f) ↦ elim (Bool-cases (is_startable e.state)) [
      | inl can ↦
          rw (f, start_server, can)
            (IsConserved-kept s _ id e (record e { state = ServerState.starting }) f refl h refl
              refl refl)
      | inr cannot ↦ rw (f, start_server, cannot) h
    ]
  ]

  stop_server-IsConserved : IsConserved (stop_server s id).0
  unfolding stop_server fire_state_change
  stop_server-IsConserved = elim (Option-cases (lookup id s.entries)) [
    | inl n ↦ rw (n, stop_server) h
    | inr (e, f) ↦
        rw (f, stop_server)
          (IsConserved-kept s _ id e (record e { state = ServerState.stopping }) f refl h refl refl
            refl)
  ]

  modify_entry-IsConserved :
      (change : ServerEntry → ServerEntry)
      → ((e : ServerEntry) → (change e).waiters ≡ e.waiters)
      → IsConserved (modify_entry s id change)
  unfolding modify_entry
  modify_entry-IsConserved change p = elim (Option-cases (lookup id s.entries)) [
    | inl n ↦ rw (n, modify_entry) h
    | inr (e, f) ↦
        rw (f, modify_entry) (IsConserved-kept s _ id e (change e) f refl h (p e) refl refl)
  ]

  stop_answered-IsConserved :
      (old : ServerState) (r : Outcome) → IsConserved (stop_answered s id old r)
  unfolding stop_answered fire_state_change
  stop_answered-IsConserved old success =
      let change =
        λ (e : ServerEntry). record e { state = ServerState.sleeping; last_player_seen = none } in
      let kept = modify_entry-IsConserved change (λ e. refl) in record { once = kept.once }
  stop_answered-IsConserved old (failure x) =
      let kept = modify_entry-IsConserved (λ e. record e { state = old }) (λ e. refl) in
      record { once = kept.once }

  update_state-IsConserved : (status : ProviderStatus) → IsConserved (update_state s id status).0
  unfolding update_state fire_state_change
  update_state-IsConserved status = elim (Option-cases (lookup id s.entries)) [
    | inl n ↦ rw (n, update_state) h
    | inr (e, f) ↦ elim (Bool-cases (rank e.state == rank (from_status status))) [
      | inl same ↦ rw (f, update_state, same) h
      | inr changed ↦
          rw (f, update_state, changed)
            (IsConserved-kept s _ id e (record e { state = from_status status }) f refl h refl refl
              refl)
    ]
  ]

  health_checked-IsConserved :
      (answer : Option ProviderStatus) → IsConserved (health_checked s id answer)
  unfolding health_checked fire_state_change
  health_checked-IsConserved none = h
  health_checked-IsConserved (some status) = elim (Option-cases (lookup id s.entries)) [
    | inl n ↦ rw (n, health_checked) h
    | inr (e, f) ↦ elim (Bool-cases (rank e.state == rank (from_status status))) [
      | inl same ↦
          rw (f, health_checked, same)
            (IsConserved-kept s _ id e (record e { state = from_status status }) f refl h refl refl
              refl)
      | inr changed ↦
          rw (f, health_checked, changed)
            (IsConserved-kept s _ id e (record e { state = from_status status }) f refl h refl refl
              refl)
    ]
  ]

  idle_check-IsConserved :
      (e : ServerEntry) (now : ℕ) (after last : Option ℕ)
      → lookup id s.entries ≡ some e
      → IsConserved (idle_check s id e now after last).0
  unfolding idle_check
  idle_check-IsConserved e now none last f = h
  idle_check-IsConserved e now (some after) none f =
      IsConserved-kept s _ id e (record e { last_player_seen = some now }) f refl h refl refl refl
  idle_check-IsConserved e now (some after) (some last) f = h

  check_auto_shutdown-IsConserved :
      (count now : ℕ) → IsConserved (check_auto_shutdown s id count now).0
  unfolding check_auto_shutdown
  check_auto_shutdown-IsConserved count now = elim (Option-cases (lookup id s.entries)) [
    | inl n ↦ rw (n, check_auto_shutdown) h
    | inr (e, f) ↦ elim (Bool-cases (ltb 0 count)) [
      | inl seen ↦
          rw (f, check_auto_shutdown, seen)
            (IsConserved-kept s _ id e (record e { last_player_seen = some now }) f refl h refl refl
              refl)
      | inr idle ↦
          rw (f, check_auto_shutdown, idle)
            (idle_check-IsConserved e now e.shutdown_after e.last_player_seen f)
    ]
  ]

  notify_waiters-IsConserved : (r : Outcome) → IsConserved (notify_waiters s id r)
  unfolding notify_waiters
  notify_waiters-IsConserved r = elim (Option-cases (lookup id s.entries)) [
    | inl n ↦ rw (n, notify_waiters) h
    | inr (e, f) ↦
        rw (f, notify_waiters)
          (IsConserved-answered s _ id e (record e { waiters = [] }) f refl h (waiter_message id r)
            refl refl refl)
  ]

step-IsConserved : (s : Service) (ev : Event) → IsConserved s → IsConserved (step s ev)
unfolding step add_on_state_change remove_on_state_change
step-IsConserved s (ensures id) h = ensure_started-IsConserved s id h
step-IsConserved s (start_answers id r) h = start_answered-IsConserved s id h r
step-IsConserved s (starts id) h = start_server-IsConserved s id h
step-IsConserved s (stops id) h = stop_server-IsConserved s id h
step-IsConserved s (stop_answers id old r) h = stop_answered-IsConserved s id h old r
step-IsConserved s (updates id status) h = update_state-IsConserved s id h status
step-IsConserved s (notifies id r) h = notify_waiters-IsConserved s id h r
step-IsConserved s (checks_health id answer) h = health_checked-IsConserved s id h answer
step-IsConserved s (checks_idle id count now) h = check_auto_shutdown-IsConserved s id h count now
step-IsConserved s adds_listener h = record { once = h.once }
step-IsConserved s (removes_listener listener) h = record { once = h.once }

-- Under every interleaving of the tasks, each channel handed out to a waiting connection is either
-- queued at one server or has been sent one message, and no other channel is queued or sent to:
-- no waiter is lost or answered twice.
pub run-IsConserved : (s : Service) (evs : List Event) → IsConserved s → IsConserved (run s evs)
unfolding run
run-IsConserved s [] h = h
run-IsConserved s (ev ∷ evs) h = run-IsConserved (step s ev) evs (step-IsConserved s ev h)

-- A service with servers that are registered for the first time starts conserved.
pub empty_service-IsConserved : IsConserved empty_service
unfolding queued answered
empty_service-IsConserved = record { once = λ c. ground arith }

pub register_server-IsConserved :
    (s : Service) (id : String) (after : Option ℕ) (timeout poll : ℕ)
    → lookup id s.entries ≡ none
    → IsConserved s
    → IsConserved (register_server s id after timeout poll)
unfolding register_server times
register_server-IsConserved s id after timeout poll f h = record {
  once = λ c.
      ground (arith, h.once c, queued-insert_new c id (fresh_entry after timeout poll) s.entries f);
}
