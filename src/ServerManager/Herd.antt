-- ===== src/ServerManager/Herd.antt =====
-- Many connections that ask for one server that is not up.
use Prim.Native.String.{String}
use infrarust.Common.{
  ℕ, zero, suc, ◌+◌, ◌≡◌, ◌∙◌, refl, ap, Bool, true, false, some, List, [], ◌∷◌, ◌++◌, arith,
}
use mathlib.Core.List.{append-nil, append_assoc}
use infrarust.Common.Maps.{Map, lookup, insert, string_key, lookup-insert, beq_self}
use infrarust.ServerManager.State.{
  ServerState, ProviderStatus, Outcome, success, failure, from_status, ServerManagerError,
}
use infrarust.ServerManager.Service.{
  ServerEntry, Service, put_entry, ensure_started, begin_from, begin_start, join_start, with_waiter,
  Begun, waits, calls_start, fire_state_change, notify_waiters, update_state, messages,
  start_answered, start_failed, waiter_message,
}
use infrarust.ServerManager.Monitor.{polled, after_update, on_transition}

-- `n` connections in a row call `ensure_started`.
pub ensures : ℕ → Service → String → Service × List Begun
ensures zero s id = (s, [])
ensures (suc n) s id =
    let (s₁, b) = ensure_started s id in let (s₂, bs) = ensures n s₁ id in (s₂, b ∷ bs)

-- The channels that are handed out, and what the callers after the first do.
abbrev pub channels : ℕ → ℕ → List ℕ
channels c zero = []
channels c (suc n) = c ∷ channels (c + 1) n

abbrev pub all_wait : ℕ → ℕ → ℕ → List Begun
all_wait c timeout zero = []
all_wait c timeout (suc n) = waits c timeout ∷ all_wait (c + 1) timeout n

-- What `n` callers leave of a server that is starting.
pub record Queued (n : ℕ) (s : Service) (id : String) (e : ServerEntry) (r : Service × List Begun)
    : Type 0 where
  pub found :
      lookup id r.0.entries
      ≡ some (record e {
        state = ServerState.starting;
        waiters = e.waiters ++ channels s.next_channel n;
      })
  pub sent_same : r.0.sent ≡ s.sent

join_start_lem :
    (s : Service) (id : String) (e : ServerEntry)
    → lookup id s.entries ≡ some e
    → e.state ≡ ServerState.starting
    → ensure_started s id ≡ join_start s id e
unfolding ensure_started begin_from
join_start_lem s id e f p = ground (arith, f, p)

ensures_starting :
    (n : ℕ) (s : Service) (id : String) (e : ServerEntry)
    → lookup id s.entries ≡ some e
    → e.state ≡ ServerState.starting
    → Queued n s id e (ensures n s id)
      × ((ensures n s id).1 ≡ all_wait s.next_channel e.start_timeout n)
unfolding ensures join_start
ensures_starting zero s id e f p =
    (record { found = ground (arith, f, p, append-nil e.waiters); sent_same = refl }, refl)
ensures_starting (suc n) s id e f p =
    let s₁ = (join_start s id e).0 in
    let e₁ = with_waiter e s.next_channel in
    let f₁ : lookup id s₁.entries ≡ some e₁ = lookup-insert id id e₁ s.entries ∙ rw (beq_self id) in
    let (q, bs) = ensures_starting n s₁ id e₁ f₁ p in
    rw (join_start_lem s id e f p) (
      record {
        found = rw (append_assoc e.waiters (s.next_channel ∷ [])) at q.found;
        sent_same = q.sent_same;
      },
      ap (λ (l : List Begun). waits s.next_channel e.start_timeout ∷ l) bs,
    )

-- A state in which `ensure_started` starts the server.
abbrev pub starts_from : ServerState → Bool
starts_from ServerState.sleeping = true
starts_from ServerState.crashed = true
starts_from ServerState.unknown = true
starts_from _ = false

begin_start_lem :
    (s : Service) (id : String) (e : ServerEntry)
    → lookup id s.entries ≡ some e
    → starts_from e.state ≡ true
    → ensure_started s id ≡ begin_start s id e
unfolding ensure_started begin_from
begin_start_lem s id e f p = ground (arith, f, p)

-- Of any number of connections in a row that ask for a server that is sleeping, crashed or
-- unknown, the first calls the provider's start and the others wait, and all are queued in order.
pub ensures_start_once :
    (n : ℕ) (s : Service) (id : String) (e : ServerEntry)
    → lookup id s.entries ≡ some e
    → starts_from e.state ≡ true
    → Queued (suc n) s id e (ensures (suc n) s id)
      × ((ensures (suc n) s id).1
          ≡ calls_start s.next_channel e.start_timeout
            ∷ all_wait (s.next_channel + 1) e.start_timeout n)
unfolding ensures begin_start fire_state_change
ensures_start_once n s id e f p =
    let s₁ = (begin_start s id e).0 in
    let e₁ = with_waiter (record e { state = ServerState.starting }) s.next_channel in
    let f₁ : lookup id s₁.entries ≡ some e₁ = lookup-insert id id e₁ s.entries ∙ rw (beq_self id) in
    let (q, bs) = ensures_starting n s₁ id e₁ f₁ refl in
    rw (begin_start_lem s id e f p) (
      record {
        found = rw (append_assoc e.waiters (s.next_channel ∷ [])) at q.found;
        sent_same = q.sent_same;
      },
      ap (λ (l : List Begun). calls_start s.next_channel e.start_timeout ∷ l) bs,
    )

-- An entry that was just written is found again.
pub lookup-put :
    (id : String) (e : ServerEntry) (m : Map String ServerEntry)
    → lookup id (insert id e m) ≡ some e
lookup-put id e m = lookup-insert id id e m ∙ rw (beq_self id)

update_state_running :
    (s : Service) (id : String) (e : ServerEntry)
    → lookup id s.entries ≡ some e
    → e.state ≡ ServerState.starting
    → update_state s id ProviderStatus.running ≡ (
      fire_state_change
          (put_entry s id (record e { state = ServerState.online }))
          id
          ServerState.starting
          ServerState.online,
      some (ServerState.starting, ServerState.online),
    )
unfolding update_state from_status
update_state_running s id e f p = ground (arith, f, p)

notify_waiters_lem :
    (s : Service) (id : String) (e : ServerEntry) (r : Outcome)
    → lookup id s.entries ≡ some e
    → ((notify_waiters s id r).sent ≡ s.sent ++ messages (waiter_message id r) e.waiters)
      × (lookup id (notify_waiters s id r).entries ≡ some (record e { waiters = [] }))
unfolding notify_waiters
notify_waiters_lem s id e r f =
    rw (f, notify_waiters) (refl, lookup-put id (record e { waiters = [] }) s.entries)

-- A poll that finds a starting server running answers its waiters, in order, and leaves none.
polled_running :
    (s : Service) (id : String) (e : ServerEntry) (fast : Bool)
    → lookup id s.entries ≡ some e
    → e.state ≡ ServerState.starting
    → ((polled s id ProviderStatus.running fast).0.sent ≡ s.sent ++ messages success e.waiters)
      × (lookup id (polled s id ProviderStatus.running fast).0.entries
          ≡ some (record e { state = ServerState.online; waiters = [] }))
unfolding polled after_update on_transition fire_state_change
polled_running s id e fast f p =
    let up = record e { state = ServerState.online } in
    rw (update_state_running s id e f p) (
      notify_waiters_lem
        (fire_state_change (put_entry s id up) id ServerState.starting ServerState.online) id up
        success (lookup-put id up s.entries))

start_answered_lem :
    (s : Service) (id : String) (e : ServerEntry) (x : ServerManagerError)
    → lookup id s.entries ≡ some e
    → ((start_answered s id (failure x)).sent ≡ s.sent ++ messages (start_failed id) e.waiters)
      × (lookup id (start_answered s id (failure x)).entries
          ≡ some (record e { state = ServerState.crashed; waiters = [] }))
unfolding start_answered fire_state_change
start_answered_lem s id e x f =
    rw (f, start_answered)
      (refl, lookup-put id (record e { state = ServerState.crashed; waiters = [] }) s.entries)

-- After such connections, a poll that finds the server running sends each of them one success, in
-- order, after those queued before, and leaves the server online with no waiters.
pub herd_is_served :
    (n : ℕ) (s : Service) (id : String) (e : ServerEntry) (fast : Bool)
    → lookup id s.entries ≡ some e
    → starts_from e.state ≡ true
    → ((polled (ensures (suc n) s id).0 id ProviderStatus.running fast).0.sent
        ≡ s.sent ++ messages success (e.waiters ++ channels s.next_channel (suc n)))
      × (lookup id (polled (ensures (suc n) s id).0 id ProviderStatus.running fast).0.entries
          ≡ some (record e { state = ServerState.online; waiters = [] }))
herd_is_served n s id e fast f p =
    let (q, bs) = ensures_start_once n s id e f p in
    let (sent, left) = polled_running (ensures (suc n) s id).0 id _ fast q.found refl in
    (sent ∙ rw q.sent_same, left)

-- If the provider's start fails after such connections, each of them is sent one failure, in
-- order, after those queued before, and the server is left crashed with no waiters.
pub herd_is_refused :
    (n : ℕ) (s : Service) (id : String) (e : ServerEntry) (x : ServerManagerError)
    → lookup id s.entries ≡ some e
    → starts_from e.state ≡ true
    → ((start_answered (ensures (suc n) s id).0 id (failure x)).sent
        ≡ s.sent ++ messages (start_failed id) (e.waiters ++ channels s.next_channel (suc n)))
      × (lookup id (start_answered (ensures (suc n) s id).0 id (failure x)).entries
          ≡ some (record e { state = ServerState.crashed; waiters = [] }))
herd_is_refused n s id e x f p =
    let (q, bs) = ensures_start_once n s id e f p in
    let (sent, left) = start_answered_lem (ensures (suc n) s id).0 id _ x q.found in
    (sent ∙ rw q.sent_same, left)
