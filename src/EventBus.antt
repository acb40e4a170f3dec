-- ===== src/EventBus.antt =====
-- crates/infrarust-core/src/event_bus/bus.rs and handler.rs: the event bus. The keys of its two maps,
-- `TypeId` and `PacketKey`, are any types whose equality is decided; an event of any type is a value
-- of `E`, which a handler may change. A call of the bus is one step.
mod Order
mod Sound
mod Calls
mod Vectors
mod Tests
use infrarust.Common.{
  ℕ, suc, ◌+◌, ◌-◌, ◌%◌, ◌^◌, Bool, true, false, Option, none, some, List, [], ◌∷◌, ◌++◌, take,
  drop, leb, ◌==◌, if◌then◌else◌,
}
use infrarust.Common.Maps.{Eq, Map, lookup, insert}

module _ (E : Type 0) where
  pub data HandlerKind : Type 0 where
    sync : (E → E) → HandlerKind
    async : (E → E) → HandlerKind

  pub record HandlerEntry : Type 0 where
    pub handle : ℕ
    pub priority : ℕ
    pub kind : HandlerKind

  pub record EventBus (T K : Type 0) : Type 0 where
    pub handlers : Map T (List HandlerEntry)
    pub packet_handlers : Map K (List HandlerEntry)
    pub next_handle : ℕ
    pub packet_listener_count : ℕ

abbrev pub word : ℕ → ℕ
word n = n % 2 ^ 64

module _ {E : Type 0} where
  -- The entries are run one after another, each on what the one before has left.
  abbrev pub run_handler : HandlerKind E → E → E
  run_handler (HandlerKind.sync handler) event = handler event
  run_handler (HandlerKind.async handler) event = handler event

  unfoldable pub dispatch : List (HandlerEntry E) → E → E
  dispatch [] event = event
  dispatch (entry ∷ entries) event = dispatch entries (run_handler entry.kind event)

  -- `entry(key).or_default()`, and the snapshot of a dispatch.
  abbrev pub or_empty : Option (List (HandlerEntry E)) → List (HandlerEntry E)
  or_empty (some entries) = entries
  or_empty none = []

  -- `partition_point` of a vector that is partitioned: the entries in front that pass the test.
  unfoldable pub partition_point : (HandlerEntry E → Bool) → List (HandlerEntry E) → ℕ
  partition_point test [] = 0
  partition_point test (h ∷ entries) =
      let rest = partition_point test entries in if test h then suc rest else 0

  -- `Vec::insert`.
  abbrev pub insert_at : ℕ → HandlerEntry E → List (HandlerEntry E) → List (HandlerEntry E)
  insert_at pos entry entries = take pos entries ++ (entry ∷ drop pos entries)

  unfoldable pub insert_sorted : HandlerEntry E → List (HandlerEntry E) → List (HandlerEntry E)
  insert_sorted entry entries =
      insert_at (partition_point (λ h. leb h.priority entry.priority) entries) entry entries

  -- `position` of a handle, and `Vec::remove`.
  abbrev pub keep_entry :
      HandlerEntry E → Option (List (HandlerEntry E)) → Option (List (HandlerEntry E))
  keep_entry h (some left) = some (h ∷ left)
  keep_entry h none = none

  unfoldable pub remove_handle : ℕ → List (HandlerEntry E) → Option (List (HandlerEntry E))
  remove_handle handle [] = none
  remove_handle handle (h ∷ entries) =
      let rest = keep_entry h (remove_handle handle entries) in
      if h.handle == handle then some entries else rest

  -- The first vector of the map that holds the handle loses it.
  module _ {A : Type 0} where
    abbrev pub first_left :
        A
        → List (HandlerEntry E)
        → Map A (List (HandlerEntry E))
        → Option (List (HandlerEntry E))
        → Option (Map A (List (HandlerEntry E)))
        → Option (Map A (List (HandlerEntry E)))
    first_left key entries map (some left) rest = some ((key, left) ∷ map)
    first_left key entries map none (some rest) = some ((key, entries) ∷ rest)
    first_left key entries map none none = none

    unfoldable pub remove_from :
        ℕ → Map A (List (HandlerEntry E)) → Option (Map A (List (HandlerEntry E)))
    remove_from handle [] = none
    remove_from handle ((key, entries) ∷ map) =
        first_left key entries map (remove_handle handle entries) (remove_from handle map)

  abbrev pub is_nonempty : List (HandlerEntry E) → Bool
  is_nonempty [] = false
  is_nonempty (h ∷ entries) = true

module _ {E T K : Type 0} where
  abbrev pub new_bus : EventBus E T K
  new_bus = record {
    handlers = [];
    packet_handlers = [];
    next_handle = 1;
    packet_listener_count = 0;
  }

  -- The packet handlers are only searched if no lifecycle handler has the handle.
  abbrev pub removed :
      Option (Map T (List (HandlerEntry E)))
      → Option (Map K (List (HandlerEntry E)))
      → EventBus E T K
      → EventBus E T K
  removed (some left) packets_left bus = record bus { handlers = left }
  removed none (some left) bus = record bus {
    packet_handlers = left;
    packet_listener_count = word (bus.packet_listener_count + (2 ^ 64 - 1));
  }
  removed none none bus = bus

  unfoldable pub unsubscribe : ℕ → EventBus E T K → EventBus E T K
  unsubscribe handle bus =
      removed (remove_from handle bus.handlers) (remove_from handle bus.packet_handlers) bus

  module _ ⦃t : Eq T⦄ where
    -- The vector that `fire` takes a snapshot of.
    abbrev pub handlers_of : T → EventBus E T K → List (HandlerEntry E)
    handlers_of event_type bus = or_empty (lookup event_type bus.handlers)

    unfoldable pub fire : T → E → EventBus E T K → E
    fire event_type event bus = dispatch (handlers_of event_type bus) event

    -- `subscribe_erased` and `subscribe_async_erased`, by the kind of the handler. The handle that
    -- they answer with is the counter before.
    unfoldable pub subscribe : T → ℕ → HandlerKind E → EventBus E T K → EventBus E T K
    subscribe event_type priority kind bus =
        let entry : HandlerEntry E = record {
          handle = bus.next_handle;
          priority = priority;
          kind = kind;
        } in
        record bus {
          next_handle = word (bus.next_handle + 1);
          handlers =
              insert event_type (insert_sorted entry (handlers_of event_type bus)) bus.handlers;
        }

  module _ ⦃k : Eq K⦄ where
    abbrev pub packet_handlers_of : K → EventBus E T K → List (HandlerEntry E)
    packet_handlers_of key bus = or_empty (lookup key bus.packet_handlers)

    unfoldable pub fire_packet_event : K → E → EventBus E T K → E
    fire_packet_event key event bus = dispatch (packet_handlers_of key bus) event

    -- `subscribe_packet` and `subscribe_packet_async`.
    unfoldable pub subscribe_packet : K → ℕ → HandlerKind E → EventBus E T K → EventBus E T K
    subscribe_packet key priority kind bus =
        let entry : HandlerEntry E = record {
          handle = bus.next_handle;
          priority = priority;
          kind = kind;
        } in
        record bus {
          next_handle = word (bus.next_handle + 1);
          packet_handlers =
              insert key (insert_sorted entry (packet_handlers_of key bus)) bus.packet_handlers;
          packet_listener_count = word (bus.packet_listener_count + 1);
        }

    unfoldable pub has_packet_listeners : K → EventBus E T K → Bool
    has_packet_listeners key bus =
        if bus.packet_listener_count == 0 then false else is_nonempty (packet_handlers_of key bus)

-- The calls that change the bus, and a sequence of them.
module _ (E T K : Type 0) where
  pub data Call : Type 0 where
    subscribed : T → ℕ → HandlerKind E → Call
    subscribed_packet : K → ℕ → HandlerKind E → Call
    unsubscribed : ℕ → Call

module _ {E T K : Type 0} ⦃t : Eq T⦄ ⦃k : Eq K⦄ where
  unfoldable pub apply_call : Call E T K → EventBus E T K → EventBus E T K
  apply_call (subscribed event_type priority kind) bus = subscribe event_type priority kind bus
  apply_call (subscribed_packet key priority kind) bus = subscribe_packet key priority kind bus
  apply_call (unsubscribed handle) bus = unsubscribe handle bus

  unfoldable pub apply_calls : List (Call E T K) → EventBus E T K → EventBus E T K
  apply_calls [] bus = bus
  apply_calls (call ∷ calls) bus = apply_calls calls (apply_call call bus)
