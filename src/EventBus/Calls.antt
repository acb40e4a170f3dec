-- ===== src/EventBus/Calls.antt =====
-- crates/infrarust-core/src/event_bus/bus.rs: a bus after a sequence of calls, its test for listeners
-- of a packet, and the place of a new handler in the dispatch of an event.
use infrarust.Common.{
  ℕ, suc, ◌+◌, ◌<◌, ◌≤◌, ◌^◌, ◌≡◌, refl, sym, false, Option, none, some, List, [], ◌∷◌, ◌++◌,
  length, All, take, drop, leb, ◌==◌, if◌then◌else◌, inl, inr, Bool-cases, arith,
}
use infrarust.Common.Maps.{Eq, Map, lookup-insert}
use infrarust.EventBus.{
  HandlerKind, HandlerEntry, EventBus, Call, new_bus, partition_point, insert_sorted, is_nonempty,
  handlers_of, fire, subscribe, packet_handlers_of, has_packet_listeners, apply_call, apply_calls,
  dispatch, run_handler, removed, unsubscribe, remove_from, subscribe_packet,
}
use infrarust.EventBus.Order.{
  dispatch-append, partition_point-earlier, partition_point-later, take-drop,
}
use infrarust.EventBus.Vectors.{Vectors-lookup, total-lookup}
use infrarust.EventBus.Sound.{
  IsSound, IsSoundVector, new_bus-IsSound, unsubscribe-IsSound, subscribe-IsSound,
  subscribe_packet-IsSound,
}

module _ {E : Type 0} where
  empty_no_listeners :
      (entries : List (HandlerEntry E)) → length entries ≡ 0 → is_nonempty entries ≡ false
  empty_no_listeners [] h = refl
  empty_no_listeners (e ∷ entries) h = absurd (omega (arith, h))

  insert_sorted-dispatch :
      (entry : HandlerEntry E) (entries : List (HandlerEntry E)) (event : E)
      → (let pos = partition_point (λ h. leb h.priority entry.priority) entries in
          dispatch (insert_sorted entry entries) event
          ≡ dispatch
              (drop pos entries)
              (run_handler entry.kind (dispatch (take pos entries) event)))
  unfolding insert_sorted dispatch
  insert_sorted-dispatch entry entries event =
      let pos = partition_point (λ h. leb h.priority entry.priority) entries in
      dispatch-append (take pos entries) (entry ∷ drop pos entries) event

  removed-next_handle :
      {T K : Type 0} (o : Option (Map T (List (HandlerEntry E))))
      (q : Option (Map K (List (HandlerEntry E)))) (bus : EventBus E T K)
      → (removed o q bus).next_handle ≡ bus.next_handle
  removed-next_handle (some left) q bus = refl
  removed-next_handle none (some left) bus = refl
  removed-next_handle none none bus = refl

module _ {E T K : Type 0} ⦃t : Eq T⦄ ⦃k : Eq K⦄ where
  apply_call-next_handle :
      (call : Call E T K) (bus : EventBus E T K)
      → (apply_call call bus).next_handle ≤ suc bus.next_handle
  unfolding apply_call subscribe subscribe_packet unsubscribe
  apply_call-next_handle (Call.subscribed event_type priority kind) bus = omega arith
  apply_call-next_handle (Call.subscribed_packet key priority kind) bus = omega arith
  apply_call-next_handle (Call.unsubscribed handle) bus = omega (
    arith,
    removed-next_handle (remove_from handle bus.handlers) (remove_from handle bus.packet_handlers)
        bus,
  )

  apply_call-IsSound :
      (call : Call E T K) (bus : EventBus E T K)
      → suc bus.next_handle < 2 ^ 64
      → IsSound bus
      → IsSound (apply_call call bus)
  unfolding apply_call
  apply_call-IsSound (Call.subscribed event_type priority kind) bus room sound =
      subscribe-IsSound event_type priority kind bus room sound
  apply_call-IsSound (Call.subscribed_packet key priority kind) bus room sound =
      subscribe_packet-IsSound key priority kind bus room sound
  apply_call-IsSound (Call.unsubscribed handle) bus room sound =
      unsubscribe-IsSound handle bus (omega (arith, room)) sound

  apply_calls-IsSound :
      (calls : List (Call E T K)) (bus : EventBus E T K)
      → bus.next_handle + length calls < 2 ^ 64
      → IsSound bus
      → IsSound (apply_calls calls bus)
  unfolding apply_calls
  apply_calls-IsSound [] bus room sound = sound
  apply_calls-IsSound (call ∷ calls) bus room sound =
      let first : suc bus.next_handle < 2 ^ 64 = omega (arith, room) in
      apply_calls-IsSound calls (apply_call call bus)
        (omega (arith, room, apply_call-next_handle call bus))
        (apply_call-IsSound call bus first sound)

  -- After fewer than 2^64 - 1 calls from the new bus on, the handlers of each event type and of
  -- each packet are in the order of their priorities and, for the same priority, of their
  -- subscriptions, every handle given is below the next one, and the counter of packet listeners
  -- is their number.
  pub apply_calls-new_bus :
      (calls : List (Call E T K))
      → suc (length calls) < 2 ^ 64
      → IsSound (apply_calls calls new_bus)
  apply_calls-new_bus calls room =
      apply_calls-IsSound calls new_bus (omega (arith, room)) new_bus-IsSound

  has_packet_listeners-IsSound :
      (key : K) (bus : EventBus E T K)
      → IsSound bus
      → has_packet_listeners key bus ≡ is_nonempty (packet_handlers_of key bus)
  unfolding has_packet_listeners
  has_packet_listeners-IsSound key bus sound = elim (Bool-cases (bus.packet_listener_count == 0)) [
    | inl none_left ↦ rw none_left (
        sym (
          empty_no_listeners (packet_handlers_of key bus)
            (ground (arith, none_left, sound.count, total-lookup key bus.packet_handlers))))
    | inr some_left ↦ rw some_left refl
  ]

  -- After fewer than 2^64 - 1 calls from the new bus on, the test for listeners of a packet, with
  -- its shortcut by the counter, says whether a handler of the packet is subscribed.
  pub has_packet_listeners_lem :
      (key : K) (calls : List (Call E T K))
      → suc (length calls) < 2 ^ 64
      → has_packet_listeners key (apply_calls calls new_bus)
        ≡ is_nonempty (packet_handlers_of key (apply_calls calls new_bus))
  has_packet_listeners_lem key calls room =
      has_packet_listeners-IsSound key (apply_calls calls new_bus) (apply_calls-new_bus calls room)

module _ {E T K : Type 0} ⦃t : Eq T⦄ where
  -- The handlers of an event type that run before and after one of the priority.
  pub record Place (event_type : T) (priority : ℕ) (bus : EventBus E T K)
      (earlier later : List (HandlerEntry E)) : Type 0 where
    pub together : handlers_of event_type bus ≡ earlier ++ later
    pub run_before : All (λ h. h.priority ≤ priority) earlier
    pub run_after : All (λ h. priority < h.priority) later

  -- In a bus that calls have left sound, a new handler runs behind all handlers of its event type
  -- with at most its priority and before those with a higher one, on what the former leave, and
  -- the events of other types are dispatched as before.
  pub fire-subscribe :
      (event_type : T) (priority : ℕ) (kind : HandlerKind E) (bus : EventBus E T K)
      → IsSound bus
      → (other : T) (event : E)
      → (earlier later : List (HandlerEntry E)) × Place event_type priority bus earlier later
        × (fire other event (subscribe event_type priority kind bus) ≡ (
            if t.beq event_type other
            then dispatch later (run_handler kind (dispatch earlier event))
            else fire other event bus))
  unfolding fire subscribe
  fire-subscribe event_type priority kind bus sound other event =
      let entry : HandlerEntry E = record {
        handle = bus.next_handle;
        priority = priority;
        kind = kind;
      } in
      let entries = handlers_of event_type bus in
      let pos = partition_point (λ h. leb h.priority priority) entries in
      let ordered =
        (Vectors-lookup (IsSoundVector bus.next_handle) event_type bus.handlers (tt, tt)
          sound.lifecycle).0 in
      (
        take pos entries,
        drop pos entries,
        record {
          together = sym (take-drop pos entries);
          run_before = partition_point-earlier entry entries;
          run_after = partition_point-later entry entries ordered;
        },
        rw (lookup-insert event_type other (insert_sorted entry entries) bus.handlers)
            (elim (Bool-cases (t.beq event_type other)) [
              | inl same ↦ rw same (insert_sorted-dispatch entry entries event)
              | inr different ↦ rw different refl
            ]),
      )
