-- ===== src/EventBus/Sound.antt =====
-- crates/infrarust-core/src/event_bus/bus.rs: what every sequence of calls keeps of a bus, and what
-- follows for the dispatch of an event and for the test for listeners of a packet.
use infrarust.Common.{
  ℕ, suc, ◌+◌, ◌-◌, ◌<◌, ◌^◌, ◌≡◌, ◌∙◌, refl, ap, Option, none, some, List, arith,
}
use infrarust.Common.Maps.{Eq, Map}
use infrarust.EventBus.{
  HandlerKind, HandlerEntry, EventBus, new_bus, insert_sorted, removed, unsubscribe, handlers_of,
  subscribe, packet_handlers_of, subscribe_packet, remove_from, word,
}
use infrarust.EventBus.Order.{
  IsOrdered, HandlesBelow, HandlesBelow-weaken, All-insert_sorted, insert_sorted-IsOrdered, Removed,
  Removed-IsOrdered, Removed-All, length-insert_sorted,
}
use infrarust.EventBus.Vectors.{
  Vectors, total, RemovedFrom, RemovedIn-Vectors, RemovedIn-total, remove_from-RemovedFrom,
  Vectors-weaken, Vectors-insert, Vectors-lookup, total-insert,
}

module _ {E : Type 0} where
  -- A vector is in order, and its handles are below the next one.
  abbrev pub IsSoundVector : ℕ → List (HandlerEntry E) → Type 0
  IsSoundVector n entries = IsOrdered entries × HandlesBelow n entries

  weaken :
      (n : ℕ) (entries : List (HandlerEntry E))
      → IsSoundVector n entries
      → IsSoundVector (suc n) entries
  weaken n entries (ordered, below) =
      (ordered, HandlesBelow-weaken n (suc n) (omega arith) entries below)

  insert_sorted-IsSoundVector :
      (n priority : ℕ) (kind : HandlerKind E) (entries : List (HandlerEntry E))
      → IsSoundVector n entries
      → IsSoundVector
          (suc n)
          (insert_sorted record { handle = n; priority = priority; kind = kind } entries)
  insert_sorted-IsSoundVector n priority kind entries (ordered, below) =
      let entry : HandlerEntry E = record { handle = n; priority = priority; kind = kind } in
      (
        insert_sorted-IsOrdered entry entries below ordered,
        All-insert_sorted (λ h. h.handle < suc n) entry entries (omega arith)
            (weaken n entries (ordered, below)).1,
      )

  Removed-IsSoundVector :
      (n : ℕ) (entries left : List (HandlerEntry E))
      → Removed entries left
      → IsSoundVector n entries
      → IsSoundVector n left
  Removed-IsSoundVector n entries left r (ordered, below) =
      (Removed-IsOrdered r ordered, Removed-All (λ h. h.handle < n) r below)

word_suc : (n : ℕ) → suc n < 2 ^ 64 → word (n + 1) ≡ suc n
word_suc n room = omega (arith, room)

word_pred : (n : ℕ) → suc n < 2 ^ 64 → word (suc n + (2 ^ 64 - 1)) ≡ n
word_pred n room = omega (arith, room)

module _ {E T K : Type 0} where
  pub record IsSound (bus : EventBus E T K) : Type 0 where
    pub lifecycle : Vectors (IsSoundVector bus.next_handle) bus.handlers
    pub packets : Vectors (IsSoundVector bus.next_handle) bus.packet_handlers
    pub count : bus.packet_listener_count ≡ total bus.packet_handlers
    pub counted : bus.packet_listener_count < bus.next_handle

  pub new_bus-IsSound : IsSound new_bus
  new_bus-IsSound = record { lifecycle = tt; packets = tt; count = refl; counted = omega arith }

  removed-IsSound :
      (o : Option (Map T (List (HandlerEntry E)))) (q : Option (Map K (List (HandlerEntry E))))
      (bus : EventBus E T K)
      → bus.next_handle < 2 ^ 64
      → RemovedFrom bus.handlers o
      → RemovedFrom bus.packet_handlers q
      → IsSound bus
      → IsSound (removed o q bus)
  removed-IsSound (some left) q bus room r s sound = record {
    lifecycle =
        RemovedIn-Vectors (IsSoundVector bus.next_handle) (Removed-IsSoundVector bus.next_handle) r
          sound.lifecycle;
    packets = sound.packets;
    count = sound.count;
    counted = sound.counted;
  }
  removed-IsSound none (some left) bus room r s sound =
      let fewer = RemovedIn-total s in
      let count : word (bus.packet_listener_count + (2 ^ 64 - 1)) ≡ total left =
        (ap (λ n. word (n + (2 ^ 64 - 1))) (omega (arith, sound.count, fewer))
          ∙ word_pred (total left) (omega (arith, sound.count, fewer, sound.counted, room))) in
      record {
        lifecycle = sound.lifecycle;
        packets =
            RemovedIn-Vectors (IsSoundVector bus.next_handle)
              (Removed-IsSoundVector bus.next_handle) s sound.packets;
        count = count;
        counted = omega (arith, count, fewer, sound.count, sound.counted);
      }
  removed-IsSound none none bus room r s sound = sound

  pub unsubscribe-IsSound :
      (handle : ℕ) (bus : EventBus E T K)
      → bus.next_handle < 2 ^ 64
      → IsSound bus
      → IsSound (unsubscribe handle bus)
  unfolding unsubscribe
  unsubscribe-IsSound handle bus room sound =
      removed-IsSound (remove_from handle bus.handlers) (remove_from handle bus.packet_handlers) bus
        room (remove_from-RemovedFrom handle bus.handlers)
        (remove_from-RemovedFrom handle bus.packet_handlers) sound

  module _ ⦃t : Eq T⦄ where
    pub subscribe-IsSound :
        (event_type : T) (priority : ℕ) (kind : HandlerKind E) (bus : EventBus E T K)
        → suc bus.next_handle < 2 ^ 64
        → IsSound bus
        → IsSound (subscribe event_type priority kind bus)
    unfolding subscribe
    subscribe-IsSound event_type priority kind bus room sound = record {
      lifecycle = rw (word_suc bus.next_handle room) (
          Vectors-insert (IsSoundVector (suc bus.next_handle)) event_type
            (insert_sorted record { handle = bus.next_handle; priority = priority; kind = kind }
              (handlers_of event_type bus))
            bus.handlers
            (insert_sorted-IsSoundVector bus.next_handle priority kind (handlers_of event_type bus)
              (Vectors-lookup (IsSoundVector bus.next_handle) event_type bus.handlers (tt, tt)
                sound.lifecycle))
            (Vectors-weaken (weaken bus.next_handle) bus.handlers sound.lifecycle));
      packets =
          rw (word_suc bus.next_handle room)
            (Vectors-weaken (weaken bus.next_handle) bus.packet_handlers sound.packets);
      count = sound.count;
      counted = omega (arith, word_suc bus.next_handle room, sound.counted);
    }

  module _ ⦃k : Eq K⦄ where
    pub subscribe_packet-IsSound :
        (key : K) (priority : ℕ) (kind : HandlerKind E) (bus : EventBus E T K)
        → suc bus.next_handle < 2 ^ 64
        → IsSound bus
        → IsSound (subscribe_packet key priority kind bus)
    unfolding subscribe_packet
    subscribe_packet-IsSound key priority kind bus room sound =
        let entry : HandlerEntry E = record {
          handle = bus.next_handle;
          priority = priority;
          kind = kind;
        } in
        let entries = packet_handlers_of key bus in
        let inserted = total-insert key (insert_sorted entry entries) bus.packet_handlers in
        let longer = length-insert_sorted entry entries in
        record {
          lifecycle =
              rw (word_suc bus.next_handle room)
                (Vectors-weaken (weaken bus.next_handle) bus.handlers sound.lifecycle);
          packets = rw (word_suc bus.next_handle room) (
              Vectors-insert (IsSoundVector (suc bus.next_handle)) key (insert_sorted entry entries)
                bus.packet_handlers
                (insert_sorted-IsSoundVector bus.next_handle priority kind entries (
                  Vectors-lookup (IsSoundVector bus.next_handle) key bus.packet_handlers (tt, tt)
                    sound.packets))
                (Vectors-weaken (weaken bus.next_handle) bus.packet_handlers sound.packets));
          count = omega (
            arith,
            inserted,
            longer,
            sound.count,
            sound.counted,
            room,
            word_suc bus.packet_listener_count (omega (arith, sound.counted, room)),
          );
          counted = omega (
            arith,
            sound.counted,
            room,
            word_suc bus.next_handle room,
            word_suc bus.packet_listener_count (omega (arith, sound.counted, room)),
          );
        }
