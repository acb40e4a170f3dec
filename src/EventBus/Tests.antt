-- ===== src/EventBus/Tests.antt =====
-- The event bus on numbers, with handlers that append a digit.
use infrarust.Common.{ℕ, ◌+◌, ◌*◌, ◌≡◌, refl, false, List, [], ◌∷◌, arith}
use infrarust.EventBus.{
  HandlerKind, EventBus, Call, new_bus, is_nonempty, packet_handlers_of, fire, subscribe,
  has_packet_listeners, apply_calls, dispatch, run_handler, insert_sorted, partition_point,
  apply_call, unsubscribe, remove_from, remove_handle, subscribe_packet,
}
use infrarust.Common.Maps.{nat_key, lookup, insert}
use infrarust.EventBus.Sound.{IsSound}
use infrarust.EventBus.Calls.{Place, apply_calls-new_bus, has_packet_listeners_lem, fire-subscribe}

abbrev digit : ℕ → HandlerKind ℕ
digit d = HandlerKind.sync (λ n. n * 10 + d)

-- Two handlers of the normal priority, a late one, two of a packet, and removals of both sorts.
abbrev calls : List (Call ℕ ℕ ℕ)
calls =
    Call.subscribed 7 128 (digit 1)
    ∷ Call.subscribed 7 255 (digit 9)
    ∷ Call.subscribed_packet 5 128 (digit 4)
    ∷ Call.subscribed 7 128 (digit 2)
    ∷ Call.subscribed_packet 6 128 (digit 5)
    ∷ Call.unsubscribed 3
    ∷ Call.unsubscribed 99
    ∷ []

abbrev bus_of_calls : EventBus ℕ ℕ ℕ
bus_of_calls = apply_calls calls new_bus

in_order : fire 7 0 bus_of_calls ≡ 129
unfolding fire apply_calls apply_call subscribe subscribe_packet unsubscribe lookup insert
    insert_sorted partition_point remove_from remove_handle dispatch
in_order = refl

no_longer : has_packet_listeners 5 bus_of_calls ≡ false
unfolding has_packet_listeners apply_calls apply_call subscribe subscribe_packet unsubscribe lookup
    insert insert_sorted partition_point remove_from remove_handle
no_longer = refl

apply_calls-new_bus_example : IsSound bus_of_calls
apply_calls-new_bus_example = apply_calls-new_bus calls (omega arith)

has_packet_listeners_example :
    has_packet_listeners 6 bus_of_calls ≡ is_nonempty (packet_handlers_of 6 bus_of_calls)
has_packet_listeners_example = has_packet_listeners_lem 6 calls (omega arith)

fire-subscribe_example :
    (earlier later : List _) × Place 7 200 bus_of_calls earlier later
    × (fire 7 0 (subscribe 7 200 (digit 3) bus_of_calls)
        ≡ dispatch later (run_handler (digit 3) (dispatch earlier 0)))
fire-subscribe_example =
    fire-subscribe 7 200 (digit 3) bus_of_calls (apply_calls-new_bus calls (omega arith)) 7 0
