-- ===== src/Queue/Tests.antt =====
-- A consumer with one slot, an entry of the stream, and a group with inactive consumers.
use supallm.Common.{
  ℕ, ◌≤◌, ◌+◌, String, true, false, some, List, [], ◌∷◌, Dict, get, ◌≡◌, ◌≢◌, refl, arith, length,
  ◌↔◌, All, ◌==◌, map, filter,
}
use supallm.Queue.{
  Consumer, new_consumer, has_slot, ask, process_messages, asks, receives, Reaches, here, step,
  process_message, ConsumerInfo, cleanup_inactive_consumers,
}
use supallm.Queue.Slots.{new_consumer-slots}
use supallm.Queue.Messages.{
  fields_of, process_message-fields_of, cleanup_inactive_consumers_lem, is_inactive,
  all_left_behind, removed, dropped,
}

program : Unit {0}
unfolding new_consumer ask process_messages process_message cleanup_inactive_consumers has_slot get
program = tt

abbrev busy : Consumer
busy = process_messages ("1-0" ∷ []) (ask (new_consumer 1))

busy-Reaches : Reaches (new_consumer 1) busy
unfolding program
busy-Reaches =
    step (new_consumer 1) (ask (new_consumer 1)) busy (asks (new_consumer 1) refl refl refl refl) (
      step (ask (new_consumer 1)) busy busy
        (receives (ask (new_consumer 1)) 1 ("1-0" ∷ []) refl refl (omega arith)) (here busy))

new_consumer-slots_example :
    (length busy.in_flight ≤ 1) × (busy.active_jobs ≡ length busy.in_flight + busy.lost)
new_consumer-slots_example = new_consumer-slots 1 busy busy-Reaches

abbrev entry : Dict String
entry = ("source", "api") ∷ ("payload", "{}") ∷ []

process_message-fields_of_example :
    ((p : String)
      → ((process_message (λ p. some true) (λ n. true) "1-0" (fields_of entry)).handled ≡ some p)
        ↔ ((get "payload" entry ≡ some p) × ((p == "") ≡ false) × (some true ≡ some true)))
    × ((process_message (λ p. some true) (λ n. true) "1-0" (fields_of entry)).acknowledged ≢ [])
    × All
        (λ x. x ≡ "1-0")
        (process_message (λ p. some true) (λ n. true) "1-0" (fields_of entry)).acknowledged
process_message-fields_of_example =
    process_message-fields_of (λ p. some true) (λ n. true) "1-0" entry (refl, (refl, tt))

-- A value that is the word "payload" hides the payload.
misled :
    (process_message
      (λ p. some true)
      (λ n. true)
      "1-0"
      ("kind" ∷ "payload" ∷ "payload" ∷ "{}" ∷ [])).handled
    ≡ some "payload"
unfolding program
misled = refl

-- A payload that is null is not handled, and is acknowledged twice.
null_payload :
    (process_message (λ p. some false) (λ n. true) "1-0" ("payload" ∷ "null" ∷ [])).acknowledged
    ≡ "1-0" ∷ "1-0" ∷ []
unfolding program
null_payload = refl

abbrev group : List ConsumerInfo
group =
    record { name = "runner-a"; pending = 2; idle = 4000 }
    ∷ record { name = "runner-b"; pending = 1; idle = 100 }
    ∷ record { name = "runner-c"; pending = 0; idle = 9000 }
    ∷ []

abbrev pending_ids : ℕ → String → List String
pending_ids count name = "1-0" ∷ "2-0" ∷ []

cleanup_inactive_consumers_lem_example :
    (removed (cleanup_inactive_consumers pending_ids "runner-c" 3000 group)
      ≡ map (λ info. info.name) (filter (is_inactive pending_ids "runner-c" 3000) group))
    × (dropped (cleanup_inactive_consumers pending_ids "runner-c" 3000 group)
        ≡ all_left_behind pending_ids "runner-c" 3000 group)
cleanup_inactive_consumers_lem_example =
    cleanup_inactive_consumers_lem pending_ids "runner-c" 3000 group

group_cleaned :
    removed (cleanup_inactive_consumers pending_ids "runner-c" 3000 group) ≡ "runner-a" ∷ []
unfolding program
group_cleaned = refl
