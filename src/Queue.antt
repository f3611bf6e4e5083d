-- ===== src/Queue.antt =====
-- `RedisQueueConsumer` of runner/src/services/queue/redis-queue-consumer.ts. The texts of the stream,
-- `JSON.parse` and the handler are parameters, and so is which calls of `xack` succeed. The loop of
-- `consumeWorkflowQueue` and the jobs that it starts are a step relation.
pub mod Slots
pub mod Messages
mod Tests
use supallm.Common.{
  ℕ, zero, suc, ◌+◌, ◌-◌, ◌≤◌, ◌<◌, String, Bool, true, false, Option, none, some, List, [], ◌∷◌,
  ◌++◌, ◌≡◌, ◌==◌, not, length, if◌then◌else◌, ltb, Result, ok, error, map, filter, ◌&&◌,
}

-- `fields.find((_, index) => fields[index - 1] === "payload")`
unfoldable pub find_payload : List String → Option String
find_payload [] = none
find_payload (x ∷ []) = none
find_payload (x ∷ y ∷ fields) =
    let rest = find_payload (y ∷ fields) in if x == "payload" then some y else rest

-- An empty payload is falsy.
unfoldable pub extract_message : List String → Option String
unfolding find_payload
extract_message fields = elim (find_payload fields) [
  | none ↦ none
  | some payload ↦ if payload == "" then none else some payload
]

-- What one call of `processMessage` does: the payload that the handler gets, the calls of `xack`, and
-- whether the promise is fulfilled.
pub record Processed : Type 0 where
  pub handled : Option String
  pub acknowledged : List String
  pub fulfilled : Bool

-- `parse`: what `JSON.parse` gives, by whether it counts as true; none where it throws. `xack`: whether the
-- first and the second call of `xack` succeed. What is thrown before the `finally` block is caught. Without a
-- message, that block acknowledges once more.
unfoldable pub process_message :
    (String → Option Bool) → (ℕ → Bool) → String → List String → Processed
unfolding extract_message
process_message parse xack id fields = elim (extract_message fields) [
  | none ↦ record { handled = none; acknowledged = id ∷ id ∷ []; fulfilled = xack 1 }
  | some payload ↦ elim (parse payload) [
    | none ↦ record { handled = none; acknowledged = id ∷ []; fulfilled = xack 0 }
    | some is_truthy ↦
        if is_truthy
        then record { handled = some payload; acknowledged = id ∷ []; fulfilled = xack 0 }
        else record { handled = none; acknowledged = id ∷ id ∷ []; fulfilled = xack 1 }
  ]
]

-- Where the loop of `consumeWorkflowQueue` stands: before `waitForAvailableSlot`, or in `readMessages`
-- with the COUNT that it asked for.
pub data Phase : Type 0 where
  waiting : Phase
  reading : ℕ → Phase

-- `in_flight`: the jobs whose promise is pending. `lost`: the number of those that were
-- rejected, which nobody handles: this ends the process, and with it the consumer.
-- `taken`: all ids that `processMessages` has seen.
pub record Consumer : Type 0 where
  pub max_parallel_jobs : ℕ
  pub active_jobs : ℕ
  pub is_running : Bool
  pub phase : Phase
  pub in_flight : List String
  pub lost : ℕ
  pub taken : List String

unfoldable pub new_consumer : ℕ → Consumer
new_consumer max_parallel_jobs = record {
  max_parallel_jobs = max_parallel_jobs;
  active_jobs = 0;
  is_running = true;
  phase = waiting;
  in_flight = [];
  lost = 0;
  taken = [];
}

unfoldable pub has_slot : Consumer → Bool
has_slot c = ltb c.active_jobs c.max_parallel_jobs

-- `readMessages` is called, and asks for as many messages as there are slots.
unfoldable pub ask : Consumer → Consumer
ask c = record c { phase = reading (c.max_parallel_jobs - c.active_jobs) }

-- `processMessages`, for the ids of the messages
unfoldable pub process_messages : List String → Consumer → Consumer
process_messages [] c = record c { phase = waiting }
process_messages (id ∷ ids) c = process_messages ids (record c {
  active_jobs = suc c.active_jobs;
  in_flight = c.in_flight ++ id ∷ [];
  taken = c.taken ++ id ∷ [];
})

-- `.then(() => { this.activeJobs--; ... })`: a rejected promise skips it.
unfoldable pub end_job : List String → Bool → Consumer → Consumer
end_job others true c = record c { active_jobs = c.active_jobs - 1; in_flight = others }
end_job others false c = record c { in_flight = others; lost = suc c.lost }

unfoldable pub stop : Consumer → Consumer
stop c = record c { is_running = false }

-- What may happen next. Redis returns at most COUNT messages; `processMessage` ends as `fulfilled` says.
pub data Step : Consumer → Consumer → Type 0 where
  asks :
      (c : Consumer)
      → c.lost ≡ 0
      → c.is_running ≡ true
      → c.phase ≡ waiting
      → has_slot c ≡ true
      → Step c (ask c)
  receives :
      (c : Consumer) (n : ℕ) (ids : List String)
      → c.lost ≡ 0
      → c.phase ≡ reading n
      → length ids ≤ n
      → Step c (process_messages ids c)
  ends :
      (c : Consumer) (before after : List String) (id : String) (fulfilled : Bool)
      → c.lost ≡ 0
      → c.in_flight ≡ before ++ id ∷ after
      → Step c (end_job (before ++ after) fulfilled c)
  stops : (c : Consumer) → c.lost ≡ 0 → Step c (stop c)

pub data Reaches : Consumer → Consumer → Type 0 where
  here : (c : Consumer) → Reaches c c
  step : (c d e : Consumer) → Step c d → Reaches d e → Reaches c e

-- One entry of `XINFO CONSUMERS`
pub record ConsumerInfo : Type 0 where
  pub name : String
  pub pending : ℕ
  pub idle : ℕ

-- The calls that change the consumer group.
pub data Call : Type 0 where
  xclaim : List String → Call
  xack : String → Call
  delete_consumer : String → Call

-- The pending messages of one inactive consumer: they are claimed, then acknowledged.
unfoldable pub drop_pending : List String → List Call
drop_pending [] = []
drop_pending (id ∷ ids) = xclaim (id ∷ ids) ∷ map xack (id ∷ ids)

-- `pending_ids`: what `XPENDING` answers for a count and a consumer.
module _ (pending_ids : ℕ → String → List String) (own_name : String) where
  unfoldable pub cleanup_consumer : ℕ → ConsumerInfo → List Call
  unfolding drop_pending
  cleanup_consumer threshold info =
      if info.name == own_name
      then []
      else if ltb threshold info.idle
      then ((if ltb 0 info.pending then drop_pending (pending_ids info.pending info.name) else [])
          ++ delete_consumer info.name ∷ [])
      else []

  unfoldable pub cleanup_inactive_consumers : ℕ → List ConsumerInfo → List Call
  unfolding cleanup_consumer
  cleanup_inactive_consumers threshold [] = []
  cleanup_inactive_consumers threshold (info ∷ infos) =
      cleanup_consumer threshold info ++ cleanup_inactive_consumers threshold infos
