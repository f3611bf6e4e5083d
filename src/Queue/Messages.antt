-- ===== src/Queue/Messages.antt =====
-- What becomes of a message, and of the messages that other consumers left behind.
use supallm.Common.{
  ℕ, String, Bool, true, false, Option, some, List, [], ◌∷◌, ◌++◌, ◌≡◌, ◌≢◌, refl, Dict, get, arith,
  ap, ◌==◌, not, ◌&&◌, ltb, filter, map, Bool-cases, inl, inr, ◌↔◌, All, if◌then◌else◌, ◌∙◌,
  Option-cases,
}
use mathlib.Core.List.{append-nil}
use supallm.Queue.{
  find_payload, extract_message, process_message, ConsumerInfo, Call, xclaim, xack, delete_consumer,
  drop_pending, cleanup_consumer, cleanup_inactive_consumers,
}

-- The flat array that Redis answers for the fields of an entry.
abbrev pub fields_of : Dict String → List String
fields_of [] = []
fields_of ((k, v) ∷ d) = k ∷ v ∷ fields_of d

-- No field has the value "payload".
abbrev pub NoneMisleads : Dict String → Type 0
NoneMisleads d = All (λ kv. (kv.1 == "payload") ≡ false) d

find_payload-skip :
    (v : String) (d : Dict String)
    → (v == "payload") ≡ false
    → find_payload (v ∷ fields_of d) ≡ find_payload (fields_of d)
unfolding find_payload
find_payload-skip v [] h = refl
find_payload-skip v ((k, w) ∷ d) h = ground (arith, h)

find_payload-fields_of :
    (d : Dict String) → NoneMisleads d → find_payload (fields_of d) ≡ get "payload" d
unfolding find_payload get
find_payload-fields_of [] h = refl
find_payload-fields_of ((k, v) ∷ d) (fresh, h) =
    ground (arith, find_payload-skip v d fresh, find_payload-fields_of d h)

-- Where no field's value is the word "payload", the handler gets exactly the entry's field "payload",
-- if that is neither missing nor empty, and parses as a value that counts as true; and in every case the
-- message is acknowledged, it alone.
pub process_message-fields_of :
    (parse : String → Option Bool) (acks : ℕ → Bool) (id : String) (d : Dict String)
    → NoneMisleads d
    → ((p : String)
        → ((process_message parse acks id (fields_of d)).handled ≡ some p)
          ↔ ((get "payload" d ≡ some p) × ((p == "") ≡ false) × (parse p ≡ some true)))
      × ((process_message parse acks id (fields_of d)).acknowledged ≢ [])
      × All (λ x. x ≡ id) (process_message parse acks id (fields_of d)).acknowledged
unfolding process_message extract_message
process_message-fields_of parse acks id d h = elim (Option-cases (get "payload" d)) [
  | inl e ↦
      rw (process_message, extract_message, find_payload-fields_of d h, e)
        ((λ p. ground arith), (λ k. ground arith), (refl, (refl, tt)))
  | inr (q, e) ↦ elim (Bool-cases (q == "")) [
    | inl empty ↦
        rw (process_message, extract_message, find_payload-fields_of d h, e, empty)
          ((λ p. ground (arith, empty)), (λ k. ground arith), (refl, (refl, tt)))
    | inr full ↦ elim (Option-cases (parse q)) [
      | inl y ↦
          rw (process_message, extract_message, find_payload-fields_of d h, e, full, y)
            ((λ p. ground (arith, full, y)), (λ k. ground arith), (refl, tt))
      | inr (true, y) ↦
          rw (process_message, extract_message, find_payload-fields_of d h, e, full, y)
            ((λ p. ground (arith, full, y)), (λ k. ground arith), (refl, tt))
      | inr (false, y) ↦
          rw (process_message, extract_message, find_payload-fields_of d h, e, full, y)
            ((λ p. ground (arith, full, y)), (λ k. ground arith), (refl, (refl, tt)))
    ]
  ]
]

-- The consumers that are removed, and the messages that are acknowledged, in order.
abbrev pub removed : List Call → List String
removed [] = []
removed (delete_consumer n ∷ calls) = n ∷ removed calls
removed (xclaim ids ∷ calls) = removed calls
removed (xack id ∷ calls) = removed calls

abbrev pub dropped : List Call → List String
dropped [] = []
dropped (xack id ∷ calls) = id ∷ dropped calls
dropped (xclaim ids ∷ calls) = dropped calls
dropped (delete_consumer n ∷ calls) = dropped calls

removed-append : (xs ys : List Call) → removed (xs ++ ys) ≡ removed xs ++ removed ys
removed-append [] ys = refl
removed-append (xclaim ids ∷ xs) ys = removed-append xs ys
removed-append (xack id ∷ xs) ys = removed-append xs ys
removed-append (delete_consumer n ∷ xs) ys = ap (λ l. n ∷ l) (removed-append xs ys)

dropped-append : (xs ys : List Call) → dropped (xs ++ ys) ≡ dropped xs ++ dropped ys
dropped-append [] ys = refl
dropped-append (xclaim ids ∷ xs) ys = dropped-append xs ys
dropped-append (xack id ∷ xs) ys = ap (λ l. id ∷ l) (dropped-append xs ys)
dropped-append (delete_consumer n ∷ xs) ys = dropped-append xs ys

removed-map : (ids : List String) → removed (map xack ids) ≡ []
removed-map [] = refl
removed-map (id ∷ ids) = removed-map ids

dropped-map : (ids : List String) → dropped (map xack ids) ≡ ids
dropped-map [] = refl
dropped-map (id ∷ ids) = ap (λ l. id ∷ l) (dropped-map ids)

removed-drop_pending : (ids : List String) → removed (drop_pending ids) ≡ []
unfolding drop_pending
removed-drop_pending [] = refl
removed-drop_pending (id ∷ ids) = removed-map ids

dropped-drop_pending : (ids : List String) → dropped (drop_pending ids) ≡ ids
unfolding drop_pending
dropped-drop_pending [] = refl
dropped-drop_pending (id ∷ ids) = ap (λ l. id ∷ l) (dropped-map ids)

module _ (pending_ids : ℕ → String → List String) (own_name : String) (threshold : ℕ) where
  -- Another consumer that has been idle for longer than the threshold.
  abbrev pub is_inactive : ConsumerInfo → Bool
  is_inactive info = not (info.name == own_name) && ltb threshold info.idle

  -- What `XPENDING` answers for it, if it has any pending messages.
  abbrev pub left_behind : ConsumerInfo → List String
  left_behind info = if ltb 0 info.pending then pending_ids info.pending info.name else []

  abbrev pub all_left_behind : List ConsumerInfo → List String
  all_left_behind [] = []
  all_left_behind (info ∷ infos) =
      let rest = all_left_behind infos in
      if is_inactive info then left_behind info ++ rest else rest

  cleanup_consumer-removed :
      (info : ConsumerInfo)
      → removed (cleanup_consumer pending_ids own_name threshold info)
        ≡ (if is_inactive info then info.name ∷ [] else [])
  unfolding cleanup_consumer
  cleanup_consumer-removed info =
      let ids = pending_ids info.pending info.name in
      elim (Bool-cases (info.name == own_name)) [
        | inl e ↦ rw e
        | inr e ↦ elim (Bool-cases (ltb threshold info.idle)) [
          | inr k ↦ rw (e, k)
          | inl k ↦ elim (Bool-cases (ltb 0 info.pending)) [
            | inr n ↦ rw (e, k, n)
            | inl n ↦
                rw (e, k, n)
                  (removed-append (drop_pending ids) (delete_consumer info.name ∷ [])
                    ∙ ap (λ l. l ++ info.name ∷ []) (removed-drop_pending ids))
          ]
        ]
      ]

  cleanup_consumer-dropped :
      (info : ConsumerInfo)
      → dropped (cleanup_consumer pending_ids own_name threshold info)
        ≡ (if is_inactive info then left_behind info else [])
  unfolding cleanup_consumer
  cleanup_consumer-dropped info =
      let ids = pending_ids info.pending info.name in
      elim (Bool-cases (info.name == own_name)) [
        | inl e ↦ rw e
        | inr e ↦ elim (Bool-cases (ltb threshold info.idle)) [
          | inr k ↦ rw (e, k)
          | inl k ↦ elim (Bool-cases (ltb 0 info.pending)) [
            | inr n ↦ rw (e, k, n)
            | inl n ↦
                rw (e, k, n)
                  (dropped-append (drop_pending ids) (delete_consumer info.name ∷ [])
                    ∙ ap (λ l. l ++ []) (dropped-drop_pending ids)
                    ∙ append-nil ids)
          ]
        ]
      ]

  -- The consumers that are removed are exactly the others that have been idle for longer than the
  -- threshold, and every message that such a consumer left behind is acknowledged without being handled.
  pub cleanup_inactive_consumers_lem :
      (infos : List ConsumerInfo)
      → (removed (cleanup_inactive_consumers pending_ids own_name threshold infos)
          ≡ map (λ info. info.name) (filter is_inactive infos))
        × (dropped (cleanup_inactive_consumers pending_ids own_name threshold infos)
            ≡ all_left_behind infos)
  unfolding cleanup_inactive_consumers
  cleanup_inactive_consumers_lem [] = (refl, refl)
  cleanup_inactive_consumers_lem (info ∷ infos) =
      let (a, b) = cleanup_inactive_consumers_lem infos in
      let now = cleanup_consumer pending_ids own_name threshold info in
      let rest = cleanup_inactive_consumers pending_ids own_name threshold infos in
      let r =
        removed-append now rest ∙ ap (λ l. l ++ removed rest) (cleanup_consumer-removed info) in
      let d =
        dropped-append now rest ∙ ap (λ l. l ++ dropped rest) (cleanup_consumer-dropped info) in
      elim (Bool-cases (is_inactive info)) [
        | inl e ↦ (rw e (rw (e, a) at r), rw e (rw (e, b) at d))
        | inr e ↦ (rw e (rw (e, a) at r), rw e (rw (e, b) at d))
      ]
