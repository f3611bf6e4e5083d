-- ===== src/Memory/Laws.antt =====
-- What the local memory remembers.
use supallm.Common.{
  ℕ, String, false, some, List, [], ◌∷◌, ◌++◌, get, ok, ◌≡◌, ◌≢◌, refl, arith, get-set, eq_iff,
  eq_refl, Option-cases, inl, inr, ap,
}
use supallm.Memory.{
  Message, human, ai, ConversationTurn, turns, unreadable, Db, get_key, messages_of, get_messages,
  last_two, completed_turn, push_turn, add_messages,
}

messages_of-append :
    (ts : List ConversationTurn) (t : ConversationTurn)
    → messages_of (ts ++ t ∷ []) ≡ messages_of ts ++ human t.input ∷ ai t.output false ∷ []
unfolding messages_of
messages_of-append [] t = refl
messages_of-append (s ∷ ts) t =
    ap (λ l. human s.input ∷ ai s.output false ∷ l) (messages_of-append ts t)

last_two-append : (ms : List Message) (m n : Message) → last_two (ms ++ m ∷ n ∷ []) ≡ some (m, n)
unfolding last_two
last_two-append [] m n = refl
last_two-append (a ∷ []) m n = refl
last_two-append (a ∷ b ∷ []) m n = refl
last_two-append (a ∷ b ∷ c ∷ ms) m n = last_two-append (b ∷ c ∷ ms) m n

-- Messages that end with a completed turn add that turn's two messages to the end of what the node
-- remembers of the session, and leave every other entry as it was.
pub get_messages-add_messages :
    (now : ℕ) (db : Db) (session_id node_id : String) (before ms : List Message)
    (input output : String)
    → get_messages db session_id node_id ≡ ok ms
    → let after =
        (add_messages now db session_id node_id (before ++ human input ∷ ai output false ∷ [])).1 in
      (get_messages after session_id node_id ≡ ok (ms ++ human input ∷ ai output false ∷ []))
      × ((key : String) → key ≢ get_key session_id node_id → get key after ≡ get key db)
unfolding get_messages add_messages completed_turn push_turn
get_messages-add_messages now db session_id node_id before ms input output h =
    let k = get_key session_id node_id in
    let t : ConversationTurn = record { input = input; output = output; timestamp = now } in
    elim (Option-cases (get k db)) [
      | inl e ↦
          rw
            (
              add_messages,
              last_two-append before (human input) (ai output false),
              completed_turn,
              e,
            )
            (
              ground (arith, e, h, get-set k k (turns (t ∷ [])) db, eq_refl k, messages_of),
              λ key other. ground (arith, get-set k key (turns (t ∷ [])) db, eq_iff k key),
            )
      | inr (turns ts, e) ↦
          rw
            (
              add_messages,
              last_two-append before (human input) (ai output false),
              completed_turn,
              e,
            )
            (
              ground (
                arith,
                e,
                h,
                get-set k k (turns (ts ++ t ∷ [])) db,
                eq_refl k,
                messages_of-append ts t,
              ),
              λ key other. ground (arith, get-set k key (turns (ts ++ t ∷ [])) db, eq_iff k key),
            )
      | inr (unreadable, e) ↦ absurd (ground (arith, e))
    ]
