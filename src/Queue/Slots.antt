-- ===== src/Queue/Slots.antt =====
-- How many jobs a consumer runs.
use supallm.Common.{
  ℕ, suc, ◌+◌, ◌≤◌, String, Bool, true, false, List, [], ◌∷◌, ◌++◌, ◌≡◌, refl, length, arith,
  length-append, ap, ◌∙◌,
}
use supallm.Queue.{
  Consumer, Phase, waiting, reading, new_consumer, has_slot, ask, process_messages, end_job, stop,
  Step, asks, receives, ends, stops, Reaches, here, step,
}

-- The messages that may still come in.
unfoldable pub asked : Phase → ℕ
asked waiting = 0
asked (reading n) = n

-- A slot is taken by each job in flight and by each that was lost, and no more are asked for than there
-- are left.
pub record IsSound (c : Consumer) : Type 0 where
  pub counted : c.active_jobs ≡ length c.in_flight + c.lost
  pub bounded : c.active_jobs + asked c.phase ≤ c.max_parallel_jobs

new_consumer-IsSound : (n : ℕ) → IsSound (new_consumer n)
unfolding new_consumer asked
new_consumer-IsSound n = record { counted = refl; bounded = omega arith }

pub process_messages-IsSound :
    (ids : List String) (c : Consumer)
    → c.active_jobs ≡ length c.in_flight + c.lost
    → c.active_jobs + length ids ≤ c.max_parallel_jobs
    → IsSound (process_messages ids c)
unfolding process_messages asked
process_messages-IsSound [] c h k = record { counted = h; bounded = k }
process_messages-IsSound (id ∷ ids) c h k =
    process_messages-IsSound ids
      (record c {
        active_jobs = suc c.active_jobs;
        in_flight = c.in_flight ++ id ∷ [];
        taken = c.taken ++ id ∷ [];
      })
      (omega (arith, length-append c.in_flight (id ∷ []))) (omega arith)

end_job-IsSound :
    (before after : List String) (id : String) (fulfilled : Bool) (c : Consumer)
    → c.in_flight ≡ before ++ id ∷ after
    → IsSound c
    → IsSound (end_job (before ++ after) fulfilled c)
unfolding end_job
end_job-IsSound before after id true c e s = record {
  counted = omega (
    arith,
    s.counted,
    ap (length {0}) e,
    length-append before (id ∷ after),
    length-append before after,
  );
  bounded = omega (arith, s.bounded);
}
end_job-IsSound before after id false c e s = record {
  counted = omega (
    arith,
    s.counted,
    ap (length {0}) e,
    length-append before (id ∷ after),
    length-append before after,
  );
  bounded = s.bounded;
}

pub Step-IsSound : (c d : Consumer) → Step c d → IsSound c → IsSound d
unfolding ask has_slot stop asked
Step-IsSound c d (asks _ alive running w h) s = record {
  counted = s.counted;
  bounded = ground (arith, s.bounded);
}
Step-IsSound c d (receives _ n ids alive p h) s =
    process_messages-IsSound ids c s.counted (omega (arith, s.bounded, ap asked p))
Step-IsSound c d (ends _ before after id fulfilled alive e) s =
    end_job-IsSound before after id fulfilled c e s
Step-IsSound c d (stops _ alive) s = record { counted = s.counted; bounded = s.bounded }

pub Reaches-IsSound : (c d : Consumer) → Reaches c d → IsSound c → IsSound d
Reaches-IsSound c d (here _) s = s
Reaches-IsSound c d (step _ e _ one more) s = Reaches-IsSound e d more (Step-IsSound c e one s)

process_messages-max :
    (ids : List String) (c : Consumer)
    → (process_messages ids c).max_parallel_jobs ≡ c.max_parallel_jobs
unfolding process_messages
process_messages-max [] c = refl
process_messages-max (id ∷ ids) c = process_messages-max ids (record c {
  active_jobs = suc c.active_jobs;
  in_flight = c.in_flight ++ id ∷ [];
  taken = c.taken ++ id ∷ [];
})

Step-max : (c d : Consumer) → Step c d → d.max_parallel_jobs ≡ c.max_parallel_jobs
unfolding ask stop end_job
Step-max c d (asks _ alive running w h) = refl
Step-max c d (receives _ n ids alive p h) = process_messages-max ids c
Step-max c d (ends _ before after id true alive e) = refl
Step-max c d (ends _ before after id false alive e) = refl
Step-max c d (stops _ alive) = refl

Reaches-max : (c d : Consumer) → Reaches c d → d.max_parallel_jobs ≡ c.max_parallel_jobs
Reaches-max c d (here _) = refl
Reaches-max c d (step _ e _ one more) = Reaches-max e d more ∙ Step-max c e one

-- Whatever messages come in and however jobs end, in every order: a new consumer never has more jobs
-- in flight than its limit, and its counter is the number of jobs in flight and of those whose
-- acknowledgement failed.
pub new_consumer-slots :
    (n : ℕ) (d : Consumer)
    → Reaches (new_consumer n) d
    → (length d.in_flight ≤ n) × (d.active_jobs ≡ length d.in_flight + d.lost)
unfolding new_consumer
new_consumer-slots n d r =
    let s = Reaches-IsSound (new_consumer n) d r (new_consumer-IsSound n) in
    (omega (arith, s.counted, s.bounded, Reaches-max (new_consumer n) d r), s.counted)
