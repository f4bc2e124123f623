-- ===== src/Consumer/Pool/Counts.antt =====
-- The label worker's `Run`: how many workers there are, and how many errors wait.
use email_triage_system.Common.{
  ℕ, ◌+◌, ◌≤◌, ◌≡◌, ap, true, List, [], ◌∷◌, ◌++◌, length, length-append, arith,
}
use email_triage_system.World.{Error}
use email_triage_system.Consumer.Pool.{Pool, Step}

-- The counts of the workers and of the errors that wait.
pub record Counts (concurrency : ℕ) (p : Pool) : Type 0 where
  pub total : p.waiting + p.busy + p.reported + p.exited ≡ concurrency
  pub room : length p.errors + p.waiting + p.busy ≤ concurrency
  pub ended : p.done ≡ true → p.exited ≡ concurrency

length_one : (e : Error) (xs : List Error) → length (xs ++ e ∷ []) ≡ length xs + 1
length_one e xs = length-append xs (e ∷ [])

pub Step-Counts : {c : ℕ} {p q : Pool} → Step c p q → Counts c p → Counts c q
Step-Counts Step.stop i = record { total = i.total; room = i.room; ended = i.ended }
Step-Counts Step.close i = record { total = i.total; room = i.room; ended = i.ended }
Step-Counts (Step.take h) i = record {
  total = omega (arith, i.total);
  room = omega (arith, i.room);
  ended = i.ended;
}
Step-Counts (Step.handled h) i = record {
  total = omega (arith, i.total);
  room = omega (arith, i.room);
  ended = i.ended;
}
Step-Counts {c} {p} (Step.report e h free) i = record {
  total = omega (arith, i.total);
  room = omega (arith, i.room, length_one e p.errors);
  ended = i.ended;
}
Step-Counts (Step.report_full e h full) i = record {
  total = omega (arith, i.total);
  room = omega (arith, i.room);
  ended = i.ended;
}
Step-Counts (Step.cancel h) i = record {
  total = omega (arith, i.total);
  room = i.room;
  ended = λ d. omega (arith, i.total, i.ended d);
}
Step-Counts (Step.leave h e) i = record {
  total = omega (arith, i.total);
  room = omega (arith, i.room);
  ended = λ d. omega (arith, i.total, i.ended d);
}
Step-Counts (Step.leave_closed h e) i = record {
  total = omega (arith, i.total);
  room = omega (arith, i.room);
  ended = λ d. omega (arith, i.total, i.ended d);
}
Step-Counts (Step.all_done h) i = record { total = i.total; room = i.room; ended = λ d. h }
Step-Counts (Step.on_stop m h) i = record { total = i.total; room = i.room; ended = i.ended }
Step-Counts (Step.on_error m h) i = record {
  total = i.total;
  room = omega (arith, i.room, ap length h);
  ended = i.ended;
}
Step-Counts (Step.on_done m h) i = record { total = i.total; room = i.room; ended = i.ended }
Step-Counts (Step.drained r m h) i = record { total = i.total; room = i.room; ended = i.ended }
