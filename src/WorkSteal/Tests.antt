-- ===== src/WorkSteal/Tests.antt =====
-- The rings of include/mola/work_steal.hpp at small states, and the theorems there.
use elastic_actor.Prelude.{
  ℕ, ◌-◌, ◌≡◌, ◌^◌, refl, List, [], ◌∷◌, Option, some, arith, length, replicate, set,
}
use elastic_actor.WorkSteal.{LockFreeQue, dequeue_try, enqueue_try, steal_try, stole}
use elastic_actor.WorkSteal.Ring.{IsValid, items, Placed, enqueue_try-items}
use elastic_actor.WorkSteal.Steal.{Moved, steal_try-Moved}
use elastic_actor.WorkSteal.Strategy.{Pool}
use elastic_actor.WorkSteal.Strategy.Counts.{Counted}

abbrev slots : List ℕ
slots = set (set (replicate 4096 0) 4095 7) 0 8

-- Two tasks, 7 and 8, across the wrap-around of both counters.
abbrev wrapped : LockFreeQue ℕ
wrapped = record { head = 2 ^ 32 - 1; tail = 1; content = slots }

abbrev drained : LockFreeQue ℕ
drained = record { head = 5; tail = 5; content = replicate 4096 0 }

slots-length : length slots ≡ 4096
slots-length = refl

wrapped-IsValid : IsValid wrapped
wrapped-IsValid = record {
  slots = slots-length;
  head_word = omega arith;
  tail_word = omega arith;
  fits = omega arith;
}

drained-IsValid : IsValid drained
drained-IsValid = record {
  slots = refl;
  head_word = omega arith;
  tail_word = omega arith;
  fits = omega arith;
}

wrapped-items : items 0 wrapped ≡ 7 ∷ 8 ∷ []
wrapped-items = refl

dequeue_wrapped : dequeue_try 0 (2 ^ 32 - 1) wrapped ≡ some (some 7, record wrapped { head = 0 })
unfolding dequeue_try
dequeue_wrapped = refl

abbrev task7 : Option ℕ
task7 = some 7

enqueue_try-items_example :
    (q' : LockFreeQue ℕ) × (spilled : List ℕ) × (enqueue_try 0 (2 ^ 32 - 1) wrapped 9
      ≡ some (q', spilled))
    × IsValid q'
    × Placed 0 wrapped 9 q' spilled
enqueue_try-items_example = enqueue_try-items 0 wrapped 9 wrapped-IsValid

steal_try-Moved_example :
    Moved 0 (2 ^ 32 - 1) drained wrapped (stole (some 7) drained (record wrapped { head = 0 }))
unfolding steal_try
steal_try-Moved_example =
    steal_try-Moved 0 (2 ^ 32 - 1) drained wrapped
      (stole (some 7) drained (record wrapped { head = 0 })) drained-IsValid refl wrapped-IsValid
      refl

abbrev pool2 : Pool ℕ
pool2 = record {
  queues = wrapped ∷ drained ∷ [];
  global = 5 ∷ [];
  global_num = 1;
  workers_num = 1;
  total_thr_num = 2;
  total_jobs = 3;
  sleep_num = 0;
}

pool2-Counted : Counted pool2
pool2-Counted = record {
  valid = (wrapped-IsValid, (drained-IsValid, tt));
  jobs = refl;
  globals = refl;
  threads = refl;
}
