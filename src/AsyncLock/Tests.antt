-- ===== src/AsyncLock/Tests.antt =====
-- `AsyncLock` of include/mola/spinlock.hpp in a short run.
use elastic_actor.Prelude.{ℕ, refl, true, []}
use elastic_actor.AsyncLock.{acquire, release}
use elastic_actor.AsyncLock.Exclusion.{
  World, Reach, here, step, asks, releases, retries, Inv, Reach-Inv,
}

-- Caller 1 gets the lock, caller 2 waits, 1 releases, and 2 asks again and gets it.
abbrev handed_over : World ℕ
handed_over = record {
  lock = record { acquired = true; wait_que = [] };
  holders = 1;
  taken = [];
  asked = 2;
  granted = 2;
}

handed_over-Reach : Reach handed_over
unfolding acquire release
handed_over-Reach =
    step (step (step (step here (asks 1)) (asks 2)) (releases 0 refl)) (retries 2 [] [] refl)

Reach-Inv_example : Inv handed_over
Reach-Inv_example = Reach-Inv handed_over-Reach
