-- ===== src/Tests/Locking.antt =====
-- Two threads at one queue: thread 1, of low priority, has its first two locks; thread 2, of high
-- priority, has come.
use wimp.Prelude.{ℕ, ◌==◌, ◌+◌, ◌*◌, ◌≤◌, ◌≡◌, ◌≢◌, refl, arith, some, false, ◌&&◌}
use wimp.Queue.Locks.{
  Locks, lowprio, next, low_begin, high_begin, away, advance, next_action, nobody, place, set_owner,
  takes, arrive_low, arrive_high, take_mutex, Reach, here, then_step, is_inside,
}
use wimp.Queue.Locks.Finish.{Calls, stop, call, total, IsFor, Calls-finish}
use wimp.Queue.Locks.Exclusion.{has_mutex, Reach-exclusion}
use wimp.Queue.Locks.Progress.{Moves, Reach-Moves}

abbrev first : Locks
first = record nobody { pc = place nobody.pc 1 low_begin }

abbrev second : Locks
second = record first { pc = place first.pc 2 high_begin }

abbrev third : Locks
third = record {
  pc = place second.pc 1 (advance (second.pc 1));
  owner = set_owner second.owner lowprio (some 1);
}

abbrev fourth : Locks
fourth = record {
  pc = place third.pc 1 (advance (third.pc 1));
  owner = set_owner third.owner next (some 1);
}

fourth-Reach : Reach nobody fourth
unfolding place advance next_action set_owner
fourth-Reach =
    then_step
      (then_step (then_step (then_step here (arrive_low nobody 1 refl)) (arrive_high first 2 refl))
        (take_mutex second 1 lowprio refl refl))
      (take_mutex third 1 next refl refl)

Reach-exclusion_example :
    ((is_inside (fourth.pc 1) && is_inside (fourth.pc 2)) ≡ false)
    × ((has_mutex (fourth.pc 1) lowprio && has_mutex (fourth.pc 2) lowprio) ≡ false)
Reach-exclusion_example = Reach-exclusion 1 2 fourth-Reach (omega arith)

at_queue : fourth.pc 2 ≢ away
unfolding place
at_queue = ground arith

-- The high-priority thread waits, and the other one goes on.
Reach-Moves_example : Moves fourth
Reach-Moves_example = Reach-Moves 2 fourth-Reach at_queue

-- Thread 1 takes its first lock.
abbrev queued : Locks
queued = record {
  pc = place first.pc 1 (advance (first.pc 1));
  owner = set_owner first.owner lowprio (some 1);
}

one_call : Calls 2 1 first queued
unfolding place advance next_action set_owner
one_call =
    call 0 1 (takes lowprio) first queued queued (omega arith) refl
      (take_mutex first 1 lowprio refl refl) refl (stop queued)

first-IsFor : IsFor 2 first
unfolding place
first-IsFor t h = let other : (1 == t) ≡ false = ground arith in rw other refl

Calls-finish_example :
    (1 + total 2 queued.pc ≡ total 2 first.pc)
    × (total 2 first.pc ≤ 6 * 2)
    × (v : Locks) × Calls 2 (total 2 queued.pc) queued v
    × ((t : ℕ) → v.pc t ≡ away)
Calls-finish_example = Calls-finish (then_step here (arrive_low nobody 1 refl)) first-IsFor one_call
