-- ===== src/Queue/Locks/Calls.antt =====
-- The threads of Queue.Locks make the calls of the four functions.
use wimp.Prelude.{ℕ, zero, suc, ◌≡◌, refl, none, some, List, ◌∷◌}
use wimp.Memory.{Store, MutexCall, done}
use wimp.Queue.{InstrQueue, low_prio_lock, low_prio_unlock, high_prio_lock, high_prio_unlock}
use wimp.Queue.Locks.{
  Pc, away, low_begin, low_inside, high_begin, high_inside, next_action, advance, call_of,
}

-- The calls of a thread from a place on, latest first, and where it is then.
unfoldable pub calls_from : InstrQueue → ℕ → Pc → List MutexCall → List MutexCall
calls_from q zero p calls = calls
calls_from q (suc n) p calls =
    calls_from q n (advance p)
      (elim (next_action p) [ none ↦ calls | some a ↦ call_of q a ∷ calls ])

unfoldable pub advances : ℕ → Pc → Pc
advances zero p = p
advances (suc n) p = advances n (advance p)

-- The calls that wimp_instr_queue_low_prio_lock, wimp_instr_queue_low_prio_unlock,
-- wimp_instr_queue_high_prio_lock and wimp_instr_queue_high_prio_unlock make on the mutexes of their
-- queue are, in order, those of a thread of the step relation that comes to the queue, goes inside,
-- and leaves.
pub lock-calls :
    (q : InstrQueue) (s : Store)
    → (low_prio_lock q s ≡ done tt (record s { calls = calls_from q 4 low_begin s.calls }))
      × (advances 4 low_begin ≡ low_inside)
      × (low_prio_unlock q s ≡ done tt (record s { calls = calls_from q 2 low_inside s.calls }))
      × (advances 2 low_inside ≡ away)
      × (high_prio_lock q s ≡ done tt (record s { calls = calls_from q 3 high_begin s.calls }))
      × (advances 3 high_begin ≡ high_inside)
      × (high_prio_unlock q s ≡ done tt (record s { calls = calls_from q 1 high_inside s.calls }))
      × (advances 1 high_inside ≡ away)
unfolding low_prio_lock low_prio_unlock high_prio_lock high_prio_unlock calls_from next_action
    advance advances
lock-calls q s = (refl, refl, refl, refl, refl, refl, refl, refl)
