-- ===== src/Queue/Locks.antt =====
-- Several threads at the locks of one queue (wimp_instr_queue_low_prio_lock and its kin,
-- wimp/src/wimp_instruction.c): each thread goes through the calls of a low-priority or of a
-- high-priority user, again and again, and the steps of the threads interleave in any order.
pub mod Calls
pub mod Exclusion
pub mod Finish
pub mod Progress
use wimp.Prelude.{
  ℕ, ◌≡◌, refl, Option, none, some, List, [], ◌∷◌, Bool, true, false, ◌==◌, if◌then◌else◌,
}
use wimp.Memory.{MutexCall, lock, unlock}
use wimp.Queue.{InstrQueue}

pub data Mutex : Type 0 where
  lowprio next contents : Mutex

abbrev pub same : Mutex → Mutex → Bool
same lowprio lowprio = true
same next next = true
same contents contents = true
same lowprio _ = false
same next _ = false
same contents _ = false

pub data Action : Type 0 where
  takes : Mutex → Action
  gives : Mutex → Action

-- Where a thread is: before each call of the four functions, or not at the queue.
pub data Pc : Type 0 where
  away : Pc
  low_begin low_queued low_next low_entered low_inside low_leaving : Pc
  high_begin high_next high_entered high_inside : Pc

unfoldable pub next_action : Pc → Option Action
next_action away = none
next_action low_begin = some (takes lowprio)
next_action low_queued = some (takes next)
next_action low_next = some (takes contents)
next_action low_entered = some (gives next)
next_action low_inside = some (gives contents)
next_action low_leaving = some (gives lowprio)
next_action high_begin = some (takes next)
next_action high_next = some (takes contents)
next_action high_entered = some (gives next)
next_action high_inside = some (gives contents)

unfoldable pub advance : Pc → Pc
advance away = away
advance low_begin = low_queued
advance low_queued = low_next
advance low_next = low_entered
advance low_entered = low_inside
advance low_inside = low_leaving
advance low_leaving = away
advance high_begin = high_next
advance high_next = high_entered
advance high_entered = high_inside
advance high_inside = away

pub record Locks : Type 0 where
  pub pc : ℕ → Pc
  pub owner : Mutex → Option ℕ

abbrev pub nobody : Locks
nobody = record { pc = λ t. away; owner = λ m. none }

unfoldable pub place : (ℕ → Pc) → ℕ → Pc → ℕ → Pc
place pc t p u = if t == u then p else pc u

unfoldable pub set_owner : (Mutex → Option ℕ) → Mutex → Option ℕ → Mutex → Option ℕ
set_owner owner m o n = if same m n then o else owner n

-- One step of one thread. A mutex is taken only when it is free.
pub data Step : Locks → Locks → Type 0 where
  arrive_low :
      (s : Locks) (t : ℕ) → s.pc t ≡ away → Step s (record s { pc = place s.pc t low_begin })
  arrive_high :
      (s : Locks) (t : ℕ) → s.pc t ≡ away → Step s (record s { pc = place s.pc t high_begin })
  take_mutex :
      (s : Locks) (t : ℕ) (m : Mutex)
      → next_action (s.pc t) ≡ some (takes m)
      → s.owner m ≡ none
      → Step s
          (record { pc = place s.pc t (advance (s.pc t)); owner = set_owner s.owner m (some t) })
  give_mutex :
      (s : Locks) (t : ℕ) (m : Mutex)
      → next_action (s.pc t) ≡ some (gives m)
      → Step s (record { pc = place s.pc t (advance (s.pc t)); owner = set_owner s.owner m none })

pub data Reach (s : Locks) : Locks → Type 0 where
  here : Reach s s
  then_step : {t u : Locks} → Reach s t → Step t u → Reach s u

-- Between the locking and the unlocking function.
abbrev pub is_inside : Pc → Bool
is_inside low_inside = true
is_inside high_inside = true
is_inside _ = false

-- The calls from a place on, with the queue's own mutexes.
abbrev pub handle : InstrQueue → Mutex → ℕ
handle q lowprio = q.lowpriomutex
handle q next = q.nextmutex
handle q contents = q.datamutex

abbrev pub call_of : InstrQueue → Action → MutexCall
call_of q (takes m) = lock (handle q m)
call_of q (gives m) = unlock (handle q m)
