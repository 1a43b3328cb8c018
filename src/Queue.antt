-- ===== src/Queue.antt =====
-- The instruction queues of wimp/src/wimp_instruction.c: a linked list of nodes with a pointer to
-- either end. The struct itself lives outside the heap, so an operation returns its new value.
-- Loops that pop until NULL run on a bound for the rounds.
pub mod Chain
pub mod Ends
pub mod Free
pub mod Locks
pub mod Splice
use wimp.Prelude.{ℕ, zero, suc, Option, none, some, List, [], ◌∷◌, Bool, true, false}
use wimp.Memory.{
  Instr, Node, Store, Exec, done, fault, unfinished, Cmd, pure, ◌>>=◌, ◌>>◌, then_run, write_node,
  load_node, set_next, free_node, free_block, call_mutex, MutexCall, lock, unlock, release,
}

-- WimpInstructionResult
pub data InstructionResult : Type 0 where
  success fail : InstructionResult

-- WimpInstrQueue, the mutexes as the handles that plibsys gave.
pub record InstrQueue : Type 0 where
  pub nextnode : Option ℕ
  pub backnode : Option ℕ
  pub datamutex : ℕ
  pub nextmutex : ℕ
  pub lowpriomutex : ℕ

-- The three results of `p_mutex_new` are given.
unfoldable pub create_instr_queue : ℕ → ℕ → ℕ → InstrQueue
create_instr_queue data_handle next_handle lowprio_handle = record {
  nextnode = none;
  backnode = none;
  datamutex = data_handle;
  nextmutex = next_handle;
  lowpriomutex = lowprio_handle;
}

unfoldable pub low_prio_lock : InstrQueue → Cmd (Unit {0})
low_prio_lock q = do
  call_mutex (lock q.lowpriomutex)
  call_mutex (lock q.nextmutex)
  call_mutex (lock q.datamutex)
  call_mutex (unlock q.nextmutex)

unfoldable pub low_prio_unlock : InstrQueue → Cmd (Unit {0})
low_prio_unlock q = do call_mutex (unlock q.datamutex); call_mutex (unlock q.lowpriomutex)

unfoldable pub high_prio_lock : InstrQueue → Cmd (Unit {0})
high_prio_lock q = do
  call_mutex (lock q.nextmutex)
  call_mutex (lock q.datamutex)
  call_mutex (unlock q.nextmutex)

unfoldable pub high_prio_unlock : InstrQueue → Cmd (Unit {0})
high_prio_unlock q = call_mutex (unlock q.datamutex)

-- The part that `add` and `add_existing` share: the node at `p` becomes the last one.
unfoldable pub link_back : InstrQueue → ℕ → Cmd InstrQueue
link_back q p = elim q.backnode [
  | none ↦ pure (record q { nextnode = some p; backnode = some p })
  | some b ↦ set_next (some b) (some p) >> pure (record q { backnode = some p })
]

-- `malloc` is asked for one node.
unfoldable pub add :
    (Store → Option ℕ) → InstrQueue → Option ℕ → ℕ → Cmd (InstructionResult × InstrQueue)
add malloc q instr bytes s = elim (malloc s) [
  | none ↦ done (fail, q) s
  | some p ↦
      let new : Node = record {
        instr = record { instruction = instr; instruction_bytes = bytes };
        nextnode = none;
      } in
      then_run (link_back q p (write_node s p (some new))) λ q'. pure (success, q')
]

unfoldable pub add_existing : InstrQueue → Option ℕ → Cmd (InstructionResult × InstrQueue)
add_existing q none = λ s. fault
add_existing q (some p) = do set_next (some p) none; q' ← link_back q p; pure (success, q')

-- After the last node the back pointer is cleared as well.
unfoldable pub pop : InstrQueue → Cmd (Option ℕ × InstrQueue)
pop q = elim q.nextnode [
  | none ↦ pure (none, q)
  | some p ↦ do
    current ← load_node (some p)
    pure (
      some p,
      record q {
        nextnode = current.nextnode;
        backnode = elim current.nextnode [ none ↦ none | some _ ↦ q.backnode ];
      },
    )
]

unfoldable pub append_loop : ℕ → InstrQueue → InstrQueue → Cmd (InstrQueue × InstrQueue)
append_loop zero q from s = unfinished
append_loop (suc rounds) q from s = then_run (pop from s) λ popped. elim popped.0 [
  | none ↦ pure (q, popped.1)
  | some p ↦ do added ← add_existing q (some p); append_loop rounds added.1 popped.1
]

-- NULL for either queue is refused. The two are different structs: a queue appended to itself would
-- go round for ever.
unfoldable pub append_queue :
    ℕ
    → Option InstrQueue
    → Option InstrQueue
    → Cmd (InstructionResult × Option InstrQueue × Option InstrQueue)
append_queue rounds none from = pure (fail, none, from)
append_queue rounds (some q) none = pure (fail, some q, none)
append_queue rounds (some q) (some from) = do
  moved ← append_loop rounds q from
  pure (success, some moved.0, some moved.1)

-- The queue is appended to `add`, and then the two structs are swapped, mutex handles included.
unfoldable pub prepend_queue :
    ℕ
    → Option InstrQueue
    → Option InstrQueue
    → Cmd (InstructionResult × Option InstrQueue × Option InstrQueue)
prepend_queue rounds q from = do
  appended ← append_queue rounds from q
  pure (elim appended.0 [
    | success ↦ (success, appended.1, appended.2)
    | fail ↦ (fail, appended.2, appended.1)
  ])

unfoldable pub node_free : Option ℕ → Cmd (Unit {0})
node_free p = do node ← load_node p; free_block node.instr.instruction; free_node p

unfoldable pub free_loop : ℕ → InstrQueue → Cmd InstrQueue
free_loop zero q s = unfinished
free_loop (suc rounds) q s = then_run (pop q s) λ popped. elim popped.0 [
  | none ↦ pure popped.1
  | some p ↦ node_free (some p) >> free_loop rounds popped.1
]

unfoldable pub queue_free : ℕ → InstrQueue → Cmd (Unit {0})
queue_free rounds q = do
  emptied ← free_loop rounds q
  call_mutex (release emptied.datamutex)
  call_mutex (release emptied.nextmutex)
  call_mutex (release emptied.lowpriomutex)
