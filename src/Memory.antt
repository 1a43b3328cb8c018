-- ===== src/Memory.antt =====
-- The memory that the instruction queues work on: the nodes (struct _WimpInstrNode of
-- wimp/src/wimp_instruction.c) and the message blocks, each at an address, with NULL as `none`.
-- The mutex calls to plibsys are recorded in the order in which they are made, latest first.
pub mod Frame
use wimp.Prelude.{ℕ, Option, none, some, List, ◌∷◌, ◌==◌, if◌then◌else◌, ◌≡◌}
use wimp.Prelude.Bytes.{Bytes}

-- WimpInstr
pub record Instr : Type 0 where
  pub instruction : Option ℕ
  pub instruction_bytes : ℕ

pub record Node : Type 0 where
  pub instr : Instr
  pub nextnode : Option ℕ

pub data MutexCall : Type 0 where
  lock : ℕ → MutexCall
  unlock : ℕ → MutexCall
  release : ℕ → MutexCall

pub record Store : Type 0 where
  pub node : ℕ → Option Node
  pub block : ℕ → Option Bytes
  pub calls : List MutexCall

-- A run ends with a value, at a bad access, or is still going when the rounds are used up.
pub data Exec (A : Type 0) : Type 0 where
  done : A → Store → Exec A
  fault : Exec A
  unfinished : Exec A

abbrev pub Cmd : Type 0 → Type 0
Cmd A = Store → Exec A

abbrev pub pure : {A : Type 0} → A → Cmd A
pure = done

abbrev pub then_run : {A B : Type 0} → Exec A → (A → Cmd B) → Exec B
then_run (done a s) k = k a s
then_run fault k = fault
then_run unfinished k = unfinished

infixl 5 ◌>>=◌ ◌>>◌
abbrev pub ◌>>=◌ : {A B : Type 0} → Cmd A → (A → Cmd B) → Cmd B
◌>>=◌ m k s = then_run (m s) k

abbrev pub ◌>>◌ : {A B : Type 0} → Cmd A → Cmd B → Cmd B
m >> k = m >>= λ _. k

-- `some n` fills the address, `none` gives it back.
unfoldable pub write_node : Store → ℕ → Option Node → Store
write_node s p n = record s { node = λ a. if p == a then n else s.node a }

unfoldable pub write_block : Store → ℕ → Option Bytes → Store
write_block s p b = record s { block = λ a. if p == a then b else s.block a }

-- `*p`: a fault at NULL and at an address that holds no node.
unfoldable pub load_node : Option ℕ → Cmd Node
load_node none s = fault
load_node (some p) s = elim (s.node p) [ none ↦ fault | some n ↦ done n s ]

-- `p->nextnode = q`
unfoldable pub set_next : Option ℕ → Option ℕ → Cmd (Unit {0})
set_next none q s = fault
set_next (some p) q s = elim (s.node p) [
  | none ↦ fault
  | some n ↦ done tt (write_node s p (some (record n { nextnode = q })))
]

-- `free` of a node, and of a message. Freeing NULL does nothing; freeing twice is a fault.
unfoldable pub free_node : Option ℕ → Cmd (Unit {0})
free_node none s = done tt s
free_node (some p) s = elim (s.node p) [ none ↦ fault | some _ ↦ done tt (write_node s p none) ]

unfoldable pub free_block : Option ℕ → Cmd (Unit {0})
free_block none s = done tt s
free_block (some p) s = elim (s.block p) [ none ↦ fault | some _ ↦ done tt (write_block s p none) ]

abbrev pub call_mutex : MutexCall → Cmd (Unit {0})
call_mutex c s = done tt (record s { calls = c ∷ s.calls })

-- What the calls rely on of `malloc`: an address that it returns is not in use.
abbrev pub IsFresh : (Store → Option ℕ) → Type 0
IsFresh malloc = (s : Store) (p : ℕ) → malloc s ≡ some p → s.node p ≡ none
