-- ===== src/Server/Counts.antt =====
-- Counting the instructions of a queue (wimp_instr_get_instruction_count of
-- wimp/src/wimp_instruction.c).
use wimp.Prelude.{
  ℕ, zero, suc, ◌+◌, ◌<◌, ◌^◌, ◌%◌, ◌≡◌, refl, ap, ◌∙◌, arith, Option, none, some, List, [], ◌∷◌,
  false, ◌==◌, if◌then◌else◌, length,
}
use wimp.Prelude.Bytes.{Bytes, text_eq}
use wimp.Memory.{Store, done, unfinished, Cmd, pure, ◌>>=◌, load_node}
use wimp.Memory.Frame.{Item}
use wimp.Queue.{InstrQueue}
use wimp.Queue.Chain.{IsQueue, Linked, first_at, node_of}
use wimp.Queue.Ends.{load_node-eq}
use wimp.Wire.{get_from_buffer}
use wimp.Wire.Bundle.{message}
use wimp.Wire.Fields.{IsName, meta_of}
use wimp.Wire.RoundTrip.{get_from_buffer-message, meta_of-fields}
use wimp.Server.{get_from_node, read_text}

unfoldable pub count_loop : ℕ → Option ℕ → Bytes → Cmd ℕ
count_loop zero current instruction = λ s. unfinished
count_loop (suc rounds) none instruction = pure 0
count_loop (suc rounds) (some p) instruction = do
  meta ← get_from_node (some p)
  text ← read_text meta.0 meta.1.instr
  node ← load_node (some p)
  behind ← count_loop rounds node.nextnode instruction
  pure (if text_eq text instruction then behind + 1 else behind)

unfoldable pub get_instruction_count : ℕ → InstrQueue → Bytes → Cmd ℕ
get_instruction_count rounds queue instruction = count_loop rounds queue.nextnode instruction

-- A node with a message in its block, and the fields of the message.
pub record Carries (s : Store) (i : Item) (name : Bytes) : Type 0 where
  pub block_at : ℕ
  pub process : Bytes
  pub dest : Bytes
  pub args : Bytes
  pub names : IsName process × IsName dest × IsName name
  pub small : length (message process dest name args) < 2 ^ 31
  pub odd : (length (message process dest name args) % 256 == 0) ≡ false
  pub there : s.block block_at ≡ some (message process dest name args)
  pub instr : i.instr ≡ record {
    instruction = some block_at;
    instruction_bytes = length (message process dest name args);
  }

-- The instructions of the nodes, in order.
abbrev pub CarryAll : Store → List Item → List Bytes → Type 0
CarryAll s [] [] = Unit
CarryAll s [] (n ∷ names) = ⊥
CarryAll s (i ∷ items) [] = ⊥
CarryAll s (i ∷ items) (n ∷ names) = Carries s i n × CarryAll s items names

abbrev pub count : Bytes → List Bytes → ℕ
count name [] = 0
count name (n ∷ names) = if text_eq n name then count name names + 1 else count name names

pub get_from_node-Carries :
    (s : Store) (i : Item) (name : Bytes) (next : Option ℕ) (c : Carries s i name)
    → s.node i.at ≡ some (node_of i.instr next)
    → get_from_node (some i.at) s
      ≡ done (message c.process c.dest name c.args, meta_of c.process c.dest name c.args) s
unfolding get_from_node
get_from_node-Carries s i name next c at =
    let reads : get_from_buffer (some (message c.process c.dest name c.args))
          (length (message c.process c.dest name c.args))
        ≡ some (meta_of c.process c.dest name c.args) =
      get_from_buffer-message c.process c.dest name c.args c.names.0 c.names.1 c.names.2 c.small
      ∙ rw c.odd refl in
    rw (load_node-eq s i.at (node_of i.instr next) at, c.instr, c.there, reads, get_from_node) refl

pub read_text-Carries :
    (s : Store) (i : Item) (name : Bytes) (c : Carries s i name)
    → read_text
        (message c.process c.dest name c.args)
        (meta_of c.process c.dest name c.args).instr
        s
      ≡ done name s
unfolding read_text
read_text-Carries s i name c =
    let fields =
      meta_of-fields c.process c.dest name c.args c.names.0 c.names.1 c.names.2 c.small in
    rw (fields.2, read_text) refl

count_loop-count :
    (rounds : ℕ) (s : Store) (items : List Item) (names : List Bytes) (name : Bytes)
    → Linked s items
    → CarryAll s items names
    → length items < rounds
    → count_loop rounds (first_at items) name s ≡ done (count name names) s
unfolding count_loop
count_loop-count zero s items names name linked carry room = absurd (omega arith)
count_loop-count (suc rounds) s [] [] name linked carry room = refl
count_loop-count (suc rounds) s [] (n ∷ names) name linked carry room = absurd carry
count_loop-count (suc rounds) s (i ∷ items) [] name linked carry room = absurd carry
count_loop-count (suc rounds) s (i ∷ items) (n ∷ names) name (at, linked) (c, carry) room =
    rw
      (
        get_from_node-Carries s i n (first_at items) c at,
        read_text-Carries s i n c,
        load_node-eq s i.at (node_of i.instr (first_at items)) at,
        count_loop-count rounds s items names name linked carry (omega arith),
      )
      refl

-- wimp_instr_get_instruction_count on a queue of which each node carries a message (with a size below
-- 2^31 that is not a multiple of 256): it ends, changes nothing, and returns how many of the
-- messages have the instruction. One round more than there are nodes is enough.
pub get_instruction_count-count :
    (rounds : ℕ) (s : Store) (q : InstrQueue) (items : List Item) (names : List Bytes)
    (name : Bytes)
    → IsQueue s q items
    → CarryAll s items names
    → length items < rounds
    → get_instruction_count rounds q name s ≡ done (count name names) s
unfolding get_instruction_count
get_instruction_count-count rounds s q items names name is carry room =
    ap (λ p. count_loop rounds p name s) is.front
    ∙ count_loop-count rounds s items names name is.linked carry room
