-- ===== src/Queue/Free.antt =====
-- Freeing a queue (wimp_instr_queue_free, wimp_instr_node_free).
use wimp.Prelude.{
  ℕ, zero, suc, ◌<◌, ◌≡◌, refl, arith, Option, none, some, List, [], ◌∷◌, Bool, true, false, ◌||◌,
  ◌==◌, if◌then◌else◌, ◌∙◌, Bool-cases, inl, inr, length,
}
use wimp.Prelude.Bytes.{Bytes}
use wimp.Memory.{Node, Store, write_node, write_block, free_node, free_block, release}
use wimp.Memory.Frame.{Item, has, Ends, Ends-bind, Ends-mono, ne_of_has, ==_comm}
use wimp.Queue.{InstrQueue, pop, node_free, free_loop, queue_free}
use wimp.Queue.Chain.{IsQueue, Linked-frame, first_at, node_of, SameMutexes, SameMutexes-trans}
use wimp.Queue.Ends.{PopResult, pop-PopResult, load_node-eq}

abbrev pub holds : ℕ → Option ℕ → Bool
holds b none = false
holds b (some c) = b == c

abbrev pub has_block : ℕ → List Item → Bool
has_block b [] = false
has_block b (i ∷ items) = holds b i.instr.instruction || has_block b items

-- A message that is there, or NULL.
abbrev pub Allocated : Store → Option ℕ → Type 0
Allocated s none = Unit
Allocated s (some b) = (content : Bytes) × (s.block b ≡ some content)

abbrev pub unshared : Option ℕ → List Item → Bool
unshared none items = true
unshared (some b) items = if has_block b items then false else true

-- Each message of the queue is there, and belongs to one node only.
abbrev pub Owned : Store → List Item → Type 0
Owned s [] = Unit
Owned s (i ∷ items) =
    Allocated s i.instr.instruction × (unshared i.instr.instruction items ≡ true) × Owned s items

-- `t` is `s` less the nodes and the messages of the items.
pub record Cleared (items : List Item) (s t : Store) : Type 0 where
  pub nodes : (a : ℕ) → t.node a ≡ (if has a items then none else s.node a)
  pub blocks : (b : ℕ) → t.block b ≡ (if has_block b items then none else s.block b)
  pub calls : t.calls ≡ s.calls

free_block-ends :
    (s : Store) (b : Option ℕ)
    → Allocated s b
    → Ends (free_block b s) (λ _ t.
      ((a : ℕ) → t.node a ≡ s.node a)
      × ((c : ℕ) → t.block c ≡ (if holds c b then none else s.block c))
      × (t.calls ≡ s.calls))
unfolding free_block write_block
free_block-ends s none h = (λ a. refl, λ c. refl, refl)
free_block-ends s (some b) (content, e) = rw (e, free_block) (λ a. refl, λ c. ground arith, refl)

free_node-ends :
    (s : Store) (p : ℕ) (n : Node)
    → s.node p ≡ some n
    → Ends (free_node (some p) s) (λ _ t.
      ((a : ℕ) → t.node a ≡ (if a == p then none else s.node a))
      × ((c : ℕ) → t.block c ≡ s.block c)
      × (t.calls ≡ s.calls))
unfolding free_node write_node
free_node-ends s p n e = rw (e, free_node) (λ a. ground arith, λ c. refl, refl)

-- wimp_instr_node_free gives back the node and its message
pub node_free-Cleared :
    (s : Store) (i : Item) (next : Option ℕ)
    → s.node i.at ≡ some (node_of i.instr next)
    → Allocated s i.instr.instruction
    → Ends (node_free (some i.at) s) (λ _ t. Cleared (i ∷ []) s t)
unfolding node_free
node_free-Cleared s i next e h = rw (load_node-eq s i.at _ e) (
    Ends-bind (free_block i.instr.instruction s) _ _ _ (free_block-ends s i.instr.instruction h)
      λ _ t (nodes, blocks, calls).
        Ends-mono (free_node (some i.at) t) _ _ (free_node-ends t i.at _ (nodes i.at ∙ e))
          λ _ u (nodes', blocks', calls'). record {
            nodes = λ a. ground (arith, nodes a, nodes' a);
            blocks = λ b. ground (arith, blocks b, blocks' b);
            calls = calls' ∙ calls;
          })

pub unshared-head :
    (owner : Option ℕ) (j : Item) (items : List Item) (b : ℕ)
    → j.instr.instruction ≡ some b
    → unshared owner (j ∷ items) ≡ true
    → holds b owner ≡ false
unshared-head none j items b e h = refl
unshared-head (some c) j items b e h = elim (Bool-cases (b == c)) [
  | inl same ↦ cc (rw (e, ==_comm c b, same) at h)
  | inr ne ↦ ne
]

pub unshared-tail :
    (owner : Option ℕ) (j : Item) (items : List Item)
    → unshared owner (j ∷ items) ≡ true
    → unshared owner items ≡ true
unshared-tail none j items h = refl
unshared-tail (some c) j items h = elim (Bool-cases (has_block c items)) [
  | inl e ↦ elim (Bool-cases (holds c j.instr.instruction)) [
    | inl e' ↦ cc (rw e' at h)
    | inr e' ↦ cc (rw (e', e) at h)
  ]
  | inr e ↦ rw e
]

Allocated-frame :
    (s t : Store) (owner block : Option ℕ)
    → ((b : ℕ) → block ≡ some b → holds b owner ≡ false)
    → ((b : ℕ) → t.block b ≡ (if holds b owner || false then none else s.block b))
    → Allocated s block
    → Allocated t block
Allocated-frame s t owner none apart same h = tt
Allocated-frame s t owner (some b) apart same (content, e) = (content, same b ∙ rw (apart b refl) e)

-- What the other nodes own outlives the first one.
pub Owned-frame :
    (s t : Store) (owner : Option ℕ) (items : List Item)
    → unshared owner items ≡ true
    → ((b : ℕ) → t.block b ≡ (if holds b owner || false then none else s.block b))
    → Owned s items
    → Owned t items
Owned-frame s t owner [] out same h = tt
Owned-frame s t owner (j ∷ items) out same (a, u, h) = (
  Allocated-frame s t owner j.instr.instruction (λ b e. unshared-head owner j items b e out) same a,
  u,
  Owned-frame s t owner items (unshared-tail owner j items out) same h,
)

pub Cleared-cons :
    (i : Item) (items : List Item) (s t u : Store)
    → Cleared (i ∷ []) s t
    → Cleared items t u
    → Cleared (i ∷ items) s u
Cleared-cons i items s t u f g = record {
  nodes = λ a. ground (arith, f.nodes a, g.nodes a);
  blocks = λ b. ground (arith, f.blocks b, g.blocks b);
  calls = g.calls ∙ f.calls;
}

pub IsQueue-Cleared :
    (s t : Store) (q : InstrQueue) (i : Item) (items : List Item)
    → has i.at items ≡ false
    → IsQueue s q items
    → Cleared (i ∷ []) s t
    → IsQueue t q items
IsQueue-Cleared s t q i items out is f = record {
  front = is.front;
  back = is.back;
  linked = Linked-frame s t items (λ a h. f.nodes a ∙ rw (ne_of_has a i.at items h out)) is.linked;
  distinct = is.distinct;
}

free_loop-Cleared :
    (rounds : ℕ) (s : Store) (q : InstrQueue) (items : List Item)
    → IsQueue s q items
    → Owned s items
    → length items < rounds
    → Ends (free_loop rounds q s) (λ r t. Cleared items s t × SameMutexes q r)
unfolding free_loop
free_loop-Cleared zero s q items is own h = absurd (omega arith)
free_loop-Cleared (suc rounds) s q [] is own h =
    Ends-bind (pop q s) _ (PopResult s q []) _ (pop-PopResult s q [] is) λ (node, r) t (e, er, et).
      rw (e, er, et)
        (record { nodes = λ a. refl; blocks = λ b. refl; calls = refl }, (refl, refl, refl))
free_loop-Cleared (suc rounds) s q (i ∷ items) is own h =
    Ends-bind (pop q s) _ (PopResult s q (i ∷ items)) _ (pop-PopResult s q (i ∷ items) is)
      λ (node, r) t (e, rest, mutexes, et).
        rw (e, et)
          (Ends-bind (node_free (some i.at) s) _ _ _
            (node_free-Cleared s i (first_at items) is.linked.0 own.0)
            λ _ u cleared.
              let still : IsQueue u r items =
                IsQueue-Cleared s u r i items is.distinct.0 rest cleared in
              Ends-mono (free_loop rounds r u) _ _
                (free_loop-Cleared rounds u r items still
                  (Owned-frame s u i.instr.instruction items own.1 cleared.blocks own.2)
                  (omega arith))
                λ r' v (cleared', mutexes'). (
                  Cleared-cons i items s u v cleared cleared',
                  SameMutexes-trans q r r' mutexes mutexes',
                ))

-- wimp_instr_queue_free gives back every node of the queue and every message, each once, and
-- nothing else; then it releases the three mutexes of the queue. One round more than there are
-- items is enough.
pub queue_free-Cleared :
    (rounds : ℕ) (s : Store) (q : InstrQueue) (items : List Item)
    → IsQueue s q items
    → Owned s items
    → length items < rounds
    → Ends (queue_free rounds q s) (λ _ t.
      ((a : ℕ) → t.node a ≡ (if has a items then none else s.node a))
      × ((b : ℕ) → t.block b ≡ (if has_block b items then none else s.block b))
      × (t.calls ≡ release q.lowpriomutex ∷ release q.nextmutex ∷ release q.datamutex ∷ s.calls))
unfolding queue_free
queue_free-Cleared rounds s q items is own h =
    Ends-bind (free_loop rounds q s) _ _ _ (free_loop-Cleared rounds s q items is own h)
      λ r t (cleared, (d, n, l)). (cleared.nodes, cleared.blocks, rw (d, n, l, cleared.calls))
