-- ===== src/Queue/Ends.antt =====
-- What adding to the back of a queue and popping from its front do
-- (wimp_instr_queue_add, wimp_instr_queue_add_existing, wimp_instr_queue_pop).
use wimp.Prelude.{
  ℕ, ◌≡◌, refl, Option, none, some, List, [], ◌∷◌, ◌++◌, false, sym, ◌∙◌, Option-cases, inl, inr,
}
use wimp.Memory.{Instr, Node, Store, write_node, set_next, load_node, done, IsFresh}
use wimp.Memory.Frame.{
  Item, has, SameOutside, Distinct-snoc, write_node_self, write_node_ne, write_node_blocks,
  write_node_calls, Ends, Ends-bind, not_head, not_tail, ne_of_has, ==_comm,
}
use wimp.Queue.{InstrQueue, InstructionResult, success, fail, link_back, add, add_existing, pop}
use wimp.Queue.Chain.{
  IsQueue, first_at, last_of, node_of, has-last_of, last_at-snoc, Linked-last, Linked-snoc,
  SameMutexes, unused-not-has, IsQueue-write,
}

-- A queue that ends in the new item, reached by writing only to nodes of `touched`.
pub record Added (s : Store) (q : InstrQueue) (touched items : List Item) (t : Store)
    (r : InstrQueue) : Type 0 where
  pub queue : IsQueue t r items
  pub same : SameOutside touched s t
  pub mutexes : SameMutexes q r

first_at-snoc : (i : Item) (items ys : List Item) → first_at ((i ∷ items) ++ ys) ≡ some i.at
first_at-snoc i items ys = refl

pub set_next-write :
    (s : Store) (p : ℕ) (n : Node) (next : Option ℕ)
    → s.node p ≡ some n
    → set_next (some p) next s ≡ done tt (write_node s p (some (record n { nextnode = next })))
unfolding set_next
set_next-write s p n next e = rw (e, set_next)

pub link_back-Added :
    (s : Store) (q : InstrQueue) (items : List Item) (new : Item)
    → IsQueue s q items
    → has new.at items ≡ false
    → s.node new.at ≡ some (node_of new.instr none)
    → Ends (link_back q new.at s) (λ r t. Added s q items (items ++ new ∷ []) t r)
unfolding link_back
link_back-Added s q [] new is out n = rw is.back (record {
  queue = record { front = refl; back = refl; linked = (n, tt); distinct = (refl, tt) };
  same = record { nodes = λ a h. refl; blocks = refl; calls = refl };
  mutexes = (refl, refl, refl);
})
link_back-Added s q (i ∷ items) new is out n =
    let last = last_of i items in
    rw
      (
        is.back,
        set_next-write s last.at (node_of last.instr none) (some new.at)
            (Linked-last s i items is.linked),
      )
      (record {
        queue = record {
          front = is.front;
          back = sym (last_at-snoc (i ∷ items) new);
          linked = Linked-snoc s i items new is.linked is.distinct out n;
          distinct = Distinct-snoc (i ∷ items) new is.distinct out;
        };
        same = record {
          nodes = λ a h.
              write_node_ne s last.at a _ (ne_of_has last.at a (i ∷ items) (has-last_of i items) h);
          blocks = write_node_blocks s last.at _;
          calls = write_node_calls s last.at _;
        };
        mutexes = (refl, refl, refl);
      })

-- A write to the new node before is one more node touched.
Added-after :
    (s t : Store) (q : InstrQueue) (items : List Item) (new : Item) (u : Store) (r : InstrQueue)
    → Added t q items (items ++ new ∷ []) u r
    → SameOutside (new ∷ []) s t
    → Added s q (new ∷ items) (items ++ new ∷ []) u r
Added-after s t q items new u r added same = record {
  queue = added.queue;
  same = record {
    nodes = λ a h.
        added.same.nodes a (not_tail a new items h) ∙ same.nodes a (rw (not_head a new items h));
    blocks = added.same.blocks ∙ same.blocks;
    calls = added.same.calls ∙ same.calls;
  };
  mutexes = added.mutexes;
}

write_node-SameOutside :
    (s : Store) (i : Item) (n : Option Node) → SameOutside (i ∷ []) s (write_node s i.at n)
write_node-SameOutside s i n = record {
  nodes = λ a h. write_node_ne s i.at a n (==_comm i.at a ∙ not_head a i [] h);
  blocks = write_node_blocks s i.at n;
  calls = write_node_calls s i.at n;
}

-- A new node at the back, or the queue as it was if there is no memory.
abbrev pub AddResult :
    Store
    → InstrQueue
    → List Item
    → Instr
    → Option ℕ
    → InstructionResult × InstrQueue
    → Store
    → Type 0
AddResult s q items instr none (result, r) t = (result ≡ fail) × (r ≡ q) × (t ≡ s)
AddResult s q items instr (some p) (result, r) t =
    (result ≡ success)
    × Added s q (record { at = p; instr = instr } ∷ items)
        (items ++ record { at = p; instr = instr } ∷ []) t r

-- wimp_instr_queue_add, with an allocator that gives unused addresses: without memory it fails and
-- nothing changes. Otherwise it succeeds, the queue holds its items and then the new one, it keeps
-- its mutexes, and only its own nodes were written.
pub add-AddResult :
    (malloc : Store → Option ℕ) (s : Store) (q : InstrQueue) (items : List Item) (instr : Option ℕ)
    (bytes : ℕ)
    → IsFresh malloc
    → IsQueue s q items
    → Ends
        (add malloc q instr bytes s)
        (AddResult s q items (record { instruction = instr; instruction_bytes = bytes }) (malloc s))
unfolding add
add-AddResult malloc s q items instr bytes fresh is = elim (Option-cases (malloc s)) [
  | inl e ↦ rw (e, add) (refl, refl, refl)
  | inr (p, e) ↦
      let new : Item = record {
        at = p;
        instr = record { instruction = instr; instruction_bytes = bytes };
      } in
      let out = unused-not-has s items p is.linked (fresh s p e) in
      let t = write_node s p (some (node_of new.instr none)) in
      rw (e, add)
        (Ends-bind (link_back q p t) _ (λ r u. Added t q items (items ++ new ∷ []) u r) _
          (link_back-Added t q items new (IsQueue-write s q items p _ is out) out
            (write_node_self s p _))
          λ r u added.
            (refl, Added-after s t q items new u r added (write_node-SameOutside s new _)))
]

-- wimp_instr_queue_add_existing succeeds with a node that is not in the queue, whatever the node
-- pointed at: the queue holds its items and then the node's, it keeps its mutexes, and only its own
-- nodes were written.
pub add_existing-Added :
    (s : Store) (q : InstrQueue) (items : List Item) (new : Item) (next : Option ℕ)
    → IsQueue s q items
    → has new.at items ≡ false
    → s.node new.at ≡ some (node_of new.instr next)
    → Ends
        (add_existing q (some new.at) s)
        (λ (result, r) t. (result ≡ success) × Added s q (new ∷ items) (items ++ new ∷ []) t r)
unfolding add_existing
add_existing-Added s q items new next is out n =
    let t = write_node s new.at (some (node_of new.instr none)) in
    rw (set_next-write s new.at (node_of new.instr next) none n) (
      Ends-bind (link_back q new.at t) _ (λ r u. Added t q items (items ++ new ∷ []) u r) _
        (link_back-Added t q items new (IsQueue-write s q items new.at _ is out) out
          (write_node_self s new.at _))
        λ r u added. (refl, Added-after s t q items new u r added (write_node-SameOutside s new _)))

pub load_node-eq :
    (s : Store) (p : ℕ) (n : Node) → s.node p ≡ some n → load_node (some p) s ≡ done n s
unfolding load_node
load_node-eq s p n e = rw (e, load_node)

-- What a pop returns: the front node and the queue behind it, or NULL and the empty queue.
abbrev pub PopResult : Store → InstrQueue → List Item → Option ℕ × InstrQueue → Store → Type 0
PopResult s q [] (node, r) t = (node ≡ none) × (r ≡ q) × (t ≡ s)
PopResult s q (i ∷ items) (node, r) t =
    (node ≡ some i.at) × IsQueue s r items × SameMutexes q r × (t ≡ s)

-- wimp_instr_queue_pop returns NULL from an empty queue and otherwise the node at the front, and
-- leaves the queue with the other items in order and with its mutexes. It writes to no memory.
pub pop-PopResult :
    (s : Store) (q : InstrQueue) (items : List Item)
    → IsQueue s q items
    → Ends (pop q s) (PopResult s q items)
unfolding pop
pop-PopResult s q [] is = rw is.front (refl, refl, refl)
pop-PopResult s q (i ∷ []) is =
    rw (is.front, load_node-eq s i.at _ is.linked.0)
      (
        refl,
        record { front = refl; back = refl; linked = tt; distinct = tt },
        (refl, refl, refl),
        refl,
      )
pop-PopResult s q (i ∷ (j ∷ items)) is =
    rw (is.front, load_node-eq s i.at _ is.linked.0)
      (
        refl,
        record { front = refl; back = is.back; linked = is.linked.1; distinct = is.distinct.1 },
        (refl, refl, refl),
        refl,
      )
