-- ===== src/Queue/Chain.antt =====
-- The list that a queue stands for, and how memory holds it.
use wimp.Prelude.{
  ℕ, ◌≡◌, refl, arith, Option, none, some, List, [], ◌∷◌, ◌++◌, true, false, ◌==◌, ◌∙◌, Bool-cases,
  ==_iff, inl, inr,
}
use wimp.Memory.{Instr, Node, Store, write_node}
use wimp.Memory.Frame.{
  Item, has, Distinct, SameOutside, write_node_self, write_node_ne, not_head, not_tail, ne_of_has,
  ==_comm,
}
use wimp.Queue.{InstrQueue}

abbrev pub first_at : List Item → Option ℕ
first_at [] = none
first_at (i ∷ items) = some i.at

abbrev pub last_of : Item → List Item → Item
last_of i [] = i
last_of i (j ∷ items) = last_of j items

abbrev pub last_at : List Item → Option ℕ
last_at [] = none
last_at (i ∷ items) = some (last_of i items).at

abbrev pub node_of : Instr → Option ℕ → Node
node_of instr next = record { instr = instr; nextnode = next }

-- Each node points at the one behind it, and the last one at NULL.
abbrev pub Linked : Store → List Item → Type 0
Linked s [] = Unit
Linked s (i ∷ items) = (s.node i.at ≡ some (node_of i.instr (first_at items))) × Linked s items

-- The queue holds the items, in order.
pub record IsQueue (s : Store) (q : InstrQueue) (items : List Item) : Type 0 where
  pub front : q.nextnode ≡ first_at items
  pub back : q.backnode ≡ last_at items
  pub linked : Linked s items
  pub distinct : Distinct items

pub has-last_of : (i : Item) (items : List Item) → has (last_of i items).at (i ∷ items) ≡ true
has-last_of i [] = ground arith
has-last_of i (j ∷ items) = ground (arith, has-last_of j items)

pub last_at-snoc : (items : List Item) (new : Item) → last_at (items ++ new ∷ []) ≡ some new.at
last_at-snoc [] new = refl
last_at-snoc (i ∷ []) new = refl
last_at-snoc (i ∷ (j ∷ items)) new = last_at-snoc (j ∷ items) new

-- A change elsewhere leaves the list as it is.
pub Linked-frame :
    (s t : Store) (items : List Item)
    → ((a : ℕ) → has a items ≡ true → t.node a ≡ s.node a)
    → Linked s items
    → Linked t items
Linked-frame s t [] same l = tt
Linked-frame s t (i ∷ items) same (e, l) =
    (same i.at (ground arith) ∙ e, Linked-frame s t items (λ a h. same a (ground arith)) l)

pub Linked-last :
    (s : Store) (i : Item) (items : List Item)
    → Linked s (i ∷ items)
    → s.node (last_of i items).at ≡ some (node_of (last_of i items).instr none)
Linked-last s i [] l = l.0
Linked-last s i (j ∷ items) l = Linked-last s j items l.1

-- The last node is pointed at a node that ends the list.
pub Linked-snoc :
    (s : Store) (i : Item) (items : List Item) (new : Item)
    → Linked s (i ∷ items)
    → Distinct (i ∷ items)
    → has new.at (i ∷ items) ≡ false
    → s.node new.at ≡ some (node_of new.instr none)
    → Linked
        (write_node s (last_of i items).at (some (node_of (last_of i items).instr (some new.at))))
        ((i ∷ items) ++ new ∷ [])
Linked-snoc s i [] new l d out n = (
  write_node_self s i.at _,
  (write_node_ne s i.at new.at _ (==_comm i.at new.at ∙ not_head new.at i [] out) ∙ n, tt),
)
Linked-snoc s i (j ∷ items) new l d out n = (
  write_node_ne s (last_of j items).at i.at _
        (ne_of_has _ i.at (j ∷ items) (has-last_of j items) d.0)
      ∙ l.0,
  Linked-snoc s j items new l.1 d.1 (not_tail new.at i (j ∷ items) out) n,
)

-- The same mutexes guard the queue.
abbrev pub SameMutexes : InstrQueue → InstrQueue → Type 0
SameMutexes q r =
    (r.datamutex ≡ q.datamutex) × (r.nextmutex ≡ q.nextmutex) × (r.lowpriomutex ≡ q.lowpriomutex)

-- An unused address is not in the list.
pub unused-not-has :
    (s : Store) (items : List Item) (p : ℕ) → Linked s items → s.node p ≡ none → has p items ≡ false
unused-not-has s [] p l e = refl
unused-not-has s (i ∷ items) p (n, l) e = elim (Bool-cases (p == i.at)) [
  | inl same ↦ cc ((==_iff p i.at).0 same)
  | inr other ↦ rw other (unused-not-has s items p l e)
]

-- Filling an address that the queue does not use.
pub IsQueue-write :
    (s : Store) (q : InstrQueue) (items : List Item) (p : ℕ) (n : Option Node)
    → IsQueue s q items
    → has p items ≡ false
    → IsQueue (write_node s p n) q items
IsQueue-write s q items p n is out = record {
  front = is.front;
  back = is.back;
  linked =
      Linked-frame s (write_node s p n) items
        (λ a h. write_node_ne s p a n (==_comm p a ∙ ne_of_has a p items h out)) is.linked;
  distinct = is.distinct;
}

-- The queue is not touched by writes outside its nodes.
pub IsQueue-frame :
    (s t : Store) (q : InstrQueue) (items touched : List Item)
    → IsQueue s q items
    → SameOutside touched s t
    → ((a : ℕ) → has a items ≡ true → has a touched ≡ false)
    → IsQueue t q items
IsQueue-frame s t q items touched is same apart = record {
  front = is.front;
  back = is.back;
  linked = Linked-frame s t items (λ a h. same.nodes a (apart a h)) is.linked;
  distinct = is.distinct;
}

pub SameMutexes-trans : (a b c : InstrQueue) → SameMutexes a b → SameMutexes b c → SameMutexes a c
SameMutexes-trans a b c (d, n, l) (d', n', l') = (d' ∙ d, n' ∙ n, l' ∙ l)
