-- ===== src/Memory/Frame.antt =====
-- Runs that end well, and what a write to memory leaves alone.
use wimp.Prelude.{
  ℕ, ◌≡◌, refl, ap, arith, Option, List, [], ◌∷◌, ◌++◌, Bool, true, false, ◌||◌, ◌==◌, ◌∙◌, ==_refl,
  ==_iff, Bool-cases, inl, inr,
}
use wimp.Memory.{Instr, Node, Store, Exec, done, fault, unfinished, Cmd, then_run, write_node}

-- The run ends, without a bad access and within its rounds, in a value and a memory with `P`.
abbrev pub Ends : {A : Type 0} → Exec A → (A → Store → Type 0) → Type 0
Ends (done a s) P = P a s
Ends fault P = ⊥
Ends unfinished P = ⊥

module _ {A : Type 0} where
  pub Ends-bind :
      {B : Type 0} (r : Exec A) (k : A → Cmd B) (P : A → Store → Type 0) (Q : B → Store → Type 0)
      → Ends r P
      → ((a : A) (s : Store) → P a s → Ends (k a s) Q)
      → Ends (then_run r k) Q
  Ends-bind (done a s) k P Q h next = next a s h
  Ends-bind fault k P Q h next = h
  Ends-bind unfinished k P Q h next = h

  pub Ends-mono :
      (r : Exec A) (P Q : A → Store → Type 0)
      → Ends r P
      → ((a : A) (s : Store) → P a s → Q a s)
      → Ends r Q
  Ends-mono (done a s) P Q h weaken = weaken a s h
  Ends-mono fault P Q h weaken = h
  Ends-mono unfinished P Q h weaken = h

-- One node of a list: its address and the instruction that it holds.
pub record Item : Type 0 where
  pub at : ℕ
  pub instr : Instr

abbrev pub has : ℕ → List Item → Bool
has a [] = false
has a (i ∷ items) = (a == i.at) || has a items

-- No node stands twice in the list.
abbrev pub Distinct : List Item → Type 0
Distinct [] = Unit
Distinct (i ∷ items) = (has i.at items ≡ false) × Distinct items

-- `t` agrees with `s` on the nodes that are not in the list, and on all messages.
pub record SameOutside (items : List Item) (s t : Store) : Type 0 where
  pub nodes : (a : ℕ) → has a items ≡ false → t.node a ≡ s.node a
  pub blocks : t.block ≡ s.block
  pub calls : t.calls ≡ s.calls

pub has-append : (a : ℕ) (xs ys : List Item) → has a (xs ++ ys) ≡ (has a xs || has a ys)
has-append a [] ys = refl
has-append a (x ∷ xs) ys = ground (arith, has-append a xs ys)

pub Distinct-split :
    (xs ys : List Item)
    → Distinct (xs ++ ys)
    → Distinct xs × Distinct ys × ((a : ℕ) → has a xs ≡ true → has a ys ≡ false)
Distinct-split [] ys d = (tt, d, λ a h. cc)
Distinct-split (x ∷ xs) ys (out, d) =
    let (dx, dy, apart) = Distinct-split xs ys d in
    (
      (ground (arith, has-append x.at xs ys), dx),
      dy,
      λ a h. ground (arith, apart a, has-append x.at xs ys),
    )

pub Distinct-snoc :
    (xs : List Item) (new : Item) → Distinct xs → has new.at xs ≡ false → Distinct (xs ++ new ∷ [])
Distinct-snoc [] new d out = (refl, tt)
Distinct-snoc (x ∷ xs) new (o, d) out =
    (ground (arith, has-append x.at xs (new ∷ [])), Distinct-snoc xs new d (ground arith))

pub write_node_self : (s : Store) (p : ℕ) (n : Option Node) → (write_node s p n).node p ≡ n
unfolding write_node
write_node_self s p n = ground arith

pub write_node_ne :
    (s : Store) (p a : ℕ) (n : Option Node)
    → (p == a) ≡ false
    → (write_node s p n).node a ≡ s.node a
unfolding write_node
write_node_ne s p a n h = rw h

pub write_node_blocks : (s : Store) (p : ℕ) (n : Option Node) → (write_node s p n).block ≡ s.block
unfolding write_node
write_node_blocks s p n = refl

pub write_node_calls : (s : Store) (p : ℕ) (n : Option Node) → (write_node s p n).calls ≡ s.calls
unfolding write_node
write_node_calls s p n = refl

-- Facts about membership, for the proofs that follow pointers.
pub not_head :
    (a : ℕ) (i : Item) (items : List Item) → has a (i ∷ items) ≡ false → (a == i.at) ≡ false
not_head a i items h = elim (Bool-cases (a == i.at)) [ inl e ↦ cc (rw e at h) | inr e ↦ e ]

pub not_tail :
    (a : ℕ) (i : Item) (items : List Item) → has a (i ∷ items) ≡ false → has a items ≡ false
not_tail a i items h = rw (not_head a i items h) at h

pub ne_of_has :
    (a b : ℕ) (items : List Item) → has a items ≡ true → has b items ≡ false → (a == b) ≡ false
ne_of_has a b items h k = elim (Bool-cases (a == b)) [ inl e ↦ cc ((==_iff a b).0 e) | inr e ↦ e ]

pub ==_comm : (a b : ℕ) → (a == b) ≡ (b == a)
==_comm a b = ground arith

-- Two lists share no node.
abbrev pub Apart : List Item → List Item → Type 0
Apart xs ys = (a : ℕ) → has a xs ≡ true → has a ys ≡ false

pub not_append :
    (a : ℕ) (xs ys : List Item) → has a (xs ++ ys) ≡ false → (has a xs ≡ false) × (has a ys ≡ false)
not_append a xs ys h = ground (arith, has-append a xs ys)

pub SameOutside-trans :
    (items : List Item) (s t u : Store)
    → SameOutside items s t
    → SameOutside items t u
    → SameOutside items s u
SameOutside-trans items s t u f g = record {
  nodes = λ a h. g.nodes a h ∙ f.nodes a h;
  blocks = g.blocks ∙ f.blocks;
  calls = g.calls ∙ f.calls;
}

pub SameOutside-mono :
    (xs ys : List Item) (s t : Store)
    → ((a : ℕ) → has a ys ≡ false → has a xs ≡ false)
    → SameOutside xs s t
    → SameOutside ys s t
SameOutside-mono xs ys s t less f = record {
  nodes = λ a h. f.nodes a (less a h);
  blocks = f.blocks;
  calls = f.calls;
}

pub Apart-symm : (xs ys : List Item) → Apart xs ys → Apart ys xs
Apart-symm xs ys apart a h = elim (Bool-cases (has a xs)) [ inl e ↦ cc (apart a e) | inr e ↦ e ]

-- The front of the second list goes to the end of the first.
pub Apart-shift :
    (xs ys : List Item) (y : Item)
    → Apart xs (y ∷ ys)
    → has y.at ys ≡ false
    → Apart (xs ++ y ∷ []) ys
Apart-shift xs ys y apart out a h = elim (Bool-cases (has a xs)) [
  | inl e ↦ not_tail a y ys (apart a e)
  | inr e ↦ elim (Bool-cases (a == y.at)) [
    | inl e' ↦ ap (λ b. has b ys) ((==_iff a y.at).0 e') ∙ out
    | inr e' ↦ cc (rw (has-append a xs (y ∷ []), e, e') at h)
  ]
]

pub Apart-head : (xs ys : List Item) (y : Item) → Apart xs (y ∷ ys) → has y.at xs ≡ false
Apart-head xs ys y apart = Apart-symm xs (y ∷ ys) apart y.at (rw (==_refl y.at))

pub Apart-rest :
    (xs ys : List Item) (y : Item) → Apart xs (y ∷ ys) → has y.at ys ≡ false → Apart ys (y ∷ xs)
Apart-rest xs ys y apart out a h =
    let other : (a == y.at) ≡ false = ne_of_has a y.at ys h out in
    rw other (Apart-symm xs (y ∷ ys) apart a (rw other h))
