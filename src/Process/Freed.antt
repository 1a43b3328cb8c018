-- ===== src/Process/Freed.antt =====
-- What wimp_get_entry builds and gives back (wimp/src/wimp_process.c).
use wimp.Prelude.{
  ℕ, ◌≡◌, refl, sym, ap, ◌∙◌, arith, inl, inr, Option, none, some, List, [], ◌∷◌, ◌++◌, Bool, true,
  false, ◌||◌, ◌==◌, ==_refl, ==_iff, if◌then◌else◌, is_some, Bool-cases, Option-cases,
}
use wimp.Process.Entry.{Block, Heap, write, free, free_all, give_up}

abbrev pub among : ℕ → List ℕ → Bool
among a [] = false
among a (p ∷ ps) = (a == p) || among a ps

abbrev pub Unique : List ℕ → Type 0
Unique [] = Unit
Unique (p ∷ ps) = (among p ps ≡ false) × Unique ps

abbrev pub IsFresh : (Heap → ℕ → Option ℕ) → Type 0
IsFresh malloc = (heap : Heap) (size p : ℕ) → malloc heap size ≡ some p → heap p ≡ none

pub among-append : (a : ℕ) (ps qs : List ℕ) → among a (ps ++ qs) ≡ (among a ps || among a qs)
among-append a [] qs = refl
among-append a (p ∷ ps) qs = ground (arith, among-append a ps qs)

-- `t` is `s` less the blocks at the addresses.
abbrev pub Without : List ℕ → Heap → Heap → Type 0
Without ps s t = (a : ℕ) → t a ≡ (if among a ps then none else s a)

pub write_self : (s : Heap) (p : ℕ) (b : Option Block) → write s p b p ≡ b
unfolding write
write_self s p b = ground arith

pub write_ne : (s : Heap) (p a : ℕ) (b : Option Block) → (p == a) ≡ false → write s p b a ≡ s a
unfolding write
write_ne s p a b other = rw other refl

pub free-there : (s : Heap) (p : ℕ) (b : Block) → s p ≡ some b → free s p ≡ some (write s p none)
unfolding free
free-there s p b at = rw at refl

pub apart_of : (a p : ℕ) (ps : List ℕ) → among p ps ≡ false → among a ps ≡ true → (p == a) ≡ false
apart_of a p ps out h = elim (Bool-cases (p == a)) [ inl e ↦ cc ((==_iff p a).0 e) | inr e ↦ e ]

pub free_all-Without :
    (ps : List ℕ) (s : Heap)
    → Unique ps
    → ((a : ℕ) → among a ps ≡ true → is_some (s a) ≡ true)
    → (t : Heap) × (free_all s ps ≡ some t) × Without ps s t
unfolding free_all
free_all-Without [] s unique there = (s, refl, λ a. refl)
free_all-Without (p ∷ ps) s (out, unique) there = elim (Option-cases (s p)) [
  | inl gone ↦ let live = there p (rw (==_refl p) refl) in cc (rw gone at live)
  | inr (b, at) ↦
      let (t, run, less) =
        free_all-Without ps (write s p none) unique
          λ a h. rw (write_ne s p a none (apart_of a p ps out h)) (there a (ground (arith, h))) in
      (
        t,
        rw (free-there s p b at) run,
        λ a. elim (Bool-cases (p == a)) [
          | inl e ↦
              let same : p ≡ a = (==_iff p a).0 e in
              ground (arith, less a, write_self s p none, same, out)
          | inr e ↦ ground (arith, less a, write_ne s p a none e, e)
        ],
      )
]

give_up-all :
    (heap : Heap) (entry argv : ℕ) (held : List ℕ)
    → give_up heap entry argv held ≡ free_all heap (held ++ argv ∷ entry ∷ [])
unfolding give_up free_all
give_up-all heap entry argv [] = elim (Option-cases (free heap argv)) [
  | inl e ↦ rw e refl
  | inr (h, e) ↦ elim (Option-cases (free h entry)) [
    | inl e' ↦ rw (e, e') refl
    | inr (h', e') ↦ rw (e, e') refl
  ]
]
give_up-all heap entry argv (p ∷ held) = elim (Option-cases (free heap p)) [
  | inl e ↦ rw e refl
  | inr (h, e) ↦ rw e (give_up-all h entry argv held)
]

-- The blocks of a new entry: `heap` is `old` and these.
pub record Holding (old heap : Heap) (held : List ℕ) : Type 0 where
  pub unique : Unique held
  pub unused : (a : ℕ) → among a held ≡ true → old a ≡ none
  pub used : (a : ℕ) → among a held ≡ true → is_some (heap a) ≡ true
  pub rest : (a : ℕ) → among a held ≡ false → heap a ≡ old a

pub give_up-old :
    (old heap : Heap) (entry argv : ℕ) (held : List ℕ)
    → Holding old heap (held ++ argv ∷ entry ∷ [])
    → (t : Heap) × (give_up heap entry argv held ≡ some t) × ((a : ℕ) → t a ≡ old a)
give_up-old old heap entry argv held holding =
    let all = held ++ argv ∷ entry ∷ [] in
    let (t, run, less) = free_all-Without all heap holding.unique holding.used in
    (
      t,
      give_up-all heap entry argv held ∙ run,
      λ a. elim (Bool-cases (among a all)) [
        | inl e ↦ less a ∙ rw e (sym (holding.unused a e))
        | inr e ↦ less a ∙ rw e (holding.rest a e)
      ],
    )

-- One more block, at an address that is not in use.
pub Holding-cons :
    (old heap : Heap) (held : List ℕ) (p : ℕ) (b : Block)
    → Holding old heap held
    → heap p ≡ none
    → Holding old (write heap p (some b)) (p ∷ held)
Holding-cons old heap held p b holding free_at =
    let out : among p held ≡ false = elim (Bool-cases (among p held)) [
      | inl e ↦ let live = holding.used p e in cc (rw free_at at live)
      | inr e ↦ e
    ] in
    record {
      unique = (out, holding.unique);
      unused = λ a h. elim (Bool-cases (a == p)) [
        | inl e ↦
            let same : a ≡ p = (==_iff a p).0 e in ap old same ∙ sym (holding.rest p out) ∙ free_at
        | inr e ↦ holding.unused a (rw e at h)
      ];
      used = λ a h. elim (Bool-cases (p == a)) [
        | inl e ↦
            let same : p ≡ a = (==_iff p a).0 e in ground (arith, write_self heap p (some b), same)
        | inr e ↦ ground (arith, write_ne heap p a (some b) e, holding.used a, e, h)
      ];
      rest = λ a h. elim (Bool-cases (p == a)) [
        | inl e ↦ ground (arith, (==_iff p a).0 e, h)
        | inr e ↦ ground (arith, write_ne heap p a (some b) e, holding.rest a, e, h)
      ];
    }

-- Another content for a block that is held.
pub Holding-write :
    (old heap : Heap) (held : List ℕ) (p : ℕ) (b : Block)
    → Holding old heap held
    → among p held ≡ true
    → Holding old (write heap p (some b)) held
Holding-write old heap held p b holding h = record {
  unique = holding.unique;
  unused = holding.unused;
  used = λ a k. elim (Bool-cases (p == a)) [
    | inl e ↦ ground (arith, write_self heap p (some b), (==_iff p a).0 e)
    | inr e ↦ ground (arith, write_ne heap p a (some b) e, holding.used a)
  ];
  rest = λ a k. elim (Bool-cases (p == a)) [
    | inl e ↦ ground (arith, (==_iff p a).0 e, h, k)
    | inr e ↦ ground (arith, write_ne heap p a (some b) e, holding.rest a)
  ];
}
