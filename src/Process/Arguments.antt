-- ===== src/Process/Arguments.antt =====
-- The arguments that wimp_get_entry copies (wimp/src/wimp_process.c).
use wimp.Prelude.{
  ℕ, zero, suc, ◌+◌, ◌≡◌, refl, ap, ◌∙◌, arith, inl, inr, Option, none, some, List, [], ◌∷◌, ◌++◌,
  true, false, ◌==◌, ==_refl, ==_iff, length, set, replicate, Bool-cases,
}
use wimp.Prelude.Bytes.{Bytes, c_string}
use wimp.Process.Entry.{Block, main_entry, pointers, argument, Heap, write, set_argument}
use wimp.Process.Freed.{
  among, Unique, Holding, Holding-cons, Holding-write, write_self, write_ne, among-append,
}

-- Pointers that were found latest first, in order, and what stands behind them.
abbrev pub listed : List ℕ → List (Option ℕ) → List (Option ℕ)
listed [] tail = tail
listed (p ∷ held) tail = listed held (some p ∷ tail)

-- The texts at the pointers.
abbrev pub Texts : Heap → List ℕ → List Bytes → Type 0
Texts heap [] [] = Unit
Texts heap [] (t ∷ texts) = ⊥
Texts heap (p ∷ held) [] = ⊥
Texts heap (p ∷ held) (t ∷ texts) = (heap p ≡ some (argument (c_string t))) × Texts heap held texts

set-listed :
    (held : List ℕ) (k : ℕ) (tail : List (Option ℕ)) (v : Option ℕ)
    → set (listed held tail) (length held + k) v ≡ listed held (set tail k v)
set-listed [] k tail v = ap (λ (n : ℕ). set tail n v) (omega arith)
set-listed (p ∷ held) k tail v =
    let more : length (p ∷ held) + k ≡ length held + suc k = omega arith in
    rw more (set-listed held (suc k) (some p ∷ tail) v)

Texts-write :
    (heap : Heap) (p : ℕ) (b : Option Block) (held : List ℕ) (texts : List Bytes)
    → among p held ≡ false
    → Texts heap held texts
    → Texts (write heap p b) held texts
Texts-write heap p b [] [] out at = tt
Texts-write heap p b [] (t ∷ texts) out at = at
Texts-write heap p b (q ∷ held) [] out at = at
Texts-write heap p b (q ∷ held) (t ∷ texts) out (here, at) =
    (write_ne heap p q b (ground arith) ∙ here, Texts-write heap p b held texts (ground arith) at)

pub Unique-append :
    (ps qs : List ℕ)
    → Unique (ps ++ qs)
    → Unique qs × ((a : ℕ) → among a qs ≡ true → among a ps ≡ false)
Unique-append [] qs u = (u, λ a h. refl)
Unique-append (p ∷ ps) qs (out, u) =
    let (v, apart) = Unique-append ps qs u in
    (
      v,
      λ a h. elim (Bool-cases (a == p)) [
        | inl e ↦
            let gone : among a (ps ++ qs) ≡ false =
              ap (λ (x : ℕ). among x (ps ++ qs)) ((==_iff a p).0 e) ∙ out in
            ground (arith, among-append a ps qs, gone, h)
        | inr e ↦ rw e (apart a h)
      ],
    )

-- The arguments that texts, latest first, come from.
abbrev pub given : List Bytes → List (Option Bytes) → List (Option Bytes)
given [] rest = rest
given (t ∷ texts) rest = given texts (some t ∷ rest)

-- `left` arguments are still to come; the heap without the entry is `old`.
pub record Building (old heap : Heap) (argc entry argv : ℕ) (held : List ℕ) (texts : List Bytes)
    (left : ℕ) : Type 0 where
  pub holding : Holding old heap (held ++ argv ∷ entry ∷ [])
  pub struct : heap entry ≡ some (main_entry argc (some argv))
  pub array : heap argv ≡ some (pointers (listed held (replicate (suc left) none)))
  pub copied : Texts heap held texts

pub ==_comm : (a b : ℕ) → (a == b) ≡ (b == a)
==_comm a b = ground arith

module _ (old heap : Heap) (argc entry argv : ℕ) (held : List ℕ) (texts : List Bytes)
    (left : ℕ) where
  -- One more argument.
  pub argument-Building :
      (p : ℕ) (t : Bytes)
      → Building old heap argc entry argv held texts (suc left)
      → heap p ≡ none
      → (heap' : Heap) × (set_argument
            (write heap p (some (argument (c_string t))))
            argv
            (length held)
            (some p)
          ≡ some heap')
        × Building old heap' argc entry argv (p ∷ held) (t ∷ texts) left
  unfolding set_argument
  argument-Building p t b unused =
      let all = held ++ argv ∷ entry ∷ [] in
      let (pair, apart) = Unique-append held (argv ∷ entry ∷ []) b.holding.unique in
      let heap1 = write heap p (some (argument (c_string t))) in
      let more = Holding-cons old heap all p (argument (c_string t)) b.holding unused in
      let split = among-append p held (argv ∷ entry ∷ []) in
      let out = more.unique.0 in
      let p_argv : (p == argv) ≡ false = ground (arith, split, out) in
      let p_entry : (p == entry) ≡ false = ground (arith, split, out) in
      let p_held : among p held ≡ false = ground (arith, split, out) in
      let argv_held : among argv held ≡ false = apart argv (ground arith) in
      let array : List (Option ℕ) = listed (p ∷ held) (replicate (suc left) none) in
      let at : heap1 argv ≡ some (pointers (listed held (replicate (suc (suc left)) none))) =
        write_ne heap p argv _ p_argv ∙ b.array in
      let filled : set (listed held (replicate (suc (suc left)) none)) (length held) (some p)
          ≡ array =
        ap (λ (n : ℕ). set (listed held (replicate (suc (suc left)) none)) n (some p)) (omega arith)
        ∙ set-listed held 0 (replicate (suc (suc left)) none) (some p) in
      (
        write heap1 argv (some (pointers array)),
        rw (at, filled) refl,
        record {
          holding =
              Holding-write old heap1 (p ∷ all) argv (pointers array) more
                (ground (arith, among-append argv held (argv ∷ entry ∷ []), ==_refl argv));
          struct =
              write_ne heap1 argv entry _ (ground (arith, pair.0))
              ∙ write_ne heap p entry _ p_entry
              ∙ b.struct;
          array = write_self heap1 argv _;
          copied = (
            write_ne heap1 argv p _ (==_comm argv p ∙ p_argv) ∙ write_self heap p _,
            Texts-write heap1 argv _ held texts argv_held
                (Texts-write heap p _ held texts p_held b.copied),
          );
        },
      )

-- The NULL at the end.
pub last-Building :
    (old heap : Heap) (argc entry argv : ℕ) (held : List ℕ) (texts : List Bytes)
    → Building old heap argc entry argv held texts zero
    → (heap' : Heap) × (set_argument heap argv (length held) none ≡ some heap')
      × Building old heap' argc entry argv held texts zero
unfolding set_argument
last-Building old heap argc entry argv held texts b =
    let (pair, apart) = Unique-append held (argv ∷ entry ∷ []) b.holding.unique in
    let array : List (Option ℕ) = listed held (none ∷ []) in
    let filled : set array (length held) none ≡ array =
      ap (λ (n : ℕ). set array n none) (omega arith) ∙ set-listed held 0 (none ∷ []) none in
    (
      write heap argv (some (pointers array)),
      rw (b.array, filled) refl,
      record {
        holding =
            Holding-write old heap (held ++ argv ∷ entry ∷ []) argv (pointers array) b.holding
              (ground (arith, among-append argv held (argv ∷ entry ∷ []), ==_refl argv));
        struct = write_ne heap argv entry _ (ground (arith, pair.0)) ∙ b.struct;
        array = write_self heap argv _;
        copied = Texts-write heap argv _ held texts (apart argv (ground arith)) b.copied;
      },
    )
