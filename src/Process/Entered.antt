-- ===== src/Process/Entered.antt =====
-- What wimp_get_entry returns (wimp/src/wimp_process.c).
use wimp.Prelude.{
  ℕ, zero, suc, ◌+◌, ◌*◌, ◌%◌, ◌^◌, ◌≡◌, refl, sym, ap, ◌∙◌, arith, inl, inr, Option, none, some,
  List, [], ◌∷◌, ◌++◌, false, ◌==◌, ==_refl, ==_iff, ◌>>=◌, leb, ◌≤◌, ◌<◌, length-append,
  length-replicate, true, length, replicate, Bool-cases, Option-cases,
}
use wimp.Prelude.Bytes.{Bytes, c_string}
use wimp.Process.Entry.{
  Block, main_entry, pointers, argument, Heap, size_of, fill, write, free, give_up, copy_arguments,
  get_entry,
}
use wimp.Process.Freed.{
  IsFresh, Holding, Holding-cons, Holding-write, give_up-old, write_self, write_ne, free-there,
}
use wimp.Process.Arguments.{given, Building, argument-Building, last-Building, ==_comm}

-- What wimp_get_entry returns: nothing, with the memory as it was, or an entry with the arguments in
-- blocks of their own, and all other memory as it was.
pub data Entered (old heap : Heap) (args : List (Option Bytes)) : Option ℕ → Type 0 where
  refused : ((a : ℕ) → heap a ≡ old a) → Entered old heap args none
  entered :
      (entry argv : ℕ) (held : List ℕ) (texts : List Bytes)
      → Building old heap (length args) entry argv held texts zero
      → given texts [] ≡ args
      → Entered old heap args (some entry)

fill-write :
    (heap : Heap) (p size : ℕ) (b : Block)
    → size_of b ≤ size
    → fill heap p size b ≡ some (write heap p (some b))
unfolding fill
fill-write heap p size b fits =
    let e : leb (size_of b) size ≡ true = ground (arith, fits) in rw e refl

module _ (malloc : Heap → ℕ → Option ℕ) (fresh : IsFresh malloc) (old : Heap)
    (all : List (Option Bytes)) where
  abbrev Outcome : Option (Option ℕ × Heap) → Type 0
  Outcome run = (r : Option ℕ) × (heap' : Heap) × (run ≡ some (r, heap')) × Entered old heap' all r

  Outcome-of : (run run' : Option (Option ℕ × Heap)) → run ≡ run' → Outcome run' → Outcome run
  Outcome-of run run' same (r, heap', ends, is) = (r, heap', same ∙ ends, is)

  refuses :
      (heap : Heap) (entry argv : ℕ) (held : List ℕ)
      → Holding old heap (held ++ argv ∷ entry ∷ [])
      → Outcome (give_up heap entry argv held >>= λ heap'. some (none, heap'))
  refuses heap entry argv held holding =
      let (t, run, same) = give_up-old old heap entry argv held holding in
      (none, t, rw run refl, refused same)

  copy_arguments-Entered :
      (left : ℕ) (args : List (Option Bytes)) (heap : Heap) (entry argv : ℕ) (held : List ℕ)
      (texts : List Bytes)
      → length args ≡ left
      → given texts args ≡ all
      → Building old heap (length all) entry argv held texts left
      → Outcome (copy_arguments malloc left (length held) args entry argv held heap)
  unfolding copy_arguments
  copy_arguments-Entered zero [] heap entry argv held texts n whole b =
      let (heap', run, b') = last-Building old heap (length all) entry argv held texts b in
      (some entry, heap', rw run refl, entered entry argv held texts b' whole)
  copy_arguments-Entered zero (x ∷ args) heap entry argv held texts n whole b = absurd (omega arith)
  copy_arguments-Entered (suc left) [] heap entry argv held texts n whole b = absurd (omega arith)
  copy_arguments-Entered (suc left) (none ∷ args) heap entry argv held texts n whole b =
      refuses heap entry argv held b.holding
  copy_arguments-Entered (suc left) (some t ∷ args) heap entry argv held texts n whole b =
      elim (Option-cases (malloc heap (length t + 1))) [
        | inl e ↦
            Outcome-of _ _ (rw (e, copy_arguments) refl) (refuses heap entry argv held b.holding)
        | inr (p, e) ↦
            let (heap', run, b') =
              argument-Building old heap (length all) entry argv held texts left p t b
                (fresh heap (length t + 1) p e) in
            let next : length held + 1 ≡ suc (length held) = omega arith in
            let copied =
              fill-write heap p (length t + 1) (argument (c_string t))
                (omega (arith, length-append t (0 ∷ []))) in
            Outcome-of _ _ (rw (e, copied, run, next, copy_arguments) refl) (
              copy_arguments-Entered left args heap' entry argv (p ∷ held) (t ∷ texts) (omega arith)
                whole b')
      ]

  start-Building :
      (entry argv : ℕ)
      → old entry ≡ none
      → write old entry (some (main_entry (length all) none)) argv ≡ none
      → Building old
          (write
            (write
              (write old entry (some (main_entry (length all) none)))
              argv
              (some (pointers (replicate (length all + 1) none))))
            entry
            (some (main_entry (length all) (some argv))))
          (length all)
          entry
          argv
          []
          []
          (length all)
  start-Building entry argv e e' =
      let none_held : Holding old old [] = record {
        unique = tt;
        unused = λ a h. cc;
        used = λ a h. cc;
        rest = λ a h. refl;
      } in
      let one = Holding-cons old old [] entry (main_entry (length all) none) none_held e in
      let heap1 = write old entry (some (main_entry (length all) none)) in
      let two =
        Holding-cons old heap1 (entry ∷ []) argv (pointers (replicate (length all + 1) none)) one
          e' in
      let heap2 = write heap1 argv (some (pointers (replicate (length all + 1) none))) in
      let other : (entry == argv) ≡ false = ground (arith, ==_comm entry argv, two.unique.0) in
      let size : length all + 1 ≡ suc (length all) = omega arith in
      record {
        holding =
            Holding-write old heap2 (argv ∷ entry ∷ []) entry (main_entry (length all) (some argv))
              two (ground (arith, ==_refl entry));
        struct = write_self heap2 entry _;
        array =
            write_ne heap2 entry argv _ other
            ∙ write_self heap1 argv _
            ∙ ap (λ (n : ℕ). some (pointers (replicate n none))) size;
        copied = tt;
      }

  no_array :
      (entry : ℕ)
      → old entry ≡ none
      → Outcome (
          free (write old entry (some (main_entry (length all) none))) entry >>= λ heap'.
          some (none, heap'))
  no_array entry e =
      let heap1 = write old entry (some (main_entry (length all) none)) in
      (
        none,
        write heap1 entry none,
        rw (free-there heap1 entry (main_entry (length all) none) (write_self old entry _)) refl,
        refused λ a. elim (Bool-cases (entry == a)) [
          | inl same ↦
              let here = (==_iff entry a).0 same in
              ap (write heap1 entry none) (sym here)
              ∙ write_self heap1 entry none
              ∙ sym e
              ∙ ap old here
          | inr other ↦ write_ne heap1 entry a none other ∙ write_ne old entry a _ other
        ],
      )

  -- wimp_get_entry, with an allocator that gives unused addresses and as many arguments as `argc`
  -- says, fewer than 2^31: it returns, without a bad access, and writes no more to a block than the
  -- bytes it asked for. Where there is no memory for any of its
  -- blocks, or an argument is NULL, the result is NULL and the memory is as it was. Otherwise the
  -- result is an entry with `argc` and an array of pointers to copies of the arguments, in order, and
  -- a NULL behind them, all in blocks of their own that were not in use, and all other memory is as
  -- it was.
  pub get_entry-Entered :
      length all < 2 ^ 31
      → (r : Option ℕ) × (heap : Heap) × (get_entry malloc (length all) all old ≡ some (r, heap))
        × Entered old heap all r
  unfolding get_entry
  get_entry-Entered few = elim (Option-cases (malloc old 16)) [
    | inl e ↦
        Outcome-of _ (some (none, old)) (rw (e, get_entry) refl)
          (none, old, refl, refused (λ a. refl))
    | inr (entry, e) ↦
        let unused = fresh old 16 entry e in
        let heap1 = write old entry (some (main_entry (length all) none)) in
        let bytes = (length all * 8 + 8) % 2 ^ 64 in
        let made = fill-write old entry 16 (main_entry (length all) none) (omega arith) in
        elim (Option-cases (malloc heap1 bytes)) [
          | inl e' ↦ Outcome-of _ _ (rw (e, made, e', get_entry) refl) (no_array entry unused)
          | inr (argv, e') ↦
              let array =
                fill-write heap1 argv bytes (pointers (replicate (length all + 1) none))
                  (omega (arith, length-replicate {0} {A = Option ℕ} (length all + 1) none)) in
              Outcome-of _ _ (rw (e, made, e', array, get_entry) refl) (
                copy_arguments-Entered (length all) all _ entry argv [] [] refl refl
                  (start-Building entry argv unused (fresh heap1 bytes argv e')))
        ]
  ]
