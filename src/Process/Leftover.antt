-- ===== src/Process/Leftover.antt =====
-- What wimp_free_entry gives back, and what it leaves (wimp/src/wimp_process.c).
use wimp.Prelude.{
  ℕ, zero, ◌+◌, ◌≡◌, refl, sym, ap, ◌∙◌, arith, inl, inr, Option, none, some, List, [], ◌∷◌, ◌++◌,
  true, false, ◌==◌, ==_refl, ==_iff, if◌then◌else◌, length, get_elem?-append, append_assoc,
  length-append, Bool-cases, Option-cases,
}
use wimp.Prelude.Bytes.{Bytes}
use wimp.Process.Entry.{
  main_entry, pointers, Heap, write, free, free_all, free_arguments, free_entry,
}
use wimp.Process.Freed.{
  among, Unique, free_all-Without, free-there, among-append, write_self, write_ne,
}
use wimp.Process.Arguments.{Building, listed, Unique-append, ==_comm}

abbrev rev : List ℕ → List ℕ
rev [] = []
rev (p ∷ ps) = rev ps ++ p ∷ []

abbrev some_all : List ℕ → List (Option ℕ) → List (Option ℕ)
some_all [] tail = tail
some_all (p ∷ ps) tail = some p ∷ some_all ps tail

some_all-append :
    (ps qs : List ℕ) (tail : List (Option ℕ))
    → some_all (ps ++ qs) tail ≡ some_all ps (some_all qs tail)
some_all-append [] qs tail = refl
some_all-append (p ∷ ps) qs tail = ap (λ r. some p ∷ r) (some_all-append ps qs tail)

listed-rev : (held : List ℕ) (tail : List (Option ℕ)) → listed held tail ≡ some_all (rev held) tail
listed-rev [] tail = refl
listed-rev (p ∷ held) tail =
    listed-rev held (some p ∷ tail) ∙ sym (some_all-append (rev held) (p ∷ []) tail)

among-rev : (a : ℕ) (ps : List ℕ) → among a (rev ps) ≡ among a ps
among-rev a [] = refl
among-rev a (p ∷ ps) = ground (arith, among-append a (rev ps) (p ∷ []), among-rev a ps)

Unique-snoc : (ps : List ℕ) (p : ℕ) → Unique ps → among p ps ≡ false → Unique (ps ++ p ∷ [])
Unique-snoc [] p u out = (refl, tt)
Unique-snoc (q ∷ ps) p (o, u) out =
    (ground (arith, among-append q ps (p ∷ []), ==_comm p q), Unique-snoc ps p u (ground arith))

Unique-rev : (ps : List ℕ) → Unique ps → Unique (rev ps)
Unique-rev [] u = tt
Unique-rev (p ∷ ps) (out, u) = Unique-snoc (rev ps) p (Unique-rev ps u) (among-rev p ps ∙ out)

Unique-front : (ps qs : List ℕ) → Unique (ps ++ qs) → Unique ps
Unique-front [] qs u = tt
Unique-front (p ∷ ps) qs (out, u) = (ground (arith, among-append p ps qs), Unique-front ps qs u)

-- The loop goes through the pointers from `i` on.
free_arguments-all :
    (ps : List ℕ) (front tail : List (Option ℕ)) (i : ℕ) (heap : Heap)
    → i ≡ length front
    → free_arguments (length ps) i (front ++ some_all ps tail) heap ≡ free_all heap ps
unfolding free_arguments free_all
free_arguments-all [] front tail i heap at = refl
free_arguments-all (p ∷ ps) front tail i heap at =
    let here = get_elem?-append i front (some_all ps tail) (some p) at in
    elim (Option-cases (free heap p)) [
      | inl e ↦ rw (free_arguments, here, e) refl
      | inr (heap', e) ↦
          let shape = append_assoc front (some p ∷ []) (some_all ps tail) in
          rw (free_arguments, here, e)
            (ap (λ r. free_arguments (length ps) (i + 1) r heap') (sym shape)
              ∙ free_arguments-all ps (front ++ some p ∷ []) tail (i + 1) heap'
                  (omega (arith, length-append front (some p ∷ []))))
    ]

length-rev : (ps : List ℕ) → length (rev ps) ≡ length ps
length-rev [] = refl
length-rev (p ∷ ps) = omega (arith, length-append (rev ps) (p ∷ []), length-rev ps)

-- wimp_free_entry on an entry that wimp_get_entry made: it gives back the entry and every copy of an
-- argument, each once, and nothing else. The array of pointers stays allocated, with its content.
pub free_entry-leaks :
    (old heap : Heap) (entry argv : ℕ) (held : List ℕ) (texts : List Bytes)
    → Building old heap (length held) entry argv held texts zero
    → (t : Heap) × (free_entry entry heap ≡ some t)
      × (t argv ≡ some (pointers (listed held (none ∷ []))))
      × ((a : ℕ) → t a ≡ (if a == argv then heap argv else old a))
unfolding free_entry
free_entry-leaks old heap entry argv held texts b =
    let all = held ++ argv ∷ entry ∷ [] in
    let split = λ (a : ℕ). among-append a held (argv ∷ entry ∷ []) in
    let (pair, apart) = Unique-append held (argv ∷ entry ∷ []) b.holding.unique in
    let texts_unique = Unique-rev held (Unique-front held (argv ∷ entry ∷ []) b.holding.unique) in
    let (t, run, less) =
      free_all-Without (rev held) heap texts_unique
        λ a h. b.holding.used a (ground (arith, split a, among-rev a held, h)) in
    let loop : free_arguments (length held) 0 (listed held (none ∷ [])) heap ≡ some t =
      ap (λ r. free_arguments (length held) 0 r heap) (listed-rev held (none ∷ []))
      ∙ ap (λ (n : ℕ). free_arguments n 0 (some_all (rev held) (none ∷ [])) heap)
          (sym (length-rev held))
      ∙ free_arguments-all (rev held) [] (none ∷ []) 0 heap refl
      ∙ run in
    let kept : t entry ≡ some (main_entry (length held) (some argv)) =
      less entry
      ∙ rw (among-rev entry held, apart entry (ground (arith, ==_refl entry))) b.struct in
    let array : t argv ≡ heap argv =
      less argv ∙ rw (among-rev argv held, apart argv (ground (arith, ==_refl argv))) refl in
    let other : (entry == argv) ≡ false = ground (arith, pair.0, ==_comm entry argv) in
    (
      write t entry none,
      rw (b.struct, b.array, loop) (free-there t entry _ kept),
      write_ne t entry argv none other ∙ array ∙ b.array,
      λ a. elim (Bool-cases (a == argv)) [
        | inl e ↦
            let same = (==_iff a argv).0 e in
            rw e (ap (write t entry none) same ∙ write_ne t entry argv none other ∙ array)
        | inr e ↦ elim (Bool-cases (entry == a)) [
          | inl e' ↦
              let here = (==_iff entry a).0 e' in
              let held_there : among a all ≡ true = ground (arith, split a, ==_comm entry a, e') in
              rw e (
                ap (write t entry none) (sym here)
                ∙ write_self t entry none
                ∙ sym (b.holding.unused a held_there))
          | inr e' ↦ elim (Bool-cases (among a held)) [
            | inl h ↦
                let held_there : among a all ≡ true = ground (arith, split a, h) in
                rw e (
                  write_ne t entry a none e'
                  ∙ less a
                  ∙ rw (among-rev a held, h) (sym (b.holding.unused a held_there)))
            | inr h ↦
                let outside : among a all ≡ false =
                  ground (arith, split a, ==_comm entry a, e, e', h) in
                rw e (
                  write_ne t entry a none e'
                  ∙ less a
                  ∙ rw (among-rev a held, h) (b.holding.rest a outside))
          ]
        ]
      ],
    )
