-- ===== src/SharedData/Returned.antt =====
-- What wimp_data_free of wimp/src/wimp_data.c gives back.
use wimp.Prelude.{
  ℕ, zero, suc, ◌+◌, ◌≤◌, ◌<◌, ◌^◌, ◌≡◌, ◌≢◌, refl, sym, ap, ◌∙◌, arith, Option, none, some, List,
  [], ◌∷◌, true, false, ◌==◌, ==_iff, map, get_or, replicate, length, Bool-cases, inl, inr,
}
use wimp.Prelude.Bytes.{Bytes, text_eq}
use wimp.HashString.{HashString, Entry}
use wimp.SharedData.{DataSlot, DataTable, empty_slot, slot, find_named}
use wimp.SharedData.Life.{
  ShmCall, take_ownership, shm_free, Attachment, Openings, free_slots, destroy, data_free,
}
use wimp.SharedData.Freed.{Changed, shm_of, free_slot-freed}

-- What is called on the segments, slot by slot.
abbrev pub give_back : (ℕ → Option ℕ) → (left i : ℕ) → List ShmCall
give_back shm zero i = []
give_back shm (suc left) i =
    take_ownership (shm i) ∷ (shm_free (shm i) ∷ give_back shm left (i + 1))

-- A table whose counters are not negative, in which a name leads to its own slot if to any, and with
-- a place in the cache for each slot.
pub record IsReturnable (t : DataTable) : Type 0 where
  pub small : (j : ℕ) → (slot t j).share_counter < 2 ^ 31
  pub only :
      (j : ℕ)
      → text_eq (slot t j).name [] ≡ false
      → (k : ℕ) → find_named t.slots (slot t j).name 0 ≡ some k
      → (k ≡ j) × ((slot t j).share_counter ≢ 0)

-- The table `old` with the slots before `i` given back.
record Given (old t : DataTable) (i : ℕ) : Type 0 where
  slots : (j : ℕ) → i ≤ j → slot t j ≡ slot old j
  cache : (j : ℕ) → i ≤ j → get_or t.cache j none ≡ get_or old.cache j none
  gone : (j : ℕ) → j < i → get_or t.cache j none ≡ none
  named : (name : Bytes) → find_named t.slots name 0 ≡ find_named old.slots name 0
  many : length t.slots ≡ length old.slots
  width : length t.cache ≡ length old.cache

module _ (open_shm : Openings) (old : DataTable) (returnable : IsReturnable old) where
  Given-shm_of :
      (t : DataTable) (i : ℕ) → Given old t i → shm_of open_shm t i ≡ shm_of open_shm old i
  Given-shm_of t i given =
      rw (given.cache i (omega arith), given.slots i (omega arith), given.named (slot old i).name)
        refl

  Given-next :
      (t t' : DataTable) (i : ℕ) → Given old t i → Changed t i none t' → Given old t' (i + 1)
  Given-next t t' i given c = record {
    slots = λ j h. c.slots j (λ e. omega (arith, e, h)) ∙ given.slots j (omega arith);
    cache = λ j h. c.cache j (λ e. omega (arith, e, h)) ∙ given.cache j (omega arith);
    gone = λ j h. elim (Bool-cases (i == j)) [
      | inl e ↦ ap (λ (a : ℕ). get_or t'.cache a none) (sym ((==_iff i j).0 e)) ∙ c.handle
      | inr ne ↦ c.cache j (ground (arith, ne)) ∙ given.gone j (ground (arith, ne, h))
    ];
    named = λ name. c.named name ∙ given.named name;
    many = c.many ∙ given.many;
    width = c.width ∙ given.width;
  }

  free_slots-Given :
      (left i : ℕ) (t : DataTable)
      → Given old t i
      → i + left ≤ length old.cache
      → (end : DataTable) × (free_slots open_shm left i t
          ≡ (end, give_back (shm_of open_shm old) left i))
        × Given old end (i + left)
  unfolding free_slots
  free_slots-Given zero i t given within =
      let same : i + 0 ≡ i = omega arith in (t, refl, rw same given)
  free_slots-Given (suc left) i t given within =
      let here = given.slots i (omega arith) in
      let (t', run, changed) =
        free_slot-freed open_shm t i (omega (arith, given.width)) (rw here (returnable.small i))
          (rw (here, given.named (slot old i).name) (returnable.only i)) in
      let (end, rest, all) =
        free_slots-Given left (i + 1) t' (Given-next t t' i given changed) (omega arith) in
      let same : i + suc left ≡ i + 1 + left = omega arith in
      (end, rw (run, rest, Given-shm_of t i given) refl, rw same all)

map-replicate :
    (slots : List DataSlot) → map (λ _. empty_slot) slots ≡ replicate (length slots) empty_slot
map-replicate [] = refl
map-replicate (s ∷ slots) = ap (λ r. empty_slot ∷ r) (map-replicate slots)

-- The table as a process sees it.
abbrev pub seen : List DataSlot → Attachment → HashString ℕ → DataTable
seen slots a h = record { slots = slots; cache = a.cache; cache_map = h }

-- wimp_data_free in a process that is linked to the table of 64 slots, where no counter is negative and
-- the name of a slot leads to it if to any: slot by slot, from the first to the last, the segment that
-- the process has linked, or else one that it opens for the name, is owned and freed, once; for a slot
-- that is neither linked nor shared these calls get NULL. Then all slots are empty, the process has no
-- segments left and is not linked.
pub data_free-Returned :
    (open_shm : Openings) (slots : List DataSlot) (a : Attachment) (h : HashString ℕ)
    → a.is_linked ≡ true
    → a.cache_map ≡ some h
    → length slots ≡ 64
    → length a.cache ≡ 64
    → IsReturnable (seen slots a h)
    → (end : Attachment) × (entries : List (Entry ℕ)) × (data_free open_shm slots a
        ≡ some (
          replicate 64 empty_slot,
          end,
          give_back (shm_of open_shm (seen slots a h)) 64 0,
          entries,
        ))
      × (end.is_linked ≡ false)
      × (end.shm ≡ none)
      × ((j : ℕ) → j < 64 → get_or end.cache j none ≡ none)
unfolding data_free
data_free-Returned open_shm slots a h linked there many width returnable =
    let old = seen slots a h in
    let start : Given old old 0 = record {
      slots = λ j le. refl;
      cache = λ j le. refl;
      gone = λ j lt. absurd (omega arith);
      named = λ name. refl;
      many = refl;
      width = refl;
    } in
    let (end, run, given) =
      free_slots-Given open_shm old returnable 64 0 old start (omega (arith, width)) in
    let cleared : map (λ _. empty_slot) end.slots ≡ replicate 64 empty_slot =
      map-replicate end.slots ∙ ap (λ (n : ℕ). replicate n empty_slot) (given.many ∙ many) in
    (
      record a { shm = none; is_linked = false; cache = end.cache; cache_map = none },
      destroy end.cache_map,
      rw (linked, there, run, cleared) refl,
      refl,
      refl,
      given.gone,
    )
