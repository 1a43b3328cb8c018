-- ===== src/SharedData/Freed.antt =====
-- One slot of wimp_data_free of wimp/src/wimp_data.c.
use wimp.Prelude.{
  ℕ, zero, suc, ◌+◌, ◌<◌, ◌^◌, ◌%◌, ◌≡◌, ◌≢◌, refl, ap, ◌∙◌, arith, Option, none, some, List, [],
  ◌∷◌, Bool, false, not, ◌&&◌, ◌==◌, leb, if◌then◌else◌, is_some, get_or, set, length, length-set,
  get_or-set_self, get_or-set_ne, Bool-cases, Option-cases, inl, inr,
}
use wimp.Prelude.Bytes.{Bytes, text_eq}
use wimp.SharedData.{DataSlot, DataTable, empty_slot, slot, find_named, link_to_data}
use wimp.SharedData.Life.{ShmCall, take_ownership, shm_free, Openings, free_slot}

-- A slot that keeps its name and stays shared is found as before.
find_named-set :
    (slots : List DataSlot) (s : DataSlot) (name : Bytes) (i k : ℕ)
    → s.name ≡ (get_or slots i empty_slot).name
    → (s.share_counter == 0) ≡ ((get_or slots i empty_slot).share_counter == 0)
    → find_named (set slots i s) name k ≡ find_named slots name k
unfolding find_named
find_named-set [] s name i k same count = refl
find_named-set (r ∷ slots) s name zero k same count = rw (same, count) refl
find_named-set (r ∷ slots) s name (suc i) k same count =
    ap (λ o. if not (r.share_counter == 0) && text_eq r.name name then some k else o)
      (find_named-set slots s name i (k + 1) same count)

-- The segment of a slot: the one that the process has, or one that it opens for a name in use.
abbrev pub shm_of : Openings → DataTable → ℕ → Option ℕ
shm_of open_shm t i =
    if is_some (get_or t.cache i none)
    then get_or t.cache i none
    else (if not (text_eq (slot t i).name []) && is_some (find_named t.slots (slot t i).name 0)
        then (open_shm i).0
        else none)

-- A table after one slot, or one slot's linking, with the handle in its cache.
pub record Changed (t : DataTable) (i : ℕ) (shm : Option ℕ) (t' : DataTable) : Type 0 where
  pub handle : get_or t'.cache i none ≡ shm
  pub slots : (j : ℕ) → i ≢ j → slot t' j ≡ slot t j
  pub cache : (j : ℕ) → i ≢ j → get_or t'.cache j none ≡ get_or t.cache j none
  pub named : (name : Bytes) → find_named t'.slots name 0 ≡ find_named t.slots name 0
  pub many : length t'.slots ≡ length t.slots
  pub width : length t'.cache ≡ length t.cache

Changed-refl : (t : DataTable) (i : ℕ) → Changed t i (get_or t.cache i none) t
Changed-refl t i = record {
  handle = refl;
  slots = λ j ne. refl;
  cache = λ j ne. refl;
  named = λ name. refl;
  many = refl;
  width = refl;
}

none_of : (o : Option ℕ) → is_some o ≡ false → o ≡ none
none_of none h = refl
none_of (some a) h = cc

-- Linking to the slot of this index, which the process has not linked.
link_to_data-Changed :
    (t : DataTable) (i : ℕ) (shm : Option ℕ) (entry key : Bool) (name : Bytes)
    → i < length t.cache
    → (slot t i).share_counter < 2 ^ 31
    → is_some (get_or t.cache i none) ≡ false
    → ((k : ℕ) → find_named t.slots name 0 ≡ some k → (k ≡ i) × ((slot t i).share_counter ≢ 0))
    → Changed t i
        (if is_some (find_named t.slots name 0) then shm else none)
        (link_to_data shm entry key t name).1
unfolding link_to_data
link_to_data-Changed t i shm entry key name within small uncached only =
    let nothing = none_of (get_or t.cache i none) uncached in
    elim (Option-cases (find_named t.slots name 0)) [
      | inl e ↦ rw (e, link_to_data) (rw nothing at (Changed-refl t i))
      | inr (k, e) ↦
          let (same, there) = only k e in
          let s = slot t i in
          let more : ((s.share_counter + 1) % 2 ^ 32 == 0) ≡ (s.share_counter == 0) =
            ground (arith, there) in
          let shared : DataSlot = record s { share_counter = (s.share_counter + 1) % 2 ^ 32 } in
          rw (e, same, link_to_data, uncached)
            (record {
              handle = get_or-set_self t.cache i shm none within;
              slots = λ j ne. get_or-set_ne t.slots i j shared empty_slot ne;
              cache = λ j ne. get_or-set_ne t.cache i j shm none ne;
              named = λ n. find_named-set t.slots shared n i 0 refl more;
              many = length-set t.slots i shared;
              width = length-set t.cache i shm;
            })
    ]

clear-Changed :
    (t t' : DataTable) (i : ℕ) (shm : Option ℕ)
    → i < length t.cache
    → Changed t i shm t'
    → Changed t i none (record t' { cache = set t'.cache i none })
clear-Changed t t' i shm within c = record {
  handle = get_or-set_self t'.cache i none none (omega (arith, c.width));
  slots = c.slots;
  cache = λ j ne. get_or-set_ne t'.cache i j none none ne ∙ c.cache j ne;
  named = c.named;
  many = c.many;
  width = length-set t'.cache i none ∙ c.width;
}

-- The calls for one slot, and the table behind them.
abbrev pub slot_calls : Option ℕ → List ShmCall
slot_calls shm = take_ownership shm ∷ (shm_free shm ∷ [])

abbrev pub SlotFreed : Openings → ℕ → DataTable → Type 0
SlotFreed open_shm i t =
    (t' : DataTable) × (free_slot open_shm i t ≡ (t', slot_calls (shm_of open_shm t i)))
    × Changed t i none t'

pub free_slot-freed :
    (open_shm : Openings) (t : DataTable) (i : ℕ)
    → i < length t.cache
    → (slot t i).share_counter < 2 ^ 31
    → (text_eq (slot t i).name [] ≡ false
        → (k : ℕ) → find_named t.slots (slot t i).name 0 ≡ some k
        → (k ≡ i) × ((slot t i).share_counter ≢ 0))
    → SlotFreed open_shm i t
unfolding free_slot
free_slot-freed open_shm t i within small only =
    let low : leb (2 ^ 31) (slot t i).share_counter ≡ false = ground arith in
    elim (Bool-cases (is_some (get_or t.cache i none))) [
      | inl cached ↦ rw (cached, low) (_, refl, clear-Changed t t i _ within (Changed-refl t i))
      | inr uncached ↦ elim (Bool-cases (text_eq (slot t i).name [])) [
        | inl nameless ↦
            let nothing = none_of (get_or t.cache i none) uncached in
            rw (uncached, nameless, low, nothing)
              (_, refl, clear-Changed t t i none within (rw nothing at (Changed-refl t i)))
        | inr named ↦
            let linked =
              link_to_data-Changed t i (open_shm i).0 (open_shm i).1 (open_shm i).2 (slot t i).name
                within small uncached (only named) in
            rw (uncached, named, low, free_slot, linked.handle)
              (_, refl, clear-Changed t _ i _ within linked)
      ]
    ]
