-- ===== src/Tests/Returning.antt =====
-- A table of 64 slots with data that this process has linked, data of another process, and slots that are
-- not in use.
use wimp.Prelude.{
  ℕ, zero, suc, ◌<◌, ◌≡◌, ◌≢◌, refl, arith, ◌^◌, Option, none, some, List, [], ◌∷◌, true, false,
  replicate, length-replicate, get_or, get_or-replicate, ap,
}
use wimp.Prelude.Bytes.{text_eq}
use wimp.HashString.{HashString, Entry}
use wimp.Arena.{sarena}
use wimp.SharedData.{DataSlot, empty_slot, slot, find_named}
use wimp.SharedData.Life.{Attachment, Openings, data_free}
use wimp.SharedData.Freed.{shm_of}
use wimp.SharedData.Returned.{IsReturnable, seen, give_back, data_free-Returned}

abbrev named_slot : ℕ → ℕ → DataSlot
named_slot count c = record {
  share_counter = count;
  size = 100;
  data_arena = sarena;
  name = c ∷ [];
}

abbrev sixty_four : List DataSlot
sixty_four = named_slot 1 0x73 ∷ (named_slot 2 0x74 ∷ replicate 62 empty_slot)

abbrev map_of : HashString ℕ
map_of = record { size = 1; table = (record { key = 0x73 ∷ []; value = 0 } ∷ []) ∷ [] }

abbrev attached : Attachment
attached = record {
  shm = some 3;
  memory_name = some (0x6d ∷ []);
  is_linked = true;
  cache = some 5 ∷ replicate 63 none;
  cache_map = some map_of;
}

-- Opening a segment gives the handle 6.
abbrev open_six : Openings
open_six i = (some 6, true, true)

sixty_four-IsReturnable : IsReturnable (seen sixty_four attached map_of)
unfolding text_eq find_named
sixty_four-IsReturnable = record { small = small; only = only }
  where
    small : (j : ℕ) → (slot (seen sixty_four attached map_of) j).share_counter < 2 ^ 31
    small zero = omega arith
    small (suc zero) = omega arith
    small (suc (suc j)) = rw (get_or-replicate 62 j empty_slot) (omega arith)

    only :
        (j : ℕ)
        → text_eq (slot (seen sixty_four attached map_of) j).name [] ≡ false
        → (k : ℕ) → find_named sixty_four (slot (seen sixty_four attached map_of) j).name 0 ≡ some k
        → (k ≡ j) × ((slot (seen sixty_four attached map_of) j).share_counter ≢ 0)
    only zero n k e = (cc, λ h. omega (arith, h))
    only (suc zero) n k e = (cc, λ h. omega (arith, h))
    only (suc (suc j)) n k e = cc (rw (get_or-replicate 62 j empty_slot) at n)

data_free-Returned_example :
    (end : Attachment) × (entries : List (Entry ℕ)) × (data_free open_six sixty_four attached
      ≡ some (
        replicate 64 empty_slot,
        end,
        give_back (shm_of open_six (seen sixty_four attached map_of)) 64 0,
        entries,
      ))
    × (end.is_linked ≡ false)
    × (end.shm ≡ none)
    × ((j : ℕ) → j < 64 → get_or end.cache j none ≡ none)
data_free-Returned_example =
    data_free-Returned open_six sixty_four attached map_of refl refl
      (ap (λ (n : ℕ). suc (suc n)) (length-replicate 62 empty_slot))
      (ap suc (length-replicate {A = Option ℕ} 63 none)) sixty_four-IsReturnable
