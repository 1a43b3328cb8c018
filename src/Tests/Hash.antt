-- ===== src/Tests/Hash.antt =====
-- A table of one chain with two entries, and one of two chains.
use mathlib.Core.List.{flatten}
use wimp.Prelude.{ℕ, ◌+◌, ◌≡◌, ◌↔◌, refl, arith, none, some, [], ◌∷◌, true, if◌then◌else◌, get_or}
use wimp.Prelude.Bytes.{Bytes, text_eq}
use wimp.HashString.{
  HashString, hash, find_chain, bucket, find, add, AddStatus, remove, removed, iterate_all,
}
use wimp.HashString.Chains.{Overruns, UniqueKeys}
use wimp.HashString.Laws.{IsValid, AddOutcome, add-AddOutcome, remove-none, remove-some}
use wimp.HashString.Iterate.{iterate_all-flatten}

abbrev pub client : Bytes
client = 0x63 ∷ []

abbrev pub server : Bytes
server = 0x73 ∷ []

abbrev logger : Bytes
logger = 0x6c ∷ []

abbrev pub one_chain : HashString ℕ
one_chain = record {
  size = 1;
  table = (record { key = client; value = 1 } ∷ record { key = server; value = 2 } ∷ []) ∷ [];
}

abbrev two_chains : HashString ℕ
two_chains = record {
  size = 2;
  table =
      (record { key = client; value = 1 } ∷ []) ∷ (record { key = server; value = 2 } ∷ []) ∷ [];
}

-- The first table without its first entry.
abbrev one_left : HashString ℕ
one_left = record { size = 1; table = (record { key = server; value = 2 } ∷ []) ∷ [] }

one_chain_unique : (i : ℕ) → UniqueKeys (get_or one_chain.table i [])
unfolding find_chain text_eq
one_chain_unique ℕ.zero = (refl, (refl, tt))
one_chain_unique (ℕ.suc i) = tt

pub one_chain-IsValid : IsValid one_chain
one_chain-IsValid = record { sized = refl; positive = omega arith; unique = one_chain_unique }

add-AddOutcome_example :
    (status : AddStatus) × (h' : HashString ℕ) × (add true true (some one_chain) (some logger) 3
      ≡ (status, some h'))
    × AddOutcome one_chain logger 3 none true status h'
unfolding find find_chain hash text_eq
add-AddOutcome_example = add-AddOutcome true true one_chain logger 3 one_chain-IsValid

remove-none_example : (remove one_chain server ≡ none) ↔ Overruns server (bucket one_chain server)
remove-none_example = remove-none one_chain server

remove-some_example :
    (removed ≡ removed)
    × IsValid one_left
    × ((j : Bytes) → find one_left j ≡ (if text_eq client j then none else find one_chain j))
    × (1 + 1 ≡ 2)
unfolding find find_chain hash text_eq remove flatten
remove-some_example = remove-some one_chain one_left client removed one_chain-IsValid refl

iterate_all-flatten_example :
    iterate_all 3 two_chains ≡ some (record { key = client; value = 1 } ∷ [])
unfolding flatten
iterate_all-flatten_example = iterate_all-flatten 3 two_chains refl (unfold flatten in omega arith)
