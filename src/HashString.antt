-- ===== src/HashString.antt =====
-- The string hash table of wimp/src/utility/HashString.c, as the repository edited it: values are
-- opaque, the table is an array of chains, and a new entry goes to the front of its chain.
-- A pointer to an entry is the rest of its chain from that entry on; NULL is the empty chain.
-- `none` of `Option (...)` as a result is a read through NULL.
pub mod Chains
pub mod Count
pub mod Iterate
pub mod Laws
use Prim.Native.Nat.{bit_xor}
use wimp.Prelude.{
  drop, ℕ, zero, suc, ◌+◌, ◌-◌, ◌*◌, ◌%◌, ◌^◌, Option, none, some, List, [], ◌∷◌, ◌++◌, Bool, true,
  false, ltb, if◌then◌else◌, ◌&&◌, ◌>>=◌, get_or, set, replicate, length,
}
use wimp.Prelude.Bytes.{Bytes, text_eq}

-- HashStringEntry; the key is the copy that `add` makes.
pub record Entry {ℓ} (V : Type ℓ) : Type ℓ where
  pub key : Bytes
  pub value : V

abbrev pub Chain {ℓ} : Type ℓ → Type ℓ
Chain V = List (Entry V)

pub record HashString {ℓ} (V : Type ℓ) : Type ℓ where
  pub size : ℕ
  pub table : List (Chain V)

-- The two allocations of `create` succeed or fail.
unfoldable pub create {ℓ} : {V : Type ℓ} → (container table : Bool) → ℕ → Option (HashString V)
create false table size = none
create true false size = none
create true true size = some (record { size = size; table = replicate size [] })

abbrev fnv_offset_basis : ℕ
fnv_offset_basis = 0x811C9DC5

abbrev fnv_prime : ℕ
fnv_prime = 0x01000193

-- One round of FNV-1a: xor with the byte, then multiply, in 32 bits.
unfoldable pub fnv_loop : ℕ → Bytes → ℕ
fnv_loop value [] = value
fnv_loop value (c ∷ key) = fnv_loop (bit_xor value c * fnv_prime % 2 ^ 32) key

-- HashString_hash for a table of this size.
unfoldable pub hash : ℕ → Bytes → ℕ
unfolding fnv_loop
hash size key = fnv_loop fnv_offset_basis key % size

-- 0, 1, 2 and 3 of HashString_add.
pub data AddStatus : Type 0 where
  added key_exists malloc_failed null_pointer : AddStatus

-- 0 and 1 of HashString_remove.
pub data RemoveStatus : Type 0 where
  removed not_found : RemoveStatus

module _ {ℓ} {V : Type ℓ} where
  unfoldable pub find_chain : Bytes → Chain V → Option (Entry V)
  find_chain key [] = none
  find_chain key (e ∷ rest) = if text_eq e.key key then some e else find_chain key rest

  abbrev pub bucket : HashString V → Bytes → Chain V
  bucket h key = get_or h.table (hash h.size key) []

  unfoldable pub find : HashString V → Bytes → Option (Entry V)
  unfolding find_chain
  find h key = find_chain key (bucket h key)

  -- The new entry, and whether there was memory for it and for its key.
  unfoldable pub insert :
      (entry key_copy : Bool) → HashString V → Bytes → V → AddStatus × HashString V
  insert false key_copy h key value = (malloc_failed, h)
  insert true false h key value = (malloc_failed, h)
  insert true true h key value = (
    added,
    record h {
      table = set h.table (hash h.size key) (record { key = key; value = value } ∷ bucket h key);
    },
  )

  unfoldable pub add :
      (entry key_copy : Bool)
      → Option (HashString V)
      → Option Bytes
      → V
      → AddStatus × Option (HashString V)
  add entry key_copy none key value = (null_pointer, none)
  add entry key_copy (some h) none value = (null_pointer, some h)
  add entry key_copy (some h) (some key) value = elim (find h key) [
    | some _ ↦ (key_exists, some h)
    | none ↦ let (status, h') = insert entry key_copy h key value in (status, some h')
  ]

  -- The loop of `remove`, from the second entry on: each round steps on before it compares, and does
  -- not look whether there is an entry to compare with.
  unfoldable pub remove_loop : Bytes → Chain V → Option (RemoveStatus × Chain V)
  remove_loop key [] = some (not_found, [])
  remove_loop key (prev ∷ []) = none
  remove_loop key (prev ∷ (curr ∷ rest)) =
      let onwards = remove_loop key (curr ∷ rest) in
      if text_eq curr.key key
      then some (removed, prev ∷ rest)
      else (onwards >>= λ (status, chain). some (status, prev ∷ chain))

  unfoldable pub remove_chain : Bytes → Chain V → Option (RemoveStatus × Chain V)
  unfolding remove_loop
  remove_chain key [] = some (not_found, [])
  remove_chain key (first ∷ rest) =
      if text_eq first.key key
      then some (removed, rest)
      else (remove_loop key rest >>= λ (status, chain). some (status, first ∷ chain))

  unfoldable pub remove : HashString V → Bytes → Option (RemoveStatus × HashString V)
  unfolding remove_chain
  remove h key = do
    outcome ← remove_chain key (bucket h key)
    some (outcome.0, record h { table = set h.table (hash h.size key) outcome.1 })

  -- `for ( ; i < size && entry == NULL; ++i ) entry = table[i]`, with `rest` the buckets from `i` on.
  unfoldable pub next_bucket : List (Chain V) → ℕ → Chain V × ℕ
  next_bucket [] i = ([], i)
  next_bucket ([] ∷ rest) i = next_bucket rest (i + 1)
  next_bucket ((e ∷ chain) ∷ rest) i = (e ∷ chain, i + 1)

  -- The caller's entry is NULL.
  unfoldable pub first_entry : HashString V → Chain V × ℕ
  unfolding next_bucket
  first_entry h = next_bucket h.table 0

  unfoldable pub next_entry : HashString V → Chain V → ℕ → Chain V × ℕ
  unfolding next_bucket
  next_entry h [] i = ([], h.size)
  next_entry h (e ∷ (f ∷ rest)) i = (f ∷ rest, i)
  next_entry h (e ∷ []) i = next_bucket (drop i h.table) i

  -- HASH_STRING_ITER: the entries that the body of the loop is run for, in order. The loop stops
  -- where `i` has reached the size or the entry is NULL.
  unfoldable pub iterate : ℕ → HashString V → Chain V → ℕ → Option (List (Entry V))
  iterate zero h entry i = none
  iterate (suc rounds) h [] i = some []
  iterate (suc rounds) h (e ∷ rest) i =
      let onwards = (let (entry, j) = next_entry h (e ∷ rest) i in iterate rounds h entry j) in
      if ltb i h.size then (onwards >>= λ seen. some (e ∷ seen)) else some []

  unfoldable pub iterate_all : ℕ → HashString V → Option (List (Entry V))
  iterate_all rounds h = let (entry, i) = first_entry h in iterate rounds h entry i
