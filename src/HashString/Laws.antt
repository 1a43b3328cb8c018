-- ===== src/HashString/Laws.antt =====
-- The table as a map from keys to values: what `create`, `find`, `add` and `remove` do to it.
use wimp.Prelude.{
  ◌+◌, ◌↔◌, ℕ, ◌≡◌, ◌<◌, refl, ap, sym, ◌∙◌, arith, Option, none, some, [], ◌∷◌, Bool, true, false,
  ◌&&◌, ◌==◌, ==_iff, if◌then◌else◌, ◌>>=◌, is_some, Bool-cases, Option-cases, inl, inr, length,
  get_or, set, replicate, get_or-set_self, get_or-set_ne, length-set, get_or-replicate,
  length-replicate,
}
use wimp.Prelude.Bytes.{Bytes, text_eq, text_eq_iff}
use wimp.HashString.{
  Entry, Chain, HashString, create, hash, find_chain, bucket, find, insert, add, remove, AddStatus,
  added, key_exists, malloc_failed, RemoveStatus, removed, not_found,
}
use wimp.HashString.Count.{found, entry_count, length-flatten-set, length-erase_chain}
use wimp.HashString.Chains.{
  UniqueKeys, erase_chain, removal, remove_chain-removal, removal-erase, removal-none, Overruns,
  find_chain-erase_chain, erase_chain-UniqueKeys,
}

hash-lt : (size : ℕ) (key : Bytes) → 0 < size → hash size key < size
unfolding hash
hash-lt size key h = grind arith

module _ {ℓ} {V : Type ℓ} where
  -- The array has as many chains as the table says, at least one, and no chain has a key twice.
  pub record IsValid (h : HashString V) : Type ℓ where
    pub sized : length h.table ≡ h.size
    pub positive : 0 < h.size
    pub unique : (i : ℕ) → UniqueKeys (get_or h.table i [])

  abbrev home : HashString V → Bytes → ℕ
  home h key = hash h.size key

  -- The table with another chain in the place of the key's own.
  abbrev pub with_bucket : HashString V → Bytes → Chain V → HashString V
  with_bucket h key c = record h { table = set h.table (hash h.size key) c }

  module _ (h : HashString V) (key : Bytes) (c : Chain V) (valid : IsValid h) where
    within : hash h.size key < length h.table
    within = omega (arith, hash-lt h.size key valid.positive, valid.sized)

    -- A write to the chain of `key` is seen by the keys of that chain only.
    bucket-with_bucket :
        (j : Bytes)
        → bucket (with_bucket h key c) j
          ≡ (if hash h.size key == hash h.size j then c else bucket h j)
    bucket-with_bucket j = elim (Bool-cases (hash h.size key == hash h.size j)) [
      | inl e ↦
          let same = (==_iff (hash h.size key) (hash h.size j)).0 e in
          rw (e, ← same) (get_or-set_self h.table (hash h.size key) c [] within)
      | inr e ↦ rw e (
          get_or-set_ne h.table (hash h.size key) (hash h.size j) c []
            (λ same. cc ((==_iff (hash h.size key) (hash h.size j)).1 same)))
    ]

    with_bucket-IsValid : UniqueKeys c → IsValid (with_bucket h key c)
    with_bucket-IsValid u = record {
      sized = length-set h.table (hash h.size key) c ∙ valid.sized;
      positive = valid.positive;
      unique = λ i. elim (Bool-cases (hash h.size key == i)) [
        | inl e ↦
            rw
              (
                ← (==_iff (hash h.size key) i).0 e,
                get_or-set_self h.table (hash h.size key) c [] within,
              )
              u
        | inr e ↦
            rw
              (get_or-set_ne h.table (hash h.size key) i c []
                (λ same. cc ((==_iff (hash h.size key) i).1 same)))
              (valid.unique i)
      ];
    }

  -- HashString_create, with memory for both parts and a positive size, returns a well-formed table in
  -- which no key is found.
  pub create-IsValid :
      (size : ℕ)
      → 0 < size
      → (h : HashString V) × (create true true size ≡ some h)
        × IsValid h
        × ((j : Bytes) → find h j ≡ none)
  unfolding create find find_chain
  create-IsValid size positive = (
    record { size = size; table = replicate size [] },
    refl,
    record {
      sized = length-replicate size [];
      positive = positive;
      unique = λ i. rw (get_or-replicate {A = Chain V} size i []) tt;
    },
    λ j. rw (get_or-replicate {A = Chain V} size (hash size j) []),
  )

  -- A change of one chain at one key is a change of the map at that key.
  find-with_bucket :
      (h : HashString V) (key : Bytes) (c : Chain V) (v : Option (Entry V))
      → IsValid h
      → ((j : Bytes) → find_chain j c ≡ (if text_eq key j then v else find_chain j (bucket h key)))
      → (j : Bytes) → find (with_bucket h key c) j ≡ (if text_eq key j then v else find h j)
  unfolding find
  find-with_bucket h key c v valid change j =
      rw (bucket-with_bucket h key c valid j)
        (elim (Bool-cases (hash h.size key == hash h.size j)) [
          | inl e ↦
              let same = (==_iff (hash h.size key) (hash h.size j)).0 e in
              rw (e, change j)
                (ap (λ i. if text_eq key j then v else find_chain j (get_or h.table i [])) same)
          | inr e ↦
              let other : text_eq key j ≡ false = elim (Bool-cases (text_eq key j)) [
                | inl same ↦ cc (
                    (==_iff (hash h.size key) (hash h.size j)).1
                      (ap (hash h.size) ((text_eq_iff key j).0 same)))
                | inr ne ↦ ne
              ] in
              rw (e, other)
        ])

  abbrev pub entry : Bytes → V → Entry V
  entry key value = record { key = key; value = value }

  -- What adding a key does, by whether it is there and whether there is memory.
  abbrev pub AddOutcome :
      HashString V → Bytes → V → Option (Entry V) → Bool → AddStatus → HashString V → Type ℓ
  AddOutcome h key value (some old) memory status h' = (status ≡ key_exists) × (h' ≡ h)
  AddOutcome h key value none false status h' = (status ≡ malloc_failed) × (h' ≡ h)
  AddOutcome h key value none true status h' =
      (status ≡ added)
      × IsValid h'
      × ((j : Bytes) → find h' j ≡ (if text_eq key j then some (entry key value) else find h j))
      × (entry_count h' ≡ entry_count h + 1)

  insert-AddOutcome :
      (entry_memory key_memory : Bool) (h : HashString V) (key : Bytes) (value : V)
      → IsValid h
      → find h key ≡ none
      → AddOutcome h key value none
          (entry_memory && key_memory)
          (insert entry_memory key_memory h key value).0
          (insert entry_memory key_memory h key value).1
  unfolding insert
  insert-AddOutcome false key_memory h key value valid absent = (refl, refl)
  insert-AddOutcome true false h key value valid absent = (refl, refl)
  insert-AddOutcome true true h key value valid absent =
      let c : Chain V = entry key value ∷ bucket h key in
      (
        refl,
        with_bucket-IsValid h key c valid (unfold find in absent, valid.unique (hash h.size key)),
        find-with_bucket h key c (some (entry key value)) valid (λ j. unfold find_chain in refl),
        omega (arith, length-flatten-set h.table (hash h.size key) c (within h key c valid)),
      )

  -- HashString_add on a table and a key. A key that is there is left with its value, without memory
  -- nothing changes, and otherwise the key gets the value, no other key is affected, and the table
  -- has one entry more.
  pub add-AddOutcome :
      (entry_memory key_memory : Bool) (h : HashString V) (key : Bytes) (value : V)
      → IsValid h
      → (status : AddStatus) × (h' : HashString V) × (add entry_memory key_memory
            (some h)
            (some key)
            value
          ≡ (status, some h'))
        × AddOutcome h key value (find h key) (entry_memory && key_memory) status h'
  unfolding add
  add-AddOutcome entry_memory key_memory h key value valid = elim (Option-cases (find h key)) [
    | inr (old, e) ↦ (key_exists, h, rw (e, add), rw e (refl, refl))
    | inl e ↦ (
      (insert entry_memory key_memory h key value).0,
      (insert entry_memory key_memory h key value).1,
      rw (e, add),
      rw e (insert-AddOutcome entry_memory key_memory h key value valid e),
    )
  ]

  remove-removal :
      (h : HashString V) (key : Bytes)
      → remove h key
        ≡ (removal key (bucket h key) >>= λ outcome. some (outcome.0, with_bucket h key outcome.1))
  unfolding remove
  remove-removal h key = rw (remove_chain-removal key (bucket h key))

  -- HashString_remove reads through NULL exactly where the chain of the key has two entries or more,
  -- the first one has another key, and the key is not behind the second one.
  pub remove-none :
      (h : HashString V) (key : Bytes) → (remove h key ≡ none) ↔ Overruns key (bucket h key)
  remove-none h key = elim (Option-cases (removal key (bucket h key))) [
    | inl e ↦ (λ _. (removal-none key (bucket h key)).0 e, λ _. remove-removal h key ∙ rw e)
    | inr (outcome, e) ↦ (
      λ gone. cc (rw e at (remove-removal h key), gone),
      λ over. cc ((removal-none key (bucket h key)).1 over, e),
    )
  ]

  -- Where HashString_remove ends, the key is gone, no other key is affected, the status says
  -- whether the key was there, and the table has one entry less if it was.
  pub remove-some :
      (h h' : HashString V) (key : Bytes) (status : RemoveStatus)
      → IsValid h
      → remove h key ≡ some (status, h')
      → (status ≡ (if is_some (find h key) then removed else not_found))
        × IsValid h'
        × ((j : Bytes) → find h' j ≡ (if text_eq key j then none else find h j))
        × (entry_count h' + found (find h key) ≡ entry_count h)
  remove-some h h' key status valid run = elim (Option-cases (removal key (bucket h key))) [
    | inl e ↦ cc (rw e at (remove-removal h key), run)
    | inr ((status', c), e) ↦
        let unique = valid.unique (hash h.size key) in
        let (ec, es) = removal-erase key (bucket h key) status' c unique e in
        let same = sym run ∙ rw e at (remove-removal h key) in
        let erased : Chain V = erase_chain key (bucket h key) in
        let said : status ≡ status' = cc same in
        let left : h' ≡ with_bucket h key c = cc same in
        rw (left, ec, said)
          (
            (unfold find in es),
            with_bucket-IsValid h key erased valid
                (erase_chain-UniqueKeys key (bucket h key) unique),
            find-with_bucket h key erased none valid
                (λ j. find_chain-erase_chain key j (bucket h key) unique),
            (unfold find in
                omega (
                  arith,
                  length-flatten-set h.table (hash h.size key) erased (within h key erased valid),
                  length-erase_chain key (bucket h key),
                )),
          )
  ]
