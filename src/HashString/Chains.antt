-- ===== src/HashString/Chains.antt =====
-- One chain of the table: what removing a key from it does.
use wimp.Prelude.{
  ◌↔◌, ◌≡◌, refl, ◌∙◌, arith, Option, none, some, [], ◌∷◌, false, if◌then◌else◌, ◌>>=◌, is_some,
  Bool-cases, Option-cases, inl, inr,
}
use wimp.Prelude.Bytes.{Bytes, text_eq, text_eq_iff}
use wimp.HashString.{
  Entry, Chain, find_chain, remove_loop, remove_chain, RemoveStatus, removed, not_found,
}

module _ {ℓ} {V : Type ℓ} where
  -- The chain less the first entry with the key.
  unfoldable pub erase_chain : Bytes → Chain V → Chain V
  erase_chain key [] = []
  erase_chain key (e ∷ rest) = if text_eq e.key key then rest else e ∷ erase_chain key rest

  -- No key stands twice in the chain.
  abbrev pub UniqueKeys : Chain V → Type ℓ
  UniqueKeys [] = Unit
  UniqueKeys (e ∷ rest) = (find_chain e.key rest ≡ none) × UniqueKeys rest

  -- The loop finds the key only behind the entry that it starts at, and reads through NULL if the
  -- key is not there.
  remove_loop-eq :
      (key : Bytes) (prev : Entry V) (rest : Chain V)
      → remove_loop key (prev ∷ rest)
        ≡ (find_chain key rest >>= λ _. some (removed, prev ∷ erase_chain key rest))
  unfolding remove_loop find_chain erase_chain
  remove_loop-eq key prev [] = refl
  remove_loop-eq key prev (curr ∷ rest) = elim (Bool-cases (text_eq curr.key key)) [
    | inl e ↦ rw e
    | inr e ↦
        rw (e, remove_loop-eq key curr rest)
          (elim (Option-cases (find_chain key rest)) [ inl e' ↦ rw e' | inr (found, e') ↦ rw e' ])
  ]

  -- What `remove` does to a chain, by the place where the key stands.
  abbrev pub removal : Bytes → Chain V → Option (RemoveStatus × Chain V)
  removal key [] = some (not_found, [])
  removal key (e ∷ []) = if text_eq e.key key then some (removed, []) else some (not_found, e ∷ [])
  removal key (e ∷ (f ∷ rest)) =
      if text_eq e.key key
      then some (removed, f ∷ rest)
      else (find_chain key rest >>= λ _. some (removed, e ∷ (f ∷ erase_chain key rest)))

  pub remove_chain-removal : (key : Bytes) (c : Chain V) → remove_chain key c ≡ removal key c
  unfolding remove_chain
  remove_chain-removal key [] = refl
  remove_chain-removal key (e ∷ []) = elim (Bool-cases (text_eq e.key key)) [
    | inl h ↦ rw h
    | inr h ↦ rw h
  ]
  remove_chain-removal key (e ∷ (f ∷ rest)) = elim (Bool-cases (text_eq e.key key)) [
    | inl h ↦ rw h
    | inr h ↦
        rw (h, remove_loop-eq key f rest)
          (elim (Option-cases (find_chain key rest)) [ inl e' ↦ rw e' | inr (found, e') ↦ rw e' ])
  ]

  -- Lookups after an entry is gone from a chain without duplicates.
  pub find_chain-erase_chain :
      (key j : Bytes) (c : Chain V)
      → UniqueKeys c
      → find_chain j (erase_chain key c) ≡ (if text_eq key j then none else find_chain j c)
  unfolding find_chain erase_chain
  find_chain-erase_chain key j [] u = ground arith
  find_chain-erase_chain key j (e ∷ c) (out, u) = ground (
    arith,
    find_chain-erase_chain key j c u,
    text_eq_iff e.key key,
    text_eq_iff key j,
    text_eq_iff e.key j,
  )

  pub erase_chain-UniqueKeys :
      (key : Bytes) (c : Chain V) → UniqueKeys c → UniqueKeys (erase_chain key c)
  unfolding erase_chain
  erase_chain-UniqueKeys key [] u = tt
  erase_chain-UniqueKeys key (e ∷ c) (out, u) = elim (Bool-cases (text_eq e.key key)) [
    | inl h ↦ rw h u
    | inr h ↦ rw h (
      find_chain-erase_chain key e.key c u ∙ rw out (ground arith),
      erase_chain-UniqueKeys key c u,
    )
  ]

  pub erase_chain-absent :
      (key : Bytes) (c : Chain V) → find_chain key c ≡ none → erase_chain key c ≡ c
  unfolding erase_chain find_chain
  erase_chain-absent key [] h = refl
  erase_chain-absent key (e ∷ c) h = ground (arith, erase_chain-absent key c)

  -- Behind two entries without the key, the chain ends well only if the key is there.
  found_behind :
      (key : Bytes) (e f : Entry V) (rest : Chain V) (status : RemoveStatus) (c' : Chain V)
      → ◌>>=◌ {B = RemoveStatus × Chain V}
          (find_chain key rest)
          (λ _. some (removed, e ∷ (f ∷ erase_chain key rest)))
        ≡ some (status, c')
      → (found : Entry V) × (find_chain key rest ≡ some found)
        × (status ≡ removed)
        × (c' ≡ e ∷ (f ∷ erase_chain key rest))
  found_behind key e f rest status c' h = elim (Option-cases (find_chain key rest)) [
    | inl absent ↦ cc (rw absent at h)
    | inr (found, at) ↦ let h' = rw at at h in (found, at, cc, cc)
  ]

  -- Where `remove` ends on a chain, it took out the key if it was there, and said so.
  pub removal-erase :
      (key : Bytes) (c : Chain V) (status : RemoveStatus) (c' : Chain V)
      → UniqueKeys c
      → removal key c ≡ some (status, c')
      → (c' ≡ erase_chain key c)
        × (status ≡ (if is_some (find_chain key c) then removed else not_found))
  unfolding erase_chain find_chain
  removal-erase key [] status c' u h = (cc, cc)
  removal-erase key (e ∷ []) status c' u h = ground arith
  removal-erase key (e ∷ (f ∷ rest)) status c' u h = elim (Bool-cases (text_eq e.key key)) [
    | inl hit ↦ let h' = rw hit at h in rw hit (cc, cc)
    | inr miss ↦
        let (found, at, es, ec) = found_behind key e f rest status c' (rw miss at h) in
        let other : text_eq f.key key ≡ false = elim (Bool-cases (text_eq f.key key)) [
          | inl same ↦ cc (u.1.0, (text_eq_iff f.key key).0 same)
          | inr ne ↦ ne
        ] in
        rw (miss, other, at) (ec, es)
  ]

  -- The cases in which `remove` reads through NULL: the first entry has another key, there is a
  -- second one, and the key is not behind that.
  abbrev pub Overruns : Bytes → Chain V → Type 0
  Overruns key [] = ⊥
  Overruns key (e ∷ []) = ⊥
  Overruns key (e ∷ (f ∷ rest)) =
      (text_eq e.key key ≡ false) × (is_some (find_chain key rest) ≡ false)

  pub removal-none : (key : Bytes) (c : Chain V) → (removal key c ≡ none) ↔ Overruns key c
  removal-none key [] = (λ h. cc, λ h. absurd h)
  removal-none key (e ∷ []) = (λ h. ground arith, λ h. absurd h)
  removal-none key (e ∷ (f ∷ rest)) = (λ h. ground arith, λ (miss, absent). ground arith)
