-- ===== src/HashString/Count.antt =====
-- How many entries a table has.
use mathlib.Core.List.{flatten}
use wimp.Prelude.{
  ℕ, zero, suc, ◌+◌, ◌≡◌, ◌<◌, refl, arith, Option, none, some, List, [], ◌∷◌, Bool-cases, inl, inr,
  length, get_or, set, length-append,
}
use wimp.Prelude.Bytes.{Bytes, text_eq}
use wimp.HashString.{Chain, HashString, find_chain}
use wimp.HashString.Chains.{erase_chain}

abbrev pub entry_count {ℓ} : {V : Type ℓ} → HashString V → ℕ
entry_count h = length (flatten h.table)

abbrev pub found {ℓ} : {A : Type ℓ} → Option A → ℕ
found none = 0
found (some _) = 1

module _ {ℓ} {V : Type ℓ} where
  pub length-flatten-set :
      (table : List (Chain V)) (i : ℕ) (c : Chain V)
      → i < length table
      → length (flatten (set table i c)) + length (get_or table i [])
        ≡ length (flatten table) + length c
  unfolding flatten
  length-flatten-set [] i c h = absurd (omega arith)
  length-flatten-set (b ∷ table) zero c h =
      omega (arith, length-append c (flatten table), length-append b (flatten table))
  length-flatten-set (b ∷ table) (suc i) c h = omega (
    arith,
    length-flatten-set table i c (omega arith),
    length-append b (flatten (set table i c)),
    length-append b (flatten table),
  )

  pub length-erase_chain :
      (key : Bytes) (c : Chain V) → length (erase_chain key c) + found (find_chain key c) ≡ length c
  unfolding erase_chain find_chain
  length-erase_chain key [] = refl
  length-erase_chain key (e ∷ c) = elim (Bool-cases (text_eq e.key key)) [
    | inl h ↦ rw h (omega arith)
    | inr h ↦ rw h (omega (arith, length-erase_chain key c))
  ]
