-- ===== src/HashString/Iterate.antt =====
-- Which entries HASH_STRING_ITER visits (HashString_firstEntry, HashString_nextEntry and the macro
-- of wimp/src/utility/HashString.h).
use wimp.Prelude.{
  ℕ, zero, suc, ◌+◌, ◌-◌, ◌≡◌, ◌<◌, ◌≤◌, refl, ap, sym, ◌∙◌, arith, some, List, [], ◌∷◌, ◌++◌,
  false, ltb, lt→ltb, length, drop, take, drop-drop, length-append,
}
use mathlib.Core.List.{flatten}
use wimp.HashString.{
  Entry, Chain, HashString, next_bucket, first_entry, next_entry, iterate, iterate_all,
}

module _ {ℓ} {V : Type ℓ} where
  -- The entries of all buckets but the last.
  unfoldable pub but_last : List (Chain V) → List (Entry V)
  but_last [] = []
  but_last (b ∷ []) = []
  but_last (b ∷ (c ∷ rest)) = b ++ but_last (c ∷ rest)

  -- What the loop visits from an entry on, with the buckets behind its own.
  abbrev visit : Chain V → List (Chain V) → List (Entry V)
  visit [] rest = []
  visit (e ∷ c) [] = []
  visit (e ∷ c) (b ∷ rest) = (e ∷ c) ++ but_last (b ∷ rest)

  abbrev total : List (Chain V) → ℕ
  total [] = 0
  total (b ∷ rest) = length b + total rest

  drop-next :
      (i : ℕ) (table : List (Chain V)) (b : Chain V) (rest : List (Chain V))
      → drop i table ≡ b ∷ rest
      → drop (i + 1) table ≡ rest
  drop-next i table b rest e = sym (drop-drop i 1 table) ∙ ap (drop 1) e

  -- The search for the next chain, in the table and in the list that `but_last` reads.
  record Found (table rest : List (Chain V)) (size : ℕ) (c : Chain V) (j : ℕ) : Type ℓ where
    behind : List (Chain V)
    at : drop j table ≡ behind
    counted : j + length behind ≡ size
    weight : length c + total behind ≤ total rest
    same : visit c behind ≡ but_last rest

  next_bucket-Found :
      (table rest : List (Chain V)) (i size : ℕ)
      → drop i table ≡ rest
      → i + length rest ≡ size
      → Found table rest size (next_bucket rest i).0 (next_bucket rest i).1
  unfolding next_bucket but_last
  next_bucket-Found table [] i size at n = record {
    behind = [];
    at = at;
    counted = n;
    weight = omega arith;
    same = refl;
  }
  next_bucket-Found table ([] ∷ []) i size at n = record {
    behind = [];
    at = drop-next i table [] [] at;
    counted = omega arith;
    weight = omega arith;
    same = refl;
  }
  next_bucket-Found table ([] ∷ (c ∷ rest)) i size at n =
      let f =
        next_bucket-Found table (c ∷ rest) (i + 1) size (drop-next i table [] (c ∷ rest) at)
          (omega arith) in
      record {
        behind = f.behind;
        at = f.at;
        counted = f.counted;
        weight = omega (arith, f.weight);
        same = f.same;
      }
  next_bucket-Found table ((e ∷ c) ∷ []) i size at n = record {
    behind = [];
    at = drop-next i table (e ∷ c) [] at;
    counted = omega arith;
    weight = omega arith;
    same = refl;
  }
  next_bucket-Found table ((e ∷ c) ∷ (d ∷ rest)) i size at n = record {
    behind = d ∷ rest;
    at = drop-next i table (e ∷ c) (d ∷ rest) at;
    counted = omega arith;
    weight = omega arith;
    same = refl;
  }

  iterate-visit :
      (rounds : ℕ) (h : HashString V) (c : Chain V) (i : ℕ) (rest : List (Chain V))
      → drop i h.table ≡ rest
      → i + length rest ≡ h.size
      → length c + total rest < rounds
      → iterate rounds h c i ≡ some (visit c rest)
  unfolding iterate next_entry
  iterate-visit zero h c i rest at n room = absurd (omega arith)
  iterate-visit (suc rounds) h [] i rest at n room = refl
  iterate-visit (suc rounds) h (e ∷ c) i [] at n room =
      let out : ltb i h.size ≡ false = ground arith in rw out
  iterate-visit (suc rounds) h (e ∷ (f ∷ c)) i (b ∷ rest) at n room = rw (
    lt→ltb i h.size (omega arith),
    iterate-visit rounds h (f ∷ c) i (b ∷ rest) at n (omega arith),
  )
  iterate-visit (suc rounds) h (e ∷ []) i (b ∷ rest) at n room =
      let f = next_bucket-Found h.table (b ∷ rest) i h.size at n in
      rw (
        lt→ltb i h.size (omega arith),
        at,
        iterate-visit rounds h (next_bucket (b ∷ rest) i).0 (next_bucket (b ∷ rest) i).1 f.behind
            f.at f.counted (omega (arith, f.weight)),
        f.same,
      )

  but_last-flatten : (rest : List (Chain V)) → but_last rest ≡ flatten (take (length rest - 1) rest)
  unfolding but_last flatten
  but_last-flatten [] = refl
  but_last-flatten (b ∷ []) = refl
  but_last-flatten (b ∷ (c ∷ rest)) =
      let n : length (b ∷ (c ∷ rest)) - 1 ≡ suc (length (c ∷ rest) - 1) = omega arith in
      rw (n, but_last-flatten (c ∷ rest))

  total-flatten : (rest : List (Chain V)) → total rest ≡ length (flatten rest)
  unfolding flatten
  total-flatten [] = refl
  total-flatten (b ∷ rest) = omega (arith, total-flatten rest, length-append b (flatten rest))

  -- HASH_STRING_ITER runs its body for the entries of all chains of the table but the last one, each
  -- once and in the order of the table: the index has reached the size when an entry of the last
  -- chain is found, and the loop stops. One round more than there are entries is enough.
  pub iterate_all-flatten :
      (rounds : ℕ) (h : HashString V)
      → length h.table ≡ h.size
      → length (flatten h.table) < rounds
      → iterate_all rounds h ≡ some (flatten (take (h.size - 1) h.table))
  unfolding iterate_all first_entry
  iterate_all-flatten rounds h sized room =
      let f = next_bucket-Found h.table h.table 0 h.size refl (omega arith) in
      rw (
        iterate-visit rounds h (next_bucket h.table 0).0 (next_bucket h.table 0).1 f.behind f.at
            f.counted (omega (arith, f.weight, total-flatten h.table)),
        f.same,
        but_last-flatten h.table,
        sized,
      )
