-- ===== src/Wire/Bundle.antt =====
-- What wimp_server_bundle_instr writes: the message, byte for byte.
use wimp.Prelude.{
  ℕ, ◌+◌, ◌<◌, ◌^◌, Option, none, some, ◌≡◌, refl, sym, ap, ◌∙◌, arith, [], ◌∷◌, ◌++◌, append_assoc,
  append-nil, ltb, lt→ltb, if◌then◌else◌, length, drop, length-append, length-drop, drop-all,
}
use wimp.Prelude.Bytes.{Bytes, c_string, le32, length-le32, memcpy, memcpy-append}
use wimp.Wire.{InstrBundle, bundle_size, bundle_fill, bundle_into, bundle_instr}

-- TOTAL_BYTES DEST\0 SOURCE\0 INSTRUCTION\0 ARG_BYTES ARGS
unfoldable pub message : Bytes → Bytes → Bytes → Bytes → Bytes
message process dest instr args =
    le32 (bundle_size process dest instr args)
    ++ (c_string dest ++ (c_string process ++ (c_string instr ++ (le32 (length args) ++ args))))

pub length-message :
    (process dest instr args : Bytes)
    → length (message process dest instr args)
      ≡ length process + length dest + length instr + length args + 11
unfolding message
length-message process dest instr args =
    let t = le32 (bundle_size process dest instr args) in
    let l = le32 (length args) in
    omega (
      arith,
      length-append t (c_string dest ++ (c_string process ++ (c_string instr ++ (l ++ args)))),
      length-append (c_string dest) (c_string process ++ (c_string instr ++ (l ++ args))),
      length-append (c_string process) (c_string instr ++ (l ++ args)),
      length-append (c_string instr) (l ++ args),
      length-append l args,
      length-append dest (0 ∷ []),
      length-append process (0 ∷ []),
      length-append instr (0 ∷ []),
      length-le32 (bundle_size process dest instr args),
      length-le32 (length args),
    )

-- A block that begins with `front` and has `room` bytes left.
abbrev Filled : Bytes → ℕ → Bytes → Type 0
Filled front room block = (back : Bytes) × (block ≡ front ++ back) × (length back ≡ room)

-- A copy to the end of what is filled.
fill_next :
    (front block bytes : Bytes) (room offset : ℕ)
    → Filled front (length bytes + room) block
    → offset ≡ length front
    → (block' : Bytes) × (memcpy block offset bytes ≡ some block')
      × Filled (front ++ bytes) room block'
fill_next front block bytes room offset (back, e, n) at = (
  (front ++ bytes) ++ drop (length bytes) back,
  rw e (memcpy-append front back bytes offset at (omega arith)),
  (drop (length bytes) back, refl, omega (arith, length-drop (length bytes) back)),
)

-- The last copy is skipped where there is nothing to copy.
fill_last :
    (front block args : Bytes) (offset : ℕ)
    → Filled front (length args) block
    → offset ≡ length front
    → (if ltb 0 (length args) then memcpy block offset args else some block) ≡ some (front ++ args)
fill_last front block [] offset ([], e, n) at = ap some e
fill_last front block [] offset (c ∷ back, e, n) at = absurd (omega arith)
fill_last front block (a ∷ args) offset (back, e, n) at =
    let out : drop (length (a ∷ args)) back ≡ [] =
      drop-all (length (a ∷ args)) back (omega arith) in
    rw (e, lt→ltb 0 (length (a ∷ args)) (omega arith))
      (memcpy-append front back (a ∷ args) offset at (omega arith)
        ∙ ap some (ap (λ r. (front ++ a ∷ args) ++ r) out ∙ append-nil (front ++ a ∷ args)))

-- A block of the right size is filled with the message, whatever it held.
bundle_fill-message :
    (raw process dest instr args : Bytes)
    → length raw ≡ length process + length dest + length instr + length args + 11
    → bundle_fill raw (bundle_size process dest instr args) process dest instr args
      ≡ some (message process dest instr args)
unfolding bundle_fill message
bundle_fill-message raw process dest instr args fits =
    let t = le32 (bundle_size process dest instr args) in
    let l = le32 (length args) in
    let lt = length-le32 (bundle_size process dest instr args) in
    let ll = length-le32 (length args) in
    let d = length-append dest (0 ∷ []) in
    let p = length-append process (0 ∷ []) in
    let i = length-append instr (0 ∷ []) in
    let f2 : Bytes = t ++ c_string dest in
    let f3 : Bytes = f2 ++ c_string process in
    let f4 : Bytes = f3 ++ c_string instr in
    let n2 = length-append t (c_string dest) in
    let n3 = length-append f2 (c_string process) in
    let n4 = length-append f3 (c_string instr) in
    let n5 = length-append f4 l in
    let (b1, e1, w1) = fill_next [] raw t _ 0 (raw, refl, fits ∙ split lt d p i ll) refl in
    let (b2, e2, w2) = fill_next t b1 (c_string dest) _ 4 w1 (omega arith) in
    let (b3, e3, w3) =
      fill_next f2 b2 (c_string process) _ (4 + (length dest + 1)) w2 (omega arith) in
    let (b4, e4, w4) =
      fill_next f3 b3 (c_string instr) _ (4 + (length dest + 1) + (length process + 1)) w3
        (omega arith) in
    let (b5, e5, w5) =
      fill_next f4 b4 l _ (4 + (length dest + 1) + (length process + 1) + (length instr + 1)) w4
        (omega arith) in
    rw (e1, e2, e3, e4, e5)
      (fill_last (f4 ++ l) b5 args _ w5 (omega arith) ∙ ap some (simp append_assoc))
  where
    split :
        length (le32 (bundle_size process dest instr args)) ≡ 4
        → length (c_string dest) ≡ length dest + 1
        → length (c_string process) ≡ length process + 1
        → length (c_string instr) ≡ length instr + 1
        → length (le32 (length args)) ≡ 4
        → length process + length dest + length instr + length args + 11
          ≡ length (le32 (bundle_size process dest instr args))
            + (length (c_string dest)
                + (length (c_string process)
                    + (length (c_string instr) + (length (le32 (length args)) + length args))))
    split a b c d e = omega arith

pub bundle_size-eq :
    (process dest instr args : Bytes)
    → length process + length dest + length instr + length args + 11 < 2 ^ 64
    → bundle_size process dest instr args
      ≡ length process + length dest + length instr + length args + 11
unfolding bundle_size
bundle_size-eq process dest instr args fits = omega arith

-- The outcome for a block or its absence.
abbrev pub bundle_of : Option Bytes → Bytes → InstrBundle
bundle_of none content = record { instr = none; size = 0 }
bundle_of (some _) content = record { instr = some content; size = length content }

bundle_into-message :
    (block : Option Bytes) (process dest instr args : Bytes)
    → ((raw : Bytes) → block ≡ some raw → length raw ≡ length (message process dest instr args))
    → length (message process dest instr args) < 2 ^ 64
    → bundle_into block (bundle_size process dest instr args) process dest instr args
      ≡ some (bundle_of block (message process dest instr args))
unfolding bundle_into
bundle_into-message none process dest instr args sized fits = refl
bundle_into-message (some raw) process dest instr args sized fits =
    let n = length-message process dest instr args in
    let total : bundle_size process dest instr args ≡ length (message process dest instr args) =
      bundle_size-eq process dest instr args (omega arith) ∙ sym n in
    rw (bundle_fill-message raw process dest instr args (sized raw refl ∙ n))
      (ap (λ t. some (record { instr = some (message process dest instr args); size = t })) total)

-- wimp_server_bundle_instr: where the allocation fails the bundle is empty; otherwise no copy leaves
-- the block, and its content is the message, at its length.
pub bundle_instr-message :
    (malloc : ℕ → Option Bytes) (process dest instr args : Bytes)
    → ((n : ℕ) (raw : Bytes) → malloc n ≡ some raw → length raw ≡ n)
    → length (message process dest instr args) < 2 ^ 64
    → bundle_instr malloc process dest instr args
      ≡ some (
          bundle_of
            (malloc (length (message process dest instr args)))
            (message process dest instr args))
unfolding bundle_instr
bundle_instr-message malloc process dest instr args sized fits =
    let n = length-message process dest instr args in
    let total : bundle_size process dest instr args ≡ length (message process dest instr args) =
      bundle_size-eq process dest instr args (omega arith) ∙ sym n in
    rw (← total) (
      bundle_into-message (malloc (bundle_size process dest instr args)) process dest instr args
        (λ raw e. sized _ raw e ∙ total) fits)
