-- ===== src/Reciever/Copy.antt =====
-- The copying of an instruction out of the packets (READING DATA in wimp_reciever_recieve).
use wimp.Prelude.{
  ℕ, zero, suc, ◌+◌, ◌^◌, ◌≤◌, ◌<◌, ◌≡◌, refl, ap, sym, ◌∙◌, arith, [], ◌∷◌, ◌++◌, true, false,
  ◌==◌, length, drop, ◌⊎◌, ap₂, inl, inr, ==_refl, append_assoc, append-nil, length-append,
  length-drop, cons_parts, drop-all,
}
use wimp.Prelude.Bytes.{Bytes}
use wimp.Reciever.{Link, Got, got, next_packet, copy_loop, chunk_size}
use wimp.Reciever.Packets.{View, Unread, contents, next_packet-Loaded}
use wimp.Reciever.Chunk.{past, chunk-View, copy_chunk-past, chunk_size-wanted, chunk_size-here}

-- Two ways to part a stream: one of the first parts is longer.
parts :
    (here stream xs rest : Bytes)
    → here ++ stream ≡ xs ++ rest
    → ((later : Bytes) × (here ≡ xs ++ later) × (later ++ stream ≡ rest))
      ⊎ ((y : ℕ) × (ys : Bytes) × (xs ≡ here ++ y ∷ ys) × (stream ≡ y ∷ (ys ++ rest)))
parts here stream [] rest e = inl (here, refl, e)
parts [] stream (x ∷ xs) rest e = inr (x, xs, refl, e)
parts (h ∷ here) stream (x ∷ xs) rest e =
    let (same, e') = cons_parts h x (here ++ stream) (xs ++ rest) e in
    elim (parts here stream xs rest e') [
      | inl (later, front, back) ↦ inl (later, ap₂ (λ a r. a ∷ r) same front, back)
      | inr (y, ys, front, back) ↦ inr (y, ys, ap₂ (λ a r. a ∷ r) (sym same) front, back)
    ]

-- What the loop leaves: the instruction complete, and the stream behind it.
abbrev pub Copied : Bytes → Bytes → Got (Bytes × Link) → Type 0
Copied whole rest run = (l' : Link) × (run ≡ got (whole, l')) × Unread l' rest

-- A round at work: it copies, and goes on from there where there is more.
module _ (rounds : ℕ) (l : Link) (done left chunk later : Bytes) (total : ℕ)
    (v : View l (chunk ++ later)) (room : length chunk ≤ length left)
    (count : chunk_size l total (length done) ≡ length chunk)
    (more : (length done == total) ≡ false) where
  abbrev copied : Bytes
  copied = (done ++ chunk) ++ drop (length chunk) left

  copy_loop-last :
      (length done + length chunk == total) ≡ true
      → copy_loop (suc rounds) l (done ++ left) total (length done)
        ≡ got (copied, past l chunk later done left v room)
  unfolding copy_loop
  copy_loop-last end =
      rw (more, count, copy_chunk-past l chunk later done left v room, end, copy_loop) refl

  copy_loop-next :
      (l' : Link)
      → (length done + length chunk == total) ≡ false
      → next_packet (past l chunk later done left v room) ≡ got l'
      → copy_loop (suc rounds) l (done ++ left) total (length done)
        ≡ copy_loop rounds l' copied total (length done + length chunk)
  unfolding copy_loop
  copy_loop-next l' unended next =
      rw (more, count, copy_chunk-past l chunk later done left v room, unended, next, copy_loop)
        refl

-- All that is wanted is here.
copy_loop-within :
    (rounds : ℕ) (l : Link) (done left xs later rest : Bytes)
    → View l (xs ++ later)
    → later ++ contents l.packets ≡ rest
    → length left ≡ length xs
    → length (done ++ xs) < 2 ^ 63
    → 0 < length xs
    → Copied
        (done ++ xs)
        rest
        (copy_loop (suc rounds) l (done ++ left) (length (done ++ xs)) (length done))
copy_loop-within rounds l done left xs later rest v back size small there =
    let more : (length done == length (done ++ xs)) ≡ false =
      ground (arith, length-append done xs) in
    let end : (length done + length xs == length (done ++ xs)) ≡ true =
      ground (arith, length-append done xs) in
    let wanted =
      chunk_size-wanted l (xs ++ later) (length (done ++ xs)) (length done) v
        (omega (arith, length-append done xs)) small
        (omega (arith, length-append done xs, length-append xs later)) in
    let count : chunk_size l (length (done ++ xs)) (length done) ≡ length xs =
      omega (arith, wanted, length-append done xs) in
    let whole : (done ++ xs) ++ drop (length xs) left ≡ done ++ xs =
      ap (λ r. (done ++ xs) ++ r) (drop-all (length xs) left (omega arith))
      ∙ append-nil (done ++ xs) in
    let run =
      copy_loop-last rounds l done left xs later (length (done ++ xs)) v (omega arith) count more
        end in
    (
      past l xs later done left v (omega arith),
      run ∙ ap (λ (w : Bytes). got (w, past l xs later done left v (omega arith))) whole,
      record {
        here = later;
        view = chunk-View l xs later done left v (omega arith);
        stream = back;
      },
    )

-- There is more to come, from `l'` on.
module _ (rounds : ℕ) (l l' : Link) (done left here ys rest : Bytes) (v : View l here)
    (size : length left ≡ length (here ++ ys)) (there : 0 < length ys) where
  copy_loop-onward :
      length (done ++ (here ++ ys)) < 2 ^ 63
      → (room : length here ≤ length left) → (v' : View l (here ++ []))
      → next_packet (past l here [] done left v' room) ≡ got l'
      → Copied ((done ++ here) ++ ys) rest (
          copy_loop rounds l'
            ((done ++ here) ++ drop (length here) left)
            (length ((done ++ here) ++ ys))
            (length (done ++ here)))
      → Copied
          (done ++ (here ++ ys))
          rest
          (copy_loop (suc rounds) l (done ++ left) (length (done ++ (here ++ ys))) (length done))
  copy_loop-onward small room v' next goes =
      let total : length (done ++ (here ++ ys)) ≡ length done + (length here + length ys) =
        omega (arith, length-append done (here ++ ys), length-append here ys) in
      let more : (length done == length (done ++ (here ++ ys))) ≡ false = ground (arith, total) in
      let unended : (length done + length here == length (done ++ (here ++ ys))) ≡ false =
        ground (arith, total) in
      let count =
        chunk_size-here l here (length (done ++ (here ++ ys))) (length done) v
          (omega (arith, total)) small (omega (arith, total)) in
      let run =
        copy_loop-next rounds l done left here [] (length (done ++ (here ++ ys))) v' room count more
          l' unended next in
      let (end, run', u') = rw (append_assoc done here ys, length-append done here) at goes in
      (end, run ∙ run', u')

-- A run of so many rounds copies what the packets hold.
abbrev pub Copies : ℕ → Type 0
Copies rounds =
    (l : Link) (done left xs rest : Bytes)
    → Unread l (xs ++ rest)
    → length left ≡ length xs
    → length (done ++ xs) < 2 ^ 63
    → length l.packets < rounds
    → Copied (done ++ xs) rest
        (copy_loop rounds l (done ++ left) (length (done ++ xs)) (length done))

-- A part of what is wanted is here, and the rest comes with later packets.
copy_loop-across :
    (rounds : ℕ)
    → Copies rounds
    → (l : Link) (done left here rest : Bytes) (y : ℕ) (ys : Bytes) → View l here
    → contents l.packets ≡ y ∷ (ys ++ rest)
    → length left ≡ length (here ++ y ∷ ys)
    → length (done ++ (here ++ y ∷ ys)) < 2 ^ 63
    → length l.packets < suc rounds
    → Copied
        (done ++ (here ++ y ∷ ys))
        rest
        (copy_loop (suc rounds) l (done ++ left) (length (done ++ (here ++ y ∷ ys))) (length done))
copy_loop-across rounds copies l done left here rest y ys v back size small room =
    let v' : View l (here ++ []) = rw (append-nil here) v in
    let fits : length here ≤ length left = omega (arith, length-append here (y ∷ ys)) in
    let (l', next, loaded) =
      next_packet-Loaded (past l here [] done left v' fits) y (ys ++ rest) v.good back in
    let u : Unread l' ((y ∷ ys) ++ rest) = record {
      here = y ∷ loaded.here;
      view = loaded.view;
      stream = ap (λ r. y ∷ r) loaded.stream;
    } in
    copy_loop-onward rounds l l' done left here (y ∷ ys) rest v size (omega arith) small fits v'
      next
      (copies l' (done ++ here) (drop (length here) left) (y ∷ ys) rest u
        (omega (arith, length-drop (length here) left, length-append here (y ∷ ys)))
        (omega (arith, ap length (append_assoc done here (y ∷ ys)))) (omega (arith, loaded.fewer)))

copy_loop-done :
    (rounds : ℕ) (l : Link) (instr : Bytes) (total : ℕ)
    → copy_loop (suc rounds) l instr total total ≡ got (instr, l)
unfolding copy_loop
copy_loop-done rounds l instr total = rw (==_refl total, copy_loop) refl

-- The buffer's end is behind the instruction's, or in it.
copy_loop-either :
    (rounds : ℕ)
    → Copies rounds
    → (l : Link) (done left xs rest here : Bytes) → View l here
    → here ++ contents l.packets ≡ xs ++ rest
    → length left ≡ length xs
    → length (done ++ xs) < 2 ^ 63
    → length l.packets < suc rounds
    → 0 < length xs
    → Copied
        (done ++ xs)
        rest
        (copy_loop (suc rounds) l (done ++ left) (length (done ++ xs)) (length done))
copy_loop-either rounds copies l done left xs rest here v stream size small room there =
    elim (parts here (contents l.packets) xs rest stream) [
      | inl (later, front, back) ↦
          copy_loop-within rounds l done left xs later rest (rw front at v) back size small there
      | inr (y, ys, front, back) ↦ rw front (
          copy_loop-across rounds copies l done left here rest y ys v back (rw front at size)
            (rw front at small) room)
    ]

pub copy_loop-Copied : (rounds : ℕ) → Copies rounds
copy_loop-Copied zero l done left xs rest u size small room = absurd (omega arith)
copy_loop-Copied (suc rounds) l done [] [] rest u size small room =
    rw (append-nil done) (l, copy_loop-done rounds l done (length done), u)
copy_loop-Copied (suc rounds) l done (c ∷ left) [] rest u size small room = absurd (omega arith)
copy_loop-Copied (suc rounds) l done left (x ∷ xs) rest u size small room =
    copy_loop-either rounds (copy_loop-Copied rounds) l done left (x ∷ xs) rest u.here u.view
      u.stream size small room (omega arith)
