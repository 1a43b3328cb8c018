-- ===== src/Reciever/Chunk.antt =====
-- A chunk of an instruction, copied out of the packet at hand (READING DATA in
-- wimp_reciever_recieve).
use wimp.Prelude.{
  ℕ, ◌+◌, ◌-◌, ◌%◌, ◌^◌, ◌≤◌, ◌<◌, ◌≡◌, refl, ap, sym, ◌∙◌, arith, some, ◌++◌, true, false, ltb,
  leb, length, take, drop, append_assoc, length-append, take-append, drop-append,
}
use wimp.Prelude.Bytes.{Bytes, memcpy, memcpy-append}
use wimp.Reciever.{Link, got, copy_chunk, chunk_size, sub64}
use wimp.Reciever.Packets.{View}

-- What one round does with a chunk of the packet at hand.
module _ (l : Link) (chunk later done left : Bytes) (v : View l (chunk ++ later))
    (room : length chunk ≤ length left) where
  chunk_there : leb (l.rec_offset + length chunk) (length l.recbuffer) ≡ true
  chunk_there = ground (
    arith,
    v.offset,
    ap length v.shape,
    length-append v.front ((chunk ++ later) ++ v.back),
    length-append (chunk ++ later) v.back,
    length-append chunk later,
  )

  chunk_bytes : take (length chunk) (drop l.rec_offset l.recbuffer) ≡ chunk
  chunk_bytes =
      ap (λ r. take (length chunk) (drop l.rec_offset r)) v.shape
      ∙ ap (take (length chunk)) (
          drop-append l.rec_offset v.front ((chunk ++ later) ++ v.back) v.offset
          ∙ append_assoc chunk later v.back)
      ∙ take-append (length chunk) chunk (later ++ v.back) refl

  chunk_copied :
      memcpy (done ++ left) (length done) (take (length chunk) (drop l.rec_offset l.recbuffer))
      ≡ some ((done ++ chunk) ++ drop (length chunk) left)
  chunk_copied = rw chunk_bytes (memcpy-append done left chunk (length done) refl room)

  abbrev pub past : Link
  past = record l { rec_offset = l.rec_offset + length chunk }

  pub copy_chunk-past :
      copy_chunk l (done ++ left) (length done) (length chunk)
      ≡ got ((done ++ chunk) ++ drop (length chunk) left, past)
  unfolding copy_chunk
  copy_chunk-past = rw (chunk_there, chunk_copied, copy_chunk)

  pub chunk-View : View past later
  chunk-View = record {
    front = v.front ++ chunk;
    back = v.back;
    shape =
        v.shape
        ∙ ap (λ r. v.front ++ r) (append_assoc chunk later v.back)
        ∙ sym (append_assoc v.front chunk (later ++ v.back));
    offset = omega (arith, v.offset, length-append v.front chunk);
    size = omega (arith, v.size, length-append v.front chunk, length-append chunk later);
    whole = v.whole;
    good = v.good;
  }

sub64-le : (a b : ℕ) → b ≤ a → a < 2 ^ 64 → sub64 a b ≡ a - b
sub64-le a b le small = omega arith

-- The chunk is what is wanted, or what is here.
module _ (l : Link) (here : Bytes) (total bytes_read : ℕ) (v : View l here)
    (le : bytes_read ≤ total) (small : total < 2 ^ 63) where
  packet_room : l.rec_offset + length here ≤ 512
  packet_room = omega (
    arith,
    v.offset,
    v.whole,
    ap length v.shape,
    length-append v.front (here ++ v.back),
    length-append here v.back,
  )

  pub chunk_size-wanted :
      total - bytes_read ≤ length here → chunk_size l total bytes_read ≡ total - bytes_read
  unfolding chunk_size
  chunk_size-wanted enough =
      let wanted = sub64-le total bytes_read le (omega arith) in
      let over : ltb l.incoming_size ((l.rec_offset + (total - bytes_read)) % 2 ^ 64) ≡ false =
        ground (arith, v.offset, v.size, packet_room) in
      rw (wanted, over, chunk_size) refl

  pub chunk_size-here :
      length here < total - bytes_read → chunk_size l total bytes_read ≡ length here
  unfolding chunk_size
  chunk_size-here short =
      let wanted = sub64-le total bytes_read le (omega arith) in
      let over : ltb l.incoming_size ((l.rec_offset + (total - bytes_read)) % 2 ^ 64) ≡ true =
        ground (arith, v.offset, v.size, packet_room) in
      let rest =
        sub64-le l.incoming_size l.rec_offset (omega (arith, v.offset, v.size))
          (omega (arith, v.offset, v.size, packet_room)) in
      rw (wanted, over, rest, chunk_size) (omega (arith, v.offset, v.size))
