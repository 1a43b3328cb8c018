-- ===== src/Reciever/Packets.antt =====
-- The bytes that the reciever has still to look at, whatever packets they come in.
use wimp.Prelude.{
  ℕ, suc, ◌+◌, ◌-◌, ◌^◌, ◌≤◌, ◌<◌, ◌≡◌, refl, ap, sym, ◌∙◌, arith, some, List, [], ◌∷◌, ◌++◌, true,
  false, leb, length, replicate, get_elem?, All, append_assoc, length-append, length-replicate,
  get_elem?-append, cons_parts,
}
use wimp.Prelude.Bytes.{Bytes, le32}
use wimp.Reciever.{
  Packet, received, failed, Link, got, next_packet, take_byte, read_byte, read_header,
  message_buffer_bytes,
}

-- A return of `p_socket_receive` on a connection that is up: at least a byte, at most a buffer.
abbrev pub IsPacket : Packet → Type 0
IsPacket (received bytes) = (0 < length bytes) × (length bytes ≤ message_buffer_bytes)
IsPacket failed = ⊥

abbrev pub contents : List Packet → Bytes
contents [] = []
contents (received bytes ∷ rest) = bytes ++ contents rest
contents (failed ∷ rest) = contents rest

-- The buffer in three parts: read, to be read, and the zeros behind the packet.
pub record View (l : Link) (here : Bytes) : Type 0 where
  pub front : Bytes
  pub back : Bytes
  pub shape : l.recbuffer ≡ front ++ (here ++ back)
  pub offset : l.rec_offset ≡ length front
  pub size : l.incoming_size ≡ length front + length here
  pub whole : length l.recbuffer ≡ message_buffer_bytes
  pub good : All IsPacket l.packets

-- The bytes to come, in the buffer and in the packets.
pub record Unread (l : Link) (bytes : Bytes) : Type 0 where
  pub here : Bytes
  pub view : View l here
  pub stream : here ++ contents l.packets ≡ bytes

-- The next packet in the buffer.
abbrev filled : Bytes → List Packet → Link
filled bytes rest = record {
  incoming_size = length bytes;
  rec_offset = 0;
  recbuffer = bytes ++ replicate (message_buffer_bytes - length bytes) 0;
  packets = rest;
}

filled-View :
    (bytes : Bytes) (rest : List Packet)
    → IsPacket (received bytes)
    → All IsPacket rest
    → View (filled bytes rest) bytes
filled-View bytes rest p ps = record {
  front = [];
  back = replicate (message_buffer_bytes - length bytes) 0;
  shape = refl;
  offset = refl;
  size = omega arith;
  whole = omega (
    arith,
    length-append bytes (replicate (message_buffer_bytes - length bytes) 0),
    length-replicate {0} {A = ℕ} (message_buffer_bytes - length bytes) 0,
  );
  good = ps;
}

-- Where bytes are still to come, the next packet brings at least one of them.
pub record Loaded (l l' : Link) (b : ℕ) (rest : Bytes) : Type 0 where
  pub here : Bytes
  pub view : View l' (b ∷ here)
  pub stream : here ++ contents l'.packets ≡ rest
  pub fewer : suc (length l'.packets) ≡ length l.packets

pub next_packet-Loaded :
    (l : Link) (b : ℕ) (rest : Bytes)
    → All IsPacket l.packets
    → contents l.packets ≡ b ∷ rest
    → (l' : Link) × (next_packet l ≡ got l') × Loaded l l' b rest
unfolding next_packet
next_packet-Loaded l b rest good e = go l.packets good e
  where
    go :
        (ps : List Packet)
        → All IsPacket ps
        → contents ps ≡ b ∷ rest
        → (l' : Link) × (next_packet (record l { packets = ps }) ≡ got l')
          × Loaded (record l { packets = ps }) l' b rest
    go [] good e = cc
    go (failed ∷ ps) good e = absurd good.0
    go (received [] ∷ ps) good e = absurd (omega arith)
    go (received (c ∷ bytes) ∷ ps) good e =
        let (same, e') = cons_parts c b (bytes ++ contents ps) rest e in
        (
          filled (c ∷ bytes) ps,
          refl,
          record {
            here = bytes;
            view = rw (← same) (filled-View (c ∷ bytes) ps good.0 good.1);
            stream = e';
            fewer = refl;
          },
        )

take_byte-View :
    (l : Link) (b : ℕ) (here : Bytes)
    → View l (b ∷ here)
    → (take_byte l ≡ got (b, record l { rec_offset = l.rec_offset + 1 }))
      × View (record l { rec_offset = l.rec_offset + 1 }) here
unfolding take_byte
take_byte-View l b here v =
    let byte : get_elem? l.recbuffer l.rec_offset ≡ some b =
      ap (λ r. get_elem? r l.rec_offset) v.shape
      ∙ get_elem?-append l.rec_offset v.front (here ++ v.back) b v.offset in
    (
      rw (byte, take_byte),
      record {
        front = v.front ++ b ∷ [];
        back = v.back;
        shape = v.shape ∙ sym (append_assoc v.front (b ∷ []) (here ++ v.back));
        offset = omega (arith, v.offset, length-append v.front (b ∷ []));
        size = omega (arith, v.size, length-append v.front (b ∷ []));
        whole = v.whole;
        good = v.good;
      },
    )

take_byte-Unread :
    (l : Link) (b : ℕ) (here rest : Bytes)
    → View l (b ∷ here)
    → here ++ contents l.packets ≡ rest
    → (l' : Link) × (take_byte l ≡ got (b, l')) × Unread l' rest
take_byte-Unread l b here rest v e =
    let (run, view) = take_byte-View l b here v in
    (
      record l { rec_offset = l.rec_offset + 1 },
      run,
      record { here = here; view = view; stream = e },
    )

-- A byte is read from this packet or from the next one.
pub read_byte-Unread :
    (l : Link) (b : ℕ) (rest : Bytes)
    → Unread l (b ∷ rest)
    → (l' : Link) × (read_byte l ≡ got (b, l')) × Unread l' rest
unfolding read_byte
read_byte-Unread l b rest u = go u.here u.view u.stream
  where
    go :
        (here : Bytes)
        → View l here
        → here ++ contents l.packets ≡ b ∷ rest
        → (l' : Link) × (read_byte l ≡ got (b, l')) × Unread l' rest
    go [] v e =
        let used : leb l.incoming_size l.rec_offset ≡ true = ground (arith, v.size, v.offset) in
        let (l', run, loaded) = next_packet-Loaded l b rest v.good e in
        rw (used, run) (take_byte-Unread l' b loaded.here rest loaded.view loaded.stream)
    go (c ∷ here) v e =
        let more : leb l.incoming_size l.rec_offset ≡ false = ground (arith, v.size, v.offset) in
        let (same, e') = cons_parts c b (here ++ contents l.packets) rest e in
        rw more (take_byte-Unread l b here rest (rw same at v) e')

-- wimp_reciever: a header may be spread over packets
pub read_header-Unread :
    (l : Link) (n : ℕ) (rest : Bytes)
    → Unread l (le32 n ++ rest)
    → n < 2 ^ 32
    → (l' : Link) × (read_header l ≡ got (n, l')) × Unread l' rest
unfolding read_header le32
read_header-Unread l n rest u small =
    let (l0, r0, u0) = read_byte-Unread l _ _ u in
    let (l1, r1, u1) = read_byte-Unread l0 _ _ u0 in
    let (l2, r2, u2) = read_byte-Unread l1 _ _ u1 in
    let (l3, r3, u3) = read_byte-Unread l2 _ _ u2 in
    (l3, rw (r0, r1, r2, r3) (ap (λ (w : ℕ). got (w, l3)) (omega arith)), u3)
