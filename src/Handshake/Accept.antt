-- ===== src/Handshake/Accept.antt =====
-- The handshake that a reciever sends, as the server takes it (wimp_create_handshake and
-- wimp_server_process_accept).
use wimp.Prelude.{
  ℕ, ◌+◌, ◌<◌, ◌≡◌, refl, ap, sym, ◌∙◌, arith, some, List, [], ◌∷◌, ◌++◌, true, ltb, lt→ltb, length,
  take, drop, replicate, append_assoc, length-append, length-replicate, take-append, drop-append,
}
use wimp.Prelude.Bytes.{
  Bytes, IsText, c_string, le32, length-le32, word_at, word_at-le32, memcpy, memcpy-append, text_at,
  text_at-append,
}
use wimp.Server.{Socket}
use wimp.Handshake.{
  handshake_word, zero_buffer, HandshakeHeader, header_bytes, create_handshake, connection,
  AcceptState, accept_named, accept_filled, accept_one,
}

abbrev pub header_of : Bytes → HandshakeHeader
header_of name = record { handshake_header = handshake_word; process_name_bytes = length name + 1 }

length-header : (h : HandshakeHeader) → length (header_bytes h) ≡ 8
length-header h = omega (
  arith,
  length-append (le32 h.handshake_header) (le32 h.process_name_bytes),
  length-le32 h.handshake_header,
  length-le32 h.process_name_bytes,
)

module _ (name : Bytes) (short : length name + 9 < 512) where
  abbrev behind : Bytes
  behind = drop (length (c_string name)) (replicate 504 0)

  -- What the buffer holds then.
  create_handshake-buffer :
      create_handshake name zero_buffer
      ≡ some (header_of name, header_bytes (header_of name) ++ (c_string name ++ behind))
  unfolding create_handshake
  create_handshake-buffer =
      let fits : ltb (8 + (length name + 1)) 512 ≡ true =
        lt→ltb (8 + (length name + 1)) 512 (omega arith) in
      let size = length-append name (0 ∷ []) in
      let named : memcpy zero_buffer 8 (c_string name)
          ≡ some ((replicate 8 0 ++ c_string name) ++ behind) =
        memcpy-append (replicate 8 0) (replicate 504 0) (c_string name) 8 refl
          (omega (arith, size, length-replicate {0} {A = ℕ} 504 0)) in
      let n = length-header (header_of name) in
      let headed =
        memcpy-append [] ((replicate 8 0 ++ c_string name) ++ behind)
          (header_bytes (header_of name)) 0 refl
          (omega (
            arith,
            n,
            length-append (replicate 8 0 ++ c_string name) behind,
            length-append (replicate {0} {A = ℕ} 8 0) (c_string name),
            length-replicate {0} {A = ℕ} 8 0,
          )) in
      rw (fits, named, headed, n, create_handshake) refl

  abbrev pub sent_bytes : Bytes
  sent_bytes = header_bytes (header_of name) ++ c_string name

  sent_bytes-take :
      take (8 + (length name + 1)) (header_bytes (header_of name) ++ (c_string name ++ behind))
      ≡ sent_bytes
  sent_bytes-take =
      ap (take (8 + (length name + 1)))
        (sym (append_assoc (header_bytes (header_of name)) (c_string name) behind))
      ∙ take-append (8 + (length name + 1)) sent_bytes behind (
          omega (
            arith,
            length-header (header_of name),
            length-append (header_bytes (header_of name)) (c_string name),
            length-append name (0 ∷ []),
          ))

  -- The state with the handshake in the buffer.
  abbrev pub filled : AcceptState → AcceptState
  filled st = record st { recbuffer = sent_bytes ++ drop (length sent_bytes) st.recbuffer }

  accept_filled-sent :
      (socket : Socket) (pnames : List Bytes) (con : ℕ) (st : AcceptState)
      → IsText name
      → accept_filled socket pnames con (filled st)
        ≡ accept_named socket pnames con (filled st) name
  unfolding accept_filled
  accept_filled-sent socket pnames con st text =
      let rest : Bytes = drop (length sent_bytes) st.recbuffer in
      let word : word_at (sent_bytes ++ rest) ≡ some handshake_word =
        ap word_at (simp append_assoc)
        ∙ word_at-le32 handshake_word (le32 (length name + 1) ++ (c_string name ++ rest))
            (omega arith) in
      let behind_header : drop 8 (sent_bytes ++ rest) ≡ c_string name ++ rest =
        ap (drop 8) (append_assoc (header_bytes (header_of name)) (c_string name) rest)
        ∙ drop-append 8 (header_bytes (header_of name)) (c_string name ++ rest)
            (sym (length-header (header_of name))) in
      let read : text_at (c_string name ++ rest) ≡ some name =
        ap text_at (append_assoc name (0 ∷ []) rest) ∙ text_at-append name rest text in
      rw (word, behind_header, read, accept_filled) refl

  pub accept_one-sent :
      (socket : Socket) (pnames : List Bytes) (con : ℕ) (st : AcceptState)
      → IsText name
      → accept_one socket pnames (connection con (some sent_bytes)) st
        ≡ accept_named socket pnames con (filled st) name
  unfolding accept_one le32
  accept_one-sent socket pnames con st text = accept_filled-sent socket pnames con st text

  -- What a reciever sends with wimp_create_handshake, for a name that is a C string and fits the
  -- buffer, is taken by the round of wimp_server_process_accept as the handshake of a process of
  -- that name, whatever was in the server's buffer.
  pub accept_one-create_handshake :
      (socket : Socket) (pnames : List Bytes) (con : ℕ) (st : AcceptState)
      → IsText name
      → (header : HandshakeHeader) × (buffer : Bytes) × (create_handshake name zero_buffer
          ≡ some (header, buffer))
        × (accept_one socket pnames
              (connection con (some (take (8 + header.process_name_bytes) buffer)))
              st
            ≡ accept_named socket pnames con (filled st) name)
  accept_one-create_handshake socket pnames con st text = (
    header_of name,
    header_bytes (header_of name) ++ (c_string name ++ behind),
    create_handshake-buffer,
    rw sent_bytes-take (accept_one-sent socket pnames con st text),
  )
