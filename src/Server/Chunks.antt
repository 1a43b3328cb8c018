-- ===== src/Server/Chunks.antt =====
-- What an instruction looks like on the wire: the chunks of wimp_server_send_instructions.
use wimp.Prelude.{
  ℕ, zero, suc, ◌+◌, ◌-◌, ◌%◌, ◌^◌, ◌≤◌, ◌<◌, ◌≡◌, refl, ap, ap₂, sym, ◌∙◌, arith, min, Option, [],
  ◌∷◌, ◌++◌, true, ltb, leb, length, take, drop, All, append_assoc, append-nil, length-take,
  length-drop, drop-drop, Bool-cases, inl, inr,
}
use wimp.Prelude.Bytes.{Bytes}
use wimp.Memory.{Store}
use wimp.Memory.Frame.{Ends, Ends-mono}
use wimp.Server.{Outbox, Socket, socket_send, send_chunks}
use wimp.Reciever.{message_buffer_bytes}

-- The socket takes a part of what it is given, at least a byte.
abbrev pub Takes : Socket → Type 0
Takes socket =
    (outbox : Outbox) (connection : Option ℕ) (bytes : Bytes)
    → 0 < length bytes
    → (0 < socket outbox connection bytes) × (socket outbox connection bytes ≤ length bytes)

-- The bytes that went out, one chunk behind the other.
abbrev pub gathered : Outbox → Bytes
gathered [] = []
gathered ((connection, bytes) ∷ rest) = bytes ++ gathered rest

-- To this connection only, and never more than a buffer at once.
abbrev pub IsChunk : Option ℕ → Option ℕ × Bytes → Type 0
IsChunk connection (to, bytes) = (to ≡ connection) × (length bytes ≤ message_buffer_bytes)

pub record Sent (connection : Option ℕ) (bytes : Bytes) (before after : Outbox) : Type 0 where
  pub chunks : Outbox
  pub appended : after ≡ before ++ chunks
  pub gather : gathered chunks ≡ bytes
  pub sizes : All (IsChunk connection) chunks

take-take : (n k : ℕ) (xs : Bytes) → k ≤ n → take k (take n xs) ≡ take k xs
take-take n zero xs h = refl
take-take zero (suc k) xs h = absurd (omega arith)
take-take (suc n) (suc k) [] h = refl
take-take (suc n) (suc k) (x ∷ xs) h = ap (λ r. x ∷ r) (take-take n k xs (omega arith))

-- A part, and the part behind it.
take-rest : (k n : ℕ) (xs : Bytes) → take k xs ++ take n (drop k xs) ≡ take (k + n) xs
take-rest zero n xs = ap (λ (m : ℕ). take m xs) (omega arith)
take-rest (suc k) n [] = let more : suc k + n ≡ suc (k + n) = omega arith in rw more (take-none n)
  where
    take-none : (m : ℕ) → take {A = ℕ} m [] ≡ []
    take-none zero = refl
    take-none (suc m) = refl
take-rest (suc k) n (x ∷ xs) =
    let more : suc k + n ≡ suc (k + n) = omega arith in rw more (ap (λ r. x ∷ r) (take-rest k n xs))

module _ (socket : Socket) (connection : Option ℕ) (takes : Takes socket) where
  -- A call with a chunk that is not empty.
  record Taken (outbox : Outbox) (chunk : Bytes) : Type 0 where
    bytes : ℕ
    run :
        socket_send socket outbox connection chunk
        ≡ (bytes, outbox ++ (connection, take bytes chunk) ∷ [])
    some_bytes : 0 < bytes
    at_most : bytes ≤ length chunk

  socket_send-Taken : (outbox : Outbox) (chunk : Bytes) → 0 < length chunk → Taken outbox chunk
  unfolding socket_send
  socket_send-Taken outbox chunk there =
      let (positive, bounded) = takes outbox connection chunk there in
      let fits : leb (socket outbox connection chunk) (length chunk) ≡ true = ground arith in
      record {
        bytes = socket outbox connection chunk;
        run = rw (fits, socket_send) refl;
        some_bytes = positive;
        at_most = bounded;
      }

  Sent-cons :
      (outbox after : Outbox) (chunk : Bytes) (k n : ℕ) (bytes : Bytes)
      → k ≤ length chunk
      → length chunk ≤ message_buffer_bytes
      → take k chunk ≡ take k bytes
      → Sent connection (take n (drop k bytes)) (outbox ++ (connection, take k chunk) ∷ []) after
      → Sent connection (take (k + n) bytes) outbox after
  Sent-cons outbox after chunk k n bytes fits small same rest = record {
    chunks = (connection, take k chunk) ∷ rest.chunks;
    appended = rest.appended ∙ append_assoc outbox ((connection, take k chunk) ∷ []) rest.chunks;
    gather = ap₂ (λ a b. a ++ b) same rest.gather ∙ take-rest k n bytes;
    sizes = ((refl, omega (arith, length-take k chunk)), rest.sizes);
  }

  -- The loop of wimp_server_send_instructions over one instruction, on a socket that takes a part
  -- of each chunk, at least a byte: it ends, reads nothing outside the message, and what the
  -- connection took, in chunks of at most 512 bytes, is the message from `sent_bytes` to its end.
  -- More rounds than bytes are enough.
  pub send_chunks-Sent :
      (rounds : ℕ) (content : Bytes) (total_bytes sent_bytes : ℕ) (outbox : Outbox) (s : Store)
      → sent_bytes ≤ total_bytes
      → total_bytes ≤ length content
      → total_bytes < 2 ^ 63
      → total_bytes - sent_bytes < rounds
      → Ends
          (send_chunks socket rounds connection content total_bytes sent_bytes outbox s)
          (λ after t.
            (t ≡ s)
            × Sent connection
                (take (total_bytes - sent_bytes) (drop sent_bytes content))
                outbox
                after)
  unfolding send_chunks
  send_chunks-Sent zero content total sent outbox s le within small room = absurd (omega arith)
  send_chunks-Sent (suc rounds) content total sent outbox s le within small room =
      elim (Bool-cases (ltb sent total)) [
        | inr finished ↦
            let nothing : total - sent ≡ 0 = ground arith in
            rw (finished, nothing)
              (
                refl,
                record {
                  chunks = [];
                  appended = sym (append-nil outbox);
                  gather = refl;
                  sizes = tt;
                },
              )
        | inl more ↦
            let b : ℕ = min (total - sent) message_buffer_bytes in
            let chunk : Bytes = take b (drop sent content) in
            let size : length chunk ≡ b =
              omega (arith, length-take b (drop sent content), length-drop sent content) in
            let inside : leb (sent + b) (length content) ≡ true = ground arith in
            let there : 0 < length chunk = ground (arith, size) in
            let t = socket_send-Taken outbox chunk there in
            let on : (sent + t.bytes) % 2 ^ 64 ≡ sent + t.bytes = omega (arith, t.at_most, size) in
            let left : t.bytes + (total - (sent + t.bytes)) ≡ total - sent =
              omega (arith, t.at_most, size) in
            rw (more, inside, t.run, on)
              (Ends-mono
                (send_chunks socket rounds connection content total (sent + t.bytes)
                  (outbox ++ (connection, take t.bytes chunk) ∷ []) s)
                _ _
                (send_chunks-Sent rounds content total (sent + t.bytes)
                  (outbox ++ (connection, take t.bytes chunk) ∷ []) s
                  (omega (arith, t.at_most, size)) within small (omega (arith, t.some_bytes)))
                λ after u (same, rest). (
                  same,
                  rw (← left) (
                      Sent-cons outbox after chunk t.bytes (total - (sent + t.bytes))
                        (drop sent content) t.at_most (omega (arith, size))
                        (take-take b t.bytes (drop sent content) (omega (arith, t.at_most, size)))
                        (rw (drop-drop sent t.bytes content) rest)),
                ))
      ]
