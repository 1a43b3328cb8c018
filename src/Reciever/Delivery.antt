-- ===== src/Reciever/Delivery.antt =====
-- What the reciever delivers (the loop of wimp_reciever_recieve), for any cut of a stream of pings
-- and instructions into packets.
use wimp.Prelude.{
  ℕ, zero, suc, ◌%◌, ◌<◌, ◌≡◌, refl, ap, ◌∙◌, arith, List, [], ◌∷◌, ◌++◌, Bool, true, false, ◌&&◌,
  ◌==◌, length, All, append_assoc, append-nil, length-append, ap₂,
}
use wimp.Prelude.Bytes.{Bytes, le32, text_eq, text_eq_refl}
use wimp.Wire.Bundle.{message}
use wimp.Reciever.{
  Allocator, Packet, got, exit_text, ping, reading_headers, RecieverState, recieve_step, recieve,
}
use wimp.Reciever.Packets.{Unread, IsPacket, contents}
use wimp.Reciever.Stream.{Allocates, IsMessage, queued}
use wimp.Reciever.Rounds.{
  Sent, ping_sent, instr_sent, wire, instructions, enqueue, IsSendable, started,
  reading_headers_step-message, reading_headers_step-ping, recieve_step-headers,
  recieve_step-starts,
}

module _ (malloc : Allocator) (me : Bytes) (allocates : Allocates malloc) (copies : ℕ) where
  module _ (active : ℕ → Bool) (runs : (k : ℕ) → active k ≡ true) where
    recieve-goes :
        (rounds : ℕ) (st st' : RecieverState)
        → recieve_step malloc me copies st ≡ got (false, st')
        → recieve malloc me (suc rounds) copies active st
          ≡ recieve malloc me rounds copies active st'
    unfolding recieve
    recieve-goes rounds st st' step = rw (runs rounds, step, recieve) refl

    recieve-stops :
        (rounds : ℕ) (st st' : RecieverState)
        → recieve_step malloc me copies st ≡ got (true, st')
        → recieve malloc me (suc rounds) copies active st ≡ got st'
    unfolding recieve
    recieve-stops rounds st st' step = rw (runs rounds, step, recieve) refl

    recieve-same :
        (rounds : ℕ) (st st' : RecieverState)
        → recieve_step malloc me copies st ≡ recieve_step malloc me copies st'
        → recieve malloc me (suc rounds) copies active st
          ≡ recieve malloc me (suc rounds) copies active st'
    unfolding recieve
    recieve-same rounds st st' step = rw (runs rounds, step, recieve) refl

    module _ (source args : Bytes) (last : IsMessage source me exit_text args)
        (odd : (length (message source me exit_text args) % 256 == 0) ≡ false) where
      abbrev stop : Bytes
      stop = message source me exit_text args

      -- The run from a state between two instructions.
      recieve-sent :
          (sent : List Sent) (rounds : ℕ) (st : RecieverState)
          → All (IsSendable me) sent
          → length sent < rounds
          → st.mode ≡ reading_headers
          → Unread st.link (wire sent ++ stop)
          → length (wire sent ++ stop) < copies
          → (end : RecieverState) × (recieve malloc me rounds copies active st ≡ got end)
            × (end.queue ≡ enqueue malloc.node st.queue (instructions sent ++ stop ∷ []))
      recieve-sent sent zero st good enough m u room = absurd (omega arith)
      recieve-sent [] (suc rounds) st good enough m u room =
          let (l', run, u') =
            reading_headers_step-message malloc me allocates copies source me exit_text args [] st
              last odd (rw (append-nil stop) u) (rw (append-nil stop) room) in
          let exits : (text_eq exit_text exit_text && text_eq me me) ≡ true =
            ap₂ (λ a b. a && b) (text_eq_refl exit_text) (text_eq_refl me) in
          (
            queued malloc st l' stop,
            recieve-stops rounds st (queued malloc st l' stop) (
                recieve_step-headers malloc me allocates copies st m
                ∙ run
                ∙ ap (λ (b : Bool). got (b, queued malloc st l' stop)) exits),
            refl,
          )
      recieve-sent (ping_sent ∷ sent) (suc rounds) st good enough m u room =
          let (l', run, u') =
            reading_headers_step-ping malloc me allocates copies (wire sent ++ stop) st
              (rw (append_assoc (le32 ping) (wire sent) stop) at u) in
          let (end, goes, queue) =
            recieve-sent sent rounds (record st { link = l' }) good.1 (omega arith) m u'
              (omega (
                arith,
                length-append (le32 ping ++ wire sent) stop,
                length-append (le32 ping) (wire sent),
                length-append (wire sent) stop,
              )) in
          (
            end,
            recieve-goes rounds st (record st { link = l' })
                  (recieve_step-headers malloc me allocates copies st m ∙ run)
                ∙ goes,
            queue,
          )
      recieve-sent (instr_sent process dest instr args' ∷ sent) (suc rounds) st good enough m u
            room =
          let whole : Bytes = message process dest instr args' in
          let room' = ap length (append_assoc whole (wire sent) stop) in
          let (l', run, u') =
            reading_headers_step-message malloc me allocates copies process dest instr args'
              (wire sent ++ stop) st good.0.0 good.0.1
              (rw (append_assoc whole (wire sent) stop) at u) (omega (arith, room')) in
          let (end, goes, queue) =
            recieve-sent sent rounds (queued malloc st l' whole) good.1 (omega arith) refl u'
              (omega (arith, room', length-append whole (wire sent ++ stop))) in
          (
            end,
            recieve-goes rounds st (queued malloc st l' whole) (
                  recieve_step-headers malloc me allocates copies st m
                  ∙ run
                  ∙ ap (λ (b : Bool). got (b, queued malloc st l' whole)) good.0.2)
                ∙ goes,
            queue,
          )

      stop_there : (sent : List Sent) → (b : ℕ) × (rest : Bytes) × (wire sent ++ stop ≡ b ∷ rest)
      unfolding message le32
      stop_there [] = (_, _, refl)
      stop_there (ping_sent ∷ sent) = (_, _, refl)
      stop_there (instr_sent process dest instr args' ∷ sent) = (_, _, refl)

      -- wimp_reciever_recieve on a connection that stays up, while `active` is set and there are blocks
      -- for the messages: from the start of the loop, let the packets hold, cut in any way, pings and
      -- bundled instructions (non-empty names, sizes below 2^31, not a multiple of 256 and not the
      -- ping's) of which none is an exit for this process, and then an exit for it. With a round for
      -- each of them and more copies than bytes the loop returns. It has queued, whole and in the
      -- order of sending, the exit last, exactly the instructions for which wimp_instr_queue_add got a
      -- node; the others are lost.
      pub recieve-queue :
          (sent : List Sent) (packets : List Packet) (queue : List Bytes) (rounds : ℕ)
          → All (IsSendable me) sent
          → All IsPacket packets
          → contents packets ≡ wire sent ++ stop
          → length sent < rounds
          → length (wire sent ++ stop) < copies
          → (end : RecieverState) × (recieve malloc me rounds copies active (started packets queue)
              ≡ got end)
            × (end.queue ≡ enqueue malloc.node queue (instructions sent ++ stop ∷ []))
      recieve-queue sent packets queue zero good cut all enough room = absurd (omega arith)
      recieve-queue sent packets queue (suc rounds) good cut all enough room =
          let (b, rest, shape) = stop_there sent in
          let (st, step, u, m, same) =
            recieve_step-starts malloc me allocates copies packets queue b rest cut (all ∙ shape) in
          let (end, run, queued) =
            recieve-sent sent (suc rounds) st good enough m (rw (← shape) at u) room in
          (
            end,
            recieve-same rounds (started packets queue) st step ∙ run,
            queued ∙ ap (λ q. enqueue malloc.node q (instructions sent ++ stop ∷ [])) same,
          )
