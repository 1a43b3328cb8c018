-- ===== src/Log/Master.antt =====
-- A log line of a child process, which goes to its parent (wimp_log_internal of wimp/src/wimp_log.c, with
-- LOG_DIRECTION_BEHAVIOR and _DEBUG).
use wimp.Prelude.{
  ℕ, ◌+◌, ◌-◌, ◌<◌, ◌≡◌, refl, sym, ap, ◌∙◌, arith, Option, none, some, List, [], ◌∷◌, ◌++◌, false,
  ◌>>=◌, length, take, drop, replicate, append_assoc, length-append, length-replicate,
  drop-replicate, take-append, drop-append,
}
use wimp.Prelude.Bytes.{Bytes, IsText, memcpy, memcpy-append}
use wimp.Memory
use wimp.Memory.{Store, Cmd, fault, pure}
use wimp.Server.{Socket, send_instructions}
use wimp.Server.Close.{Local, absent, unmade, made, add_local_server}
use wimp.Log.Format.{Arg, format_string}
use wimp.Log.Render.{render, zeros, zeros-suc}
use wimp.Log.Lines.{format_string-render}

abbrev pub maximum_log_bytes : ℕ
maximum_log_bytes = 4096

-- "log"
abbrev pub log_text : Bytes
log_text = b'l' ∷ b'o' ∷ b'g' ∷ []

-- The tag at the start of the buffer: the name in brackets, and a space.
unfoldable pub write_tag : Bytes → Option Bytes
write_tag process_name = do
  opened ← memcpy (replicate maximum_log_bytes 0) 0 (b'[' ∷ [])
  named ← memcpy opened 1 process_name
  closed ← memcpy named (length process_name + 1) (b']' ∷ [])
  memcpy closed (length process_name + 2) (b' ' ∷ [])

-- The bytes that are sent: the line behind the tag, with its terminator.
unfoldable pub log_line : Bytes → Bytes → List Arg → Option Bytes
log_line process_name format arg = do
  let tagbytes = length process_name + 3
  str ← write_tag process_name
  formatted ← format_string (drop tagbytes str) format (maximum_log_bytes - tagbytes) arg
  let size = formatted.0 + 1
  some (take (size + tagbytes) (take tagbytes str ++ formatted.1))

-- The line goes to the outgoing queue, and the queue is sent at once. Without a server or a parent it
-- goes to the console, and nothing changes here.
unfoldable pub log_internal :
    (ℕ → Option Bytes)
    → (Store → Option ℕ)
    → (Store → ℕ)
    → Socket
    → (rounds chunks : ℕ) → Local
    → Bytes
    → List Arg
    → Cmd Local
log_internal malloc malloc_node fresh_block socket rounds chunks absent format arg = pure absent
log_internal malloc malloc_node fresh_block socket rounds chunks unmade format arg = λ s. fault
log_internal malloc malloc_node fresh_block socket rounds chunks (made server) format arg =
    elim server.parent [
      | none ↦ pure (made server)
      | some parent ↦ elim (log_line server.process_name format arg) [
        | none ↦ λ s. fault
        | some line ↦
            Memory.◌>>=◌
              (add_local_server malloc malloc_node fresh_block (made server) parent log_text line)
              λ added. elim added [
                | absent ↦ pure absent
                | unmade ↦ λ s. fault
                | made server' ↦
                    Memory.◌>>=◌ (send_instructions socket malloc_node rounds chunks server')
                      λ sent. pure (made sent)
              ]
      ]
    ]

zeros-front :
    (line s : Bytes) (room : ℕ) (offset : ℕ)
    → offset ≡ length line
    → length s < room
    → memcpy (line ++ zeros room) offset s ≡ some ((line ++ s) ++ zeros (room - length s))
zeros-front line s room offset at fits =
    memcpy-append line (zeros room) s offset at (omega (arith, length-replicate {0} {A = ℕ} room 0))
    ∙ ap (λ r. some ((line ++ s) ++ r)) (drop-replicate (length s) room 0 (omega arith))

-- The tag.
abbrev pub tag : Bytes → Bytes
tag process_name = (((b'[' ∷ []) ++ process_name) ++ b']' ∷ []) ++ b' ' ∷ []

write_tag-tag :
    (process_name : Bytes)
    → length process_name + 4 < 4096
    → write_tag process_name ≡ some (tag process_name ++ zeros (4096 - (length process_name + 3)))
unfolding write_tag
write_tag-tag process_name fits =
    let n = length process_name in
    let l1 : Bytes = b'[' ∷ [] in
    let l2 : Bytes = l1 ++ process_name in
    let l3 : Bytes = l2 ++ b']' ∷ [] in
    let n2 : length l2 ≡ n + 1 = omega arith in
    let n3 : length l3 ≡ n + 2 = omega (arith, length-append l2 (b']' ∷ [])) in
    let opened : memcpy (zeros 4096) 0 l1 ≡ some (l1 ++ zeros 4095) =
      zeros-front [] l1 4096 0 refl (omega arith) in
    let named : memcpy (l1 ++ zeros 4095) 1 process_name ≡ some (l2 ++ zeros (4095 - n)) =
      zeros-front l1 process_name 4095 1 refl (omega arith) in
    let closed : memcpy (l2 ++ zeros (4095 - n)) (n + 1) (b']' ∷ [])
        ≡ some (l3 ++ zeros (4095 - n - 1)) =
      zeros-front l2 (b']' ∷ []) (4095 - n) (n + 1) (sym n2) (omega arith) in
    let spaced : memcpy (l3 ++ zeros (4095 - n - 1)) (n + 2) (b' ' ∷ [])
        ≡ some (tag process_name ++ zeros (4095 - n - 1 - 1)) =
      zeros-front l3 (b' ' ∷ []) (4095 - n - 1) (n + 2) (sym n3) (omega arith) in
    let left : 4096 - (n + 3) ≡ 4095 - n - 1 - 1 = omega arith in
    ap
      (λ o. o >>= λ r. memcpy r 1 process_name >>= λ r'.
        memcpy r' (n + 1) (b']' ∷ []) >>= λ r''. memcpy r'' (n + 2) (b' ' ∷ []))
      opened
    ∙ ap (λ o. o >>= λ r'. memcpy r' (n + 1) (b']' ∷ []) >>= λ r''. memcpy r'' (n + 2) (b' ' ∷ []))
        named
    ∙ ap (λ o. o >>= λ r''. memcpy r'' (n + 2) (b' ' ∷ [])) closed
    ∙ spaced
    ∙ ap (λ (k : ℕ). some (tag process_name ++ zeros k)) (sym left)

-- wimp_log_internal in a process with a parent: where the format has a meaning to printf and the line has
-- no terminator in it and fits the buffer of 4096 bytes behind the tag with two bytes to spare, what is
-- sent to the parent is the name of the process in brackets, a space, the line that printf means, and
-- a terminator.
pub log_line-render :
    (process_name format line : Bytes) (args : List Arg)
    → render false format args ≡ some line
    → IsText line
    → length process_name + 3 + (length line + 1) < 4096
    → log_line process_name format args ≡ some (tag process_name ++ (line ++ 0 ∷ []))
unfolding log_line
log_line-render process_name format line args h is fits =
    let n = length process_name in
    let room : ℕ = 4096 - (n + 3) in
    let size : length (tag process_name) ≡ n + 3 = omega (
      arith,
      length-append ((b'[' ∷ process_name) ++ b']' ∷ []) (b' ' ∷ []),
      length-append (b'[' ∷ process_name) (b']' ∷ []),
    ) in
    let tagged = write_tag-tag process_name (omega arith) in
    let behind : drop (n + 3) (tag process_name ++ zeros room) ≡ zeros room =
      drop-append (n + 3) (tag process_name) (zeros room) (sym size) in
    let front : take (n + 3) (tag process_name ++ zeros room) ≡ tag process_name =
      take-append (n + 3) (tag process_name) (zeros room) (sym size) in
    let formatted = format_string-render room format line args h is (omega arith) (omega arith) in
    let ended : zeros (room - length line) ≡ 0 ∷ zeros (room - length line - 1) =
      zeros-suc (room - length line) (omega arith) in
    let spare : Bytes = zeros (room - length line - 1) in
    let sent : take (length line + 1 + (n + 3))
          (tag process_name ++ (line ++ zeros (room - length line)))
        ≡ tag process_name ++ (line ++ 0 ∷ []) =
      ap (take (length line + 1 + (n + 3))) (
        ap (λ r. tag process_name ++ (line ++ r)) ended
        ∙ ap (λ r. tag process_name ++ r) (sym (append_assoc line (0 ∷ []) spare))
        ∙ sym (append_assoc (tag process_name) (line ++ 0 ∷ []) spare))
      ∙ take-append (length line + 1 + (n + 3)) (tag process_name ++ (line ++ 0 ∷ [])) spare (
          omega (
            arith,
            size,
            length-append (tag process_name) (line ++ 0 ∷ []),
            length-append line (0 ∷ []),
          )) in
    rw (tagged, behind, front, formatted) (ap some sent)
