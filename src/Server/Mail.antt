-- ===== src/Server/Mail.antt =====
-- What goes out on each connection when a server sends its queue, told from the instructions and the
-- process table alone (wimp_server_send_instructions).
use wimp.Prelude.{
  ℕ, ◌≡◌, refl, ap, sym, ◌∙◌, inl, inr, Option, none, some, List, [], ◌∷◌, ◌++◌, Bool, true, false,
  ◌==◌, ==_refl, if◌then◌else◌, ◌>>=◌, is_some, All, append_assoc, Bool-cases,
}
use wimp.Prelude.Bytes.{Bytes, text_eq}
use wimp.Memory.{Store}
use wimp.Memory.Frame.{Item}
use wimp.ProcessTable.{State, ProcessData}
use wimp.ProcessTable.Laws.{lookup}
use wimp.Wire.Bundle.{message}
use wimp.Server.{Outbox}
use wimp.Server.Chunks.{gathered, IsChunk, Sent}
use wimp.Server.Counts.{Carries}

abbrev pub same_connection : Option ℕ → Option ℕ → Bool
same_connection none none = true
same_connection none (some b) = false
same_connection (some a) none = false
same_connection (some a) (some b) = a == b

pub same_connection_refl : (a : Option ℕ) → same_connection a a ≡ true
same_connection_refl none = refl
same_connection_refl (some a) = ==_refl a

-- The bytes that went out on one connection.
abbrev pub gathered_on : Option ℕ → Outbox → Bytes
gathered_on c [] = []
gathered_on c ((to, bytes) ∷ rest) =
    let others = gathered_on c rest in if same_connection to c then bytes ++ others else others

-- An instruction to send: where to, and its bytes.
pub record Mail : Type 0 where
  pub dest : Bytes
  pub content : Bytes

-- The process that an instruction is sent to: the one that it names or else the parent.
abbrev pub receiver : State → Option Bytes → Bytes → Option ProcessData
receiver ptable parent dest =
    if is_some (lookup ptable dest) then lookup ptable dest else (parent >>= lookup ptable)

-- Its connection, if it is active: otherwise the instruction is scrapped.
abbrev pub way : Option ProcessData → Option (Option ℕ)
way none = none
way (some process) = if process.process_active then some process.process_connection else none

abbrev pub part : Option (Option ℕ) → Option ℕ → Bytes → Bytes
part none c content = []
part (some to) c content = if same_connection to c then content else []

-- The instructions that go out on the connection, one behind the other.
abbrev pub bound_for : State → Option Bytes → Option ℕ → List Mail → Bytes
bound_for ptable parent c [] = []
bound_for ptable parent c (m ∷ mails) =
    part (way (receiver ptable parent m.dest)) c m.content ++ bound_for ptable parent c mails

-- The node carries the mail, for another process.
pub record Holds (process_name : Bytes) (s : Store) (i : Item) (m : Mail) : Type 0 where
  pub name : Bytes
  pub carried : Carries s i name
  pub dest : m.dest ≡ carried.dest
  pub content : m.content ≡ message carried.process carried.dest name carried.args
  pub other : text_eq m.dest process_name ≡ false

-- The nodes carry the mails, in order.
abbrev pub HoldAll : Bytes → Store → List Item → List Mail → Type 0
HoldAll process_name s [] [] = Unit
HoldAll process_name s [] (m ∷ mails) = ⊥
HoldAll process_name s (i ∷ items) [] = ⊥
HoldAll process_name s (i ∷ items) (m ∷ mails) =
    Holds process_name s i m × HoldAll process_name s items mails

gathered_on-append :
    (c : Option ℕ) (xs ys : Outbox)
    → gathered_on c (xs ++ ys) ≡ gathered_on c xs ++ gathered_on c ys
gathered_on-append c [] ys = refl
gathered_on-append c ((to, bytes) ∷ xs) ys = elim (Bool-cases (same_connection to c)) [
  | inl e ↦
      rw (e, gathered_on-append c xs ys)
        (sym (append_assoc bytes (gathered_on c xs) (gathered_on c ys)))
  | inr e ↦ rw (e, gathered_on-append c xs ys) refl
]

gathered_on-IsChunk :
    (to c : Option ℕ) (chunks : Outbox)
    → All (IsChunk to) chunks
    → gathered_on c chunks ≡ part (some to) c (gathered chunks)
gathered_on-IsChunk to c [] all = elim (Bool-cases (same_connection to c)) [
  | inl e ↦ rw e refl
  | inr e ↦ rw e refl
]
gathered_on-IsChunk to c ((to', bytes) ∷ chunks) ((same, size), all) =
    elim (Bool-cases (same_connection to c)) [
      | inl e ↦
          let rest = gathered_on-IsChunk to c chunks all in
          rw (same, e) (ap (λ r. bytes ++ r) (rw e at rest))
      | inr e ↦ let rest = gathered_on-IsChunk to c chunks all in rw (same, e) (rw e at rest)
    ]

-- What one instruction adds to each connection.
pub Sent-gathered_on :
    (to c : Option ℕ) (content : Bytes) (before after : Outbox)
    → Sent to content before after
    → gathered_on c after ≡ gathered_on c before ++ part (some to) c content
Sent-gathered_on to c content before after sent =
    ap (gathered_on c) sent.appended
    ∙ gathered_on-append c before sent.chunks
    ∙ ap (λ r. gathered_on c before ++ r)
        (gathered_on-IsChunk to c sent.chunks sent.sizes
          ∙ ap (λ bytes. part (some to) c bytes) sent.gather)
