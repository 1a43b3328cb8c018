-- ===== src/Tests/Closing.antt =====
-- The closing of a server with a connected child and a parent, with memory at eight addresses.
use wimp.Prelude.{
  ℕ, zero, suc, ◌+◌, ◌-◌, ◌≤◌, ◌<◌, ◌≡◌, refl, sym, ap, ◌∙◌, arith, Option, none, some, List, [],
  ◌∷◌, ◌++◌, Bool, true, false, ◌==◌, ==_iff, if◌then◌else◌, is_some, length, Bool-cases, inl, inr,
  replicate, length-replicate,
}
use wimp.Prelude.Bytes.{Bytes, text_eq, le32}
use wimp.HashString.{Entry}
use wimp.Memory.{Store, IsFresh, ◌>>=◌, write_block}
use wimp.Memory.Frame.{Ends}
use wimp.Queue.{create_instr_queue}
use wimp.ProcessTable.{State, ProcessData, child}
use wimp.ProcessTable.Laws.{IsValid}
use wimp.Wire.{bundle_size}
use wimp.Wire.Bundle.{message, length-message}
use wimp.Reciever.{exit_text}
use wimp.Server.{Server, send_instructions}
use wimp.Server.Close.{add_exits}
use wimp.Server.Mail.{gathered_on, bound_for}
use wimp.Server.Told.{exit_mail, Supply}
use wimp.Server.Exits.{add_exits-sent}
use wimp.Tests.Hash.{client, server}
use wimp.Tests.Message.{dirty_malloc}
use wimp.Tests.Processes.{processes, processes-IsValid, find_processes, localhost}
use wimp.Tests.Serving.{slow, slow-Takes, master}

-- The first address that is not in use.
unfoldable search : (ℕ → Bool) → ℕ → ℕ → Option ℕ
search used zero at = none
search used (suc n) at = if used at then search used n (at + 1) else some at

search-found :
    (used : ℕ → Bool) (n at a : ℕ)
    → at ≤ a
    → a < at + n
    → used a ≡ false
    → (p : ℕ) × (search used n at ≡ some p) × (p ≤ a) × (used p ≡ false)
unfolding search
search-found used zero at a le lt free_at = absurd (omega arith)
search-found used (suc n) at a le lt free_at = elim (Bool-cases (used at)) [
  | inr e ↦ (at, rw e refl, le, e)
  | inl e ↦
      let other : (at == a) ≡ false = elim (Bool-cases (at == a)) [
        | inl same ↦ cc (ap used ((==_iff at a).0 same))
        | inr ne ↦ ne
      ] in
      let (p, run, less, free_p) =
        search-found used n (at + 1) a (ground arith) (omega arith) free_at in
      (p, rw e run, less, free_p)
]

abbrev first_node : Store → Option ℕ
first_node s = search (λ a. is_some (s.node a)) 8 0

abbrev first_block : Store → ℕ
first_block s = elim (search (λ b. is_some (s.block b)) 8 0) [ none ↦ 0 | some b ↦ b ]

abbrev Room : ℕ → Store → Type 0
Room k s = (k ≤ 8) × ((a : ℕ) → 8 ≤ a + k → (s.node a ≡ none) × (s.block a ≡ none))

search-unused : (used : ℕ → Bool) (n at p : ℕ) → search used n at ≡ some p → used p ≡ false
unfolding search
search-unused used zero at p e = cc
search-unused used (suc n) at p e = elim (Bool-cases (used at)) [
  | inl u ↦ search-unused used n (at + 1) p (rw u at e)
  | inr u ↦ let same : some at ≡ some p = rw u at e in ap used (some_same p at (sym same)) ∙ u
]
  where
    some_same : (a b : ℕ) → some a ≡ some b → a ≡ b
    some_same a b h = cc

none_of : {A : Type 0} (o : Option A) → is_some o ≡ false → o ≡ none
none_of none h = refl
none_of (some a) h = cc

first_node-IsFresh : IsFresh first_node
first_node-IsFresh s p e = none_of (s.node p) (search-unused (λ a. is_some (s.node a)) 8 0 p e)

abbrev NodeAt : Store → ℕ → Type 0
NodeAt s k = (p : ℕ) × (first_node s ≡ some p) × (p + k ≤ 7)

Room-node : (k : ℕ) (s : Store) → Room (suc k) s → NodeAt s k
Room-node k s (le, room) =
    let (empty, empty_block) = room (7 - k) (omega (arith, le)) in
    let (p, run, less, unused) =
      search-found (λ a. is_some (s.node a)) 8 0 (7 - k) (omega arith) (omega arith)
        (rw empty refl) in
    (p, run, omega (arith, less, le))

abbrev BlockAt : Store → ℕ → Type 0
BlockAt s k = (s.block (first_block s) ≡ none) × (first_block s + k ≤ 7)

Room-block : (k : ℕ) (s : Store) → Room (suc k) s → BlockAt s k
Room-block k s (le, room) =
    let (empty, empty_block) = room (7 - k) (omega (arith, le)) in
    let (p, run, less, unused) =
      search-found (λ a. is_some (s.block a)) 8 0 (7 - k) (omega arith) (omega arith)
        (rw empty_block refl) in
    rw (first_block, run) (none_of (s.block p) unused, omega (arith, less, le))

Room-less :
    (k : ℕ) (s t : Store) (p : ℕ)
    → Room (suc k) s
    → first_node s ≡ some p
    → ((a : ℕ) → (a == p) ≡ false → s.node a ≡ none → t.node a ≡ none)
    → ((b : ℕ) → (first_block s == b) ≡ false → t.block b ≡ s.block b)
    → Room k t
Room-less k s t p room got nodes blocks = (
  omega (arith, room.0),
  λ a h.
      let (q, run, low) = Room-node k s room in
      let same : p ≡ q = some_same p q (sym got ∙ run) in
      let (empty, low_block) = Room-block k s room in
      let (none_here, none_block) = room.1 a (omega arith) in
      (nodes a (ground arith) none_here, blocks a (ground (arith, low_block)) ∙ none_block),
)
  where
    some_same : (a b : ℕ) → some a ≡ some b → a ≡ b
    some_same a b h = cc

supply : Supply first_node first_block Room
unfolding write_block
supply = record {
  fewer = λ k s room. (omega (arith, room.0), λ a h. room.1 a (omega arith));
  unused = λ k s room. (Room-block k s room).0;
  gives = λ k s content room. let (p, run, low) = Room-node k s room in rw run refl;
  less = λ k s t content p room got nodes blocks. Room-less k s t p room got nodes blocks;
}

abbrev active_child : ProcessData
active_child = record {
  process_domain = some localhost;
  process_connection = some 8;
  process_port = 8000;
  process_active = true;
  process_relation = child;
}

abbrev family : State
family = record processes { heap = λ a. if a == 1 then some active_child else processes.heap a }

family-IsValid : IsValid family
family-IsValid = record {
  hashed = processes-IsValid.hashed;
  live = λ j e at. elim (find_processes j e at) [
    | inl (named, value) ↦ rw value refl
    | inr (named, value) ↦ rw value refl
  ];
  apart = processes-IsValid.apart;
  counted = processes-IsValid.counted;
}

abbrev closing : Server
closing = record master { ptable = family }

abbrev empty_store : Store
empty_store = record { node = λ a. none; block = λ b. none; calls = [] }

abbrev everyone : List (Entry ℕ)
everyone = record { key = client; value = 1 } ∷ record { key = server; value = 2 } ∷ []

length-exit_client : length (message closing.process_name client exit_text []) ≡ 17
length-exit_client = length-message closing.process_name client exit_text []

length-exit_server : length (message closing.process_name server exit_text []) ≡ 17
length-exit_server = length-message closing.process_name server exit_text []

dirty_malloc_sized : (n : ℕ) (raw : Bytes) → dirty_malloc n ≡ some raw → length raw ≡ n
dirty_malloc_sized n raw e = let same : raw ≡ replicate n 7 = cc e in rw same (length-replicate n 7)

add_exits-sent_example :
    Ends
      ((add_exits dirty_malloc first_node first_block closing everyone
          >>= send_instructions slow first_node 3 20)
        empty_store)
      (λ server' t.
        ((c : Option ℕ)
          → gathered_on c server'.outbox
            ≡ [] ++ bound_for family closing.parent c (exit_mail closing.process_name client ∷ []))
        × (server'.outgoingmsg.nextnode ≡ none))
unfolding text_eq message le32 bundle_size create_instr_queue
add_exits-sent_example =
    add_exits-sent dirty_malloc first_node first_block (λ n. refl) dirty_malloc_sized
      first_node-IsFresh Room supply slow 3 20 everyone closing [] [] empty_store slow-Takes
      (omega arith, λ a h. (refl, refl)) family-IsValid
      (
        (refl, ((λ e. cc, tt), omega arith), omega (arith, length-exit_client), refl, refl),
        ((refl, ((λ e. cc, tt), omega arith), omega (arith, length-exit_server), refl, refl), tt),
      )
      ((λ e. cc, tt), omega arith)
      (record { front = refl; back = refl; linked = tt; distinct = tt }) tt tt
      (omega (arith, length-exit_client), tt) (omega arith)
