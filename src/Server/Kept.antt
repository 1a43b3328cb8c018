-- ===== src/Server/Kept.antt =====
-- What an outgoing queue holds stays, and stays its own, when another message is written
-- (wimp_server_add of wimp/src/wimp_server.c).
use wimp.Prelude.{
  ℕ, ◌≡◌, refl, ap, sym, ◌∙◌, arith, Option, none, some, List, [], ◌∷◌, ◌++◌, true, false, ◌==◌,
  ==_iff, ◌||◌, is_some, Bool-cases, inl, inr,
}
use wimp.Prelude.Bytes.{Bytes}
use wimp.Memory.{Store}
use wimp.Memory.Frame.{Item}
use wimp.Queue.Free.{Owned, Allocated, has_block, unshared}
use wimp.Server.Mail.{Mail, Holds, HoldAll}

-- The messages that are there are as they were.
abbrev pub Kept : Store → Store → Type 0
Kept s t = (b : ℕ) → is_some (s.block b) ≡ true → t.block b ≡ s.block b

pub used_ne :
    (s : Store) (b c : ℕ) → s.block b ≡ none → is_some (s.block c) ≡ true → (b == c) ≡ false
used_ne s b c unused h = elim (Bool-cases (b == c)) [
  | inl same ↦
      let clash : s.block c ≡ none = ap s.block (sym ((==_iff b c).0 same)) ∙ unused in
      cc (rw clash at h)
  | inr ne ↦ ne
]

pub Holds-Kept :
    (name : Bytes) (s t : Store) (i : Item) (m : Mail)
    → Kept s t
    → Holds name s i m
    → Holds name t i m
Holds-Kept name s t i m kept h =
    let c = h.carried in
    record {
      name = h.name;
      carried = record {
        block_at = c.block_at;
        process = c.process;
        dest = c.dest;
        args = c.args;
        names = c.names;
        small = c.small;
        odd = c.odd;
        there = kept c.block_at (rw c.there refl) ∙ c.there;
        instr = c.instr;
      };
      dest = h.dest;
      content = h.content;
      other = h.other;
    }

pub HoldAll-snoc :
    (name : Bytes) (s t : Store) (items : List Item) (mails : List Mail) (new : Item) (m : Mail)
    → Kept s t
    → HoldAll name s items mails
    → Holds name t new m
    → HoldAll name t (items ++ new ∷ []) (mails ++ m ∷ [])
HoldAll-snoc name s t [] [] new m kept hold h = (h, tt)
HoldAll-snoc name s t [] (x ∷ mails) new m kept hold h = absurd hold
HoldAll-snoc name s t (i ∷ items) [] new m kept hold h = absurd hold
HoldAll-snoc name s t (i ∷ items) (x ∷ mails) new m kept (first, hold) h =
    (Holds-Kept name s t i x kept first, HoldAll-snoc name s t items mails new m kept hold h)

Allocated-Kept : (s t : Store) (o : Option ℕ) → Kept s t → Allocated s o → Allocated t o
Allocated-Kept s t none kept there = tt
Allocated-Kept s t (some b) kept (content, e) = (content, kept b (rw e refl) ∙ e)

has_block-append :
    (b : ℕ) (xs ys : List Item) → has_block b (xs ++ ys) ≡ (has_block b xs || has_block b ys)
has_block-append b [] ys = refl
has_block-append b (x ∷ xs) ys = ground (arith, has_block-append b xs ys)

-- A block that was not in use is nobody's.
unshared-snoc :
    (s : Store) (o : Option ℕ) (items : List Item) (new : Item) (b : ℕ)
    → Allocated s o
    → s.block b ≡ none
    → new.instr.instruction ≡ some b
    → unshared o items ≡ true
    → unshared o (items ++ new ∷ []) ≡ true
unshared-snoc s none items new b there unused own apart = refl
unshared-snoc s (some c) items new b (content, e) unused own apart =
    let other : (c == b) ≡ false = elim (Bool-cases (c == b)) [
      | inl same ↦
          let clash : s.block b ≡ some content = ap s.block (sym ((==_iff c b).0 same)) ∙ e in cc
      | inr ne ↦ ne
    ] in
    let last : has_block c (new ∷ []) ≡ false = rw (own, other) refl in
    let same : has_block c (items ++ new ∷ []) ≡ has_block c items =
      ground (arith, has_block-append c items (new ∷ []), last) in
    rw same apart

pub Owned-snoc :
    (s t : Store) (items : List Item) (new : Item) (b : ℕ) (content : Bytes)
    → Kept s t
    → s.block b ≡ none
    → new.instr.instruction ≡ some b
    → t.block b ≡ some content
    → Owned s items
    → Owned t (items ++ new ∷ [])
Owned-snoc s t [] new b content kept unused own there owned =
    (rw own (content, there), rw own refl, tt)
Owned-snoc s t (i ∷ items) new b content kept unused own there (a, u, owned) = (
  Allocated-Kept s t i.instr.instruction kept a,
  unshared-snoc s i.instr.instruction items new b a unused own u,
  Owned-snoc s t items new b content kept unused own there owned,
)
