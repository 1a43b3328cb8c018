-- ===== src/Wire/RoundTrip.antt =====
-- A message that wimp_server_bundle_instr wrote, read back by wimp_instr_get_from_buffer.
use wimp.Prelude.{
  ℕ, ◌+◌, ◌<◌, ◌^◌, ◌%◌, some, ◌≡◌, refl, sym, ap, ◌∙◌, arith, [], ◌∷◌, ◌++◌, append_assoc, lt→ltb,
  if◌then◌else◌, length, drop, length-append, drop-append, take-all, Bool-cases, inl, inr, false,
  ◌==◌,
}
use wimp.Prelude.Bytes.{Bytes, c_string, le32, length-le32, word_at, word_at-le32}
use wimp.Wire.{
  InstrMeta, no_meta, sign_extend, read_fields, get_from_buffer, text_of, args_of, bundle_size,
}
use wimp.Wire.Bundle.{message, length-message, bundle_size-eq}
use wimp.Wire.Fields.{
  IsName, skip_field, text_field, source_at, instr_at, length_at, meta_of, header, tail, split_dest,
  split_source, split_instr, split_tail, source_at-eq, instr_at-eq, length_at-eq,
}

args_read :
    (process dest instr args : Bytes)
    → args_of (message process dest instr args) (meta_of process dest instr args) ≡ args
args_read process dest instr [] = refl
args_read process dest instr (a ∷ args) =
    let more : Bytes = a ∷ args in
    let l : Bytes = le32 (length more) in
    let front : Bytes =
      ((header process dest instr more ++ c_string dest) ++ c_string process) ++ c_string instr in
    let present : (length more == 0) ≡ false = ground arith in
    let behind : drop (length_at process dest instr more + 4) (message process dest instr more)
        ≡ more =
      ap (drop (length_at process dest instr more + 4))
        (split_tail process dest instr more ∙ sym (append_assoc front l more))
      ∙ drop-append _ (front ++ l) more (
          omega (
            arith,
            length_at-eq process dest instr more,
            length-append front l,
            length-le32 (length more),
          )) in
    rw (present, behind) (take-all (length more) more (omega arith))

module _ (process dest instr args : Bytes) (source : IsName process) (destination : IsName dest)
    (instruction : IsName instr) (small : length (message process dest instr args) < 2 ^ 31) where
  read_fields-message :
      read_fields (message process dest instr args) (length (message process dest instr args))
      ≡ some (meta_of process dest instr args)
  unfolding read_fields sign_extend
  read_fields-message =
      let n = length-message process dest instr args in
      let b : Bytes = message process dest instr args in
      let size : bundle_size process dest instr args ≡ length b =
        bundle_size-eq process dest instr args (omega arith) ∙ sym n in
      let argument : drop (length_at process dest instr args) b ≡ le32 (length args) ++ args =
        ap (drop (length_at process dest instr args)) (split_tail process dest instr args)
        ∙ drop-append _ _ (tail process dest instr args) (length_at-eq process dest instr args) in
      rw
        (
          skip_field (header process dest instr args) dest _ b 4 destination
              (split_dest process dest instr args)
              (sym (length-le32 (bundle_size process dest instr args))),
          skip_field _ process _ b (source_at process dest instr args) source
              (split_source process dest instr args) (source_at-eq process dest instr args),
          skip_field _ instr _ b (instr_at process dest instr args) instruction
              (split_instr process dest instr args) (instr_at-eq process dest instr args),
          argument,
          word_at-le32 (length args) args (omega arith),
          ap word_at (split_dest process dest instr args),
          word_at-le32 (bundle_size process dest instr args)
              (c_string dest
                ++ (c_string process ++ (c_string instr ++ (le32 (length args) ++ args))))
              (omega arith),
          size,
          lt→ltb (length b) (2 ^ 31) small,
        )
        (ap (λ (k : ℕ). some (record (meta_of process dest instr args) { instr_bytes = k }))
          (omega arith))

  -- Whether the first byte of the header is zero decides.
  first_byte :
      (n : ℕ)
      → get_from_buffer (some (message process dest instr args)) n ≡ (
          if bundle_size process dest instr args % 256 == 0
          then some no_meta
          else read_fields (message process dest instr args) n)
  unfolding get_from_buffer message le32
  first_byte n = refl

  -- wimp_instr_get_from_buffer reads a bundled message with names that are not empty, without leaving
  -- it. It returns the offsets and sizes of the fields, unless the size of the message is a multiple
  -- of 256: then the message is taken for a ping, and nothing of it is returned.
  pub get_from_buffer-message :
      get_from_buffer
        (some (message process dest instr args))
        (length (message process dest instr args))
      ≡ some (
          if length (message process dest instr args) % 256 == 0
          then no_meta
          else meta_of process dest instr args)
  get_from_buffer-message =
      let n = length-message process dest instr args in
      let size : bundle_size process dest instr args ≡ length (message process dest instr args) =
        bundle_size-eq process dest instr args (omega arith) ∙ sym n in
      first_byte (length (message process dest instr args))
      ∙ rw (size, read_fields-message)
          (elim (Bool-cases (length (message process dest instr args) % 256 == 0)) [
            | inl e ↦ rw e
            | inr e ↦ rw e
          ])

  -- The fields that the metadata points at are the ones that were sent: the names of the source and
  -- the destination, the instruction, and the arguments up to the end of the message.
  pub meta_of-fields :
      let b : Bytes = message process dest instr args in
      let m : InstrMeta = meta_of process dest instr args in
      (text_of b m.source_process ≡ some process)
      × (text_of b m.dest_process ≡ some dest)
      × (text_of b m.instr ≡ some instr)
      × (args_of b m ≡ args)
  meta_of-fields = (
    text_field _ process _ _ _ source (split_source process dest instr args)
        (source_at-eq process dest instr args),
    text_field _ dest _ _ _ destination (split_dest process dest instr args)
        (sym (length-le32 (bundle_size process dest instr args))),
    text_field _ instr _ _ _ instruction (split_instr process dest instr args)
        (instr_at-eq process dest instr args),
    args_read process dest instr args,
  )
