-- ===== src/Store/Loading.antt =====
-- Loading a log that appends wrote: it reads back, up to a torn length, and not past the limit.
use shlop.Prelude.{
  ℕ, zero, suc, ◌^◌, ◌≤◌, ◌<◌, ◌≡◌, refl, sym, ap, ◌∙◌, Option, some, List, [], ◌∷◌, ◌++◌,
  append_assoc, append-nil, arith, length, drop, length-append, All,
}
use shlop.Prelude.Text.{Str}
use shlop.Store.Framing.{
  max_record_bytes, frame, frames, ok, read_error, push_record, read_one, read_records,
  load_records, length-frame, header_value, read_one-oversized, read_round, read_frame, read_end,
}

module _ {T : Type 0} (encode : T → Str) (decode : Str → Option T) where
  -- What the log asks of the encoding: it can be read back, and is not over the limit.
  abbrev pub Fits : T → Type 0
  Fits r = (decode (encode r) ≡ some r) × (length (encode r) ≤ max_record_bytes)

  frames-cons :
      (r : T) (rs : List T) (torn : Str)
      → frames encode (r ∷ rs) ++ torn ≡ frame (encode r) ++ (frames encode rs ++ torn)
  unfolding frames
  frames-cons r rs torn = append_assoc (frame (encode r)) (frames encode rs) torn

  pub frames-append :
      (rs ss : List T) → frames encode (rs ++ ss) ≡ frames encode rs ++ frames encode ss
  unfolding frames
  frames-append [] ss = refl
  frames-append (r ∷ rs) ss =
      ap (◌++◌ (frame (encode r))) (frames-append rs ss)
      ∙ sym (append_assoc (frame (encode r)) (frames encode rs) (frames encode ss))

  read_frames :
      (rs : List T) (torn : Str) (fuel : ℕ)
      → All Fits rs
      → length torn < 8
      → length rs ≤ fuel
      → read_records decode (suc fuel) (frames encode rs ++ torn) ≡ ok rs
  read_frames [] torn fuel fits short enough = unfold frames in read_end decode fuel torn short
  read_frames (r ∷ rs) torn zero fits short enough = absurd (omega arith)
  read_frames (r ∷ rs) torn (suc fuel) fits short enough =
      ap (read_records decode (suc (suc fuel))) (frames-cons r rs torn)
      ∙ read_frame decode (suc fuel) (encode r) (frames encode rs ++ torn) r fits.0.1 fits.0.0
      ∙ ap (push_record r) (read_frames rs torn fuel fits.1 short (omega arith))

  length-frames : (rs : List T) → length rs ≤ length (frames encode rs)
  unfolding frames
  length-frames [] = omega arith
  length-frames (r ∷ rs) = omega (
    arith,
    length-frames rs,
    length-frame (encode r),
    length-append (frame (encode r)) (frames encode rs),
  )

  -- If every record can be read back from its encoding, and no encoding is over the limit, the log
  -- reads back as the records that were appended, in order, also with fewer than eight more bytes
  -- at its end.
  pub load_records-frames :
      (rs : List T) (torn : Str)
      → All Fits rs
      → length torn < 8
      → load_records decode (frames encode rs ++ torn) ≡ ok rs
  unfolding load_records
  load_records-frames rs torn fits short =
      read_frames rs torn (length (frames encode rs ++ torn)) fits short
        (omega (arith, length-frames rs, length-append (frames encode rs) torn))

  read_oversized :
      (rs : List T) (encoded rest : Str) (fuel : ℕ)
      → All Fits rs
      → max_record_bytes < length encoded
      → length encoded < 2 ^ 64
      → length rs ≤ fuel
      → read_records decode (suc fuel) (frames encode rs ++ (frame encoded ++ rest)) ≡ read_error
  unfolding frames frame
  read_oversized [] encoded rest fuel fits big word enough =
      read_round decode fuel (frame encoded ++ rest)
        (omega (arith, length-append (frame encoded) rest, length-frame encoded))
      ∙ ap (λ n. read_one decode (read_records decode fuel) n (drop 8 (frame encoded ++ rest)))
          (header_value encoded rest word)
      ∙ read_one-oversized decode (read_records decode fuel) (length encoded) _ big
  read_oversized (r ∷ rs) encoded rest zero fits big word enough = absurd (omega arith)
  read_oversized (r ∷ rs) encoded rest (suc fuel) fits big word enough =
      ap (read_records decode (suc (suc fuel))) (frames-cons r rs (frame encoded ++ rest))
      ∙ read_frame decode (suc fuel) (encode r) (frames encode rs ++ (frame encoded ++ rest)) r
          fits.0.1 fits.0.0
      ∙ ap (push_record r) (read_oversized rs encoded rest fuel fits.1 big word (omega arith))

  -- Appending does not check the limit that reading enforces: after a record whose encoding is over
  -- `MAX_RECORD_BYTES` (and below 2 ^ 64 bytes) the log does not load, whatever follows.
  pub load_records-oversized :
      (rs : List T) (encoded rest : Str)
      → All Fits rs
      → max_record_bytes < length encoded
      → length encoded < 2 ^ 64
      → load_records decode (frames encode rs ++ (frame encoded ++ rest)) ≡ read_error
  load_records-oversized rs encoded rest fits big word =
      unfold load_records in
      read_oversized rs encoded rest (length (frames encode rs ++ (frame encoded ++ rest))) fits big
        word
        (omega (arith, length-frames rs, length-append (frames encode rs) (frame encoded ++ rest)))

  pub load_records-frames_whole :
      (rs : List T) → All Fits rs → load_records decode (frames encode rs) ≡ ok rs
  load_records-frames_whole rs fits =
      ap (load_records decode) (sym (append-nil (frames encode rs)))
      ∙ load_records-frames rs [] fits (omega arith)

  pub frames-eq-nil : (rs : List T) → frames encode rs ≡ [] → rs ≡ []
  frames-eq-nil [] h = refl
  frames-eq-nil (r ∷ rs) h = absurd (omega (arith, length-frames (r ∷ rs), ap length h))

  pub frames-push :
      (rs : List T) (r : T) → frames encode (rs ++ r ∷ []) ≡ frames encode rs ++ frame (encode r)
  frames-push rs r =
      frames-append rs (r ∷ [])
      ∙ ap (◌++◌ (frames encode rs)) (unfold frames in append-nil (frame (encode r)))
