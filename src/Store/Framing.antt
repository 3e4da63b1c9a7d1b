-- ===== src/Store/Framing.antt =====
-- The length-prefixed records of `events.cbor` (`append_cbor_record`, `read_cbor_records` and
-- `load_session_events` of crates/tau-core/src/session_store.rs). The file is its bytes. The CBOR
-- encoding of a record is a parameter.
use native.Mathlib.Nat.{pow-suc}
use shlop.Prelude.{
  ℕ, zero, suc, ◌+◌, ◌*◌, ◌/◌, ◌%◌, ◌^◌, ◌≤◌, ◌<◌, ◌≡◌, refl, ap, ◌∙◌, Option, none, some, List, [],
  ◌∷◌, ◌++◌, append_assoc, arith, if◌then◌else◌, ltb, length, take, drop, length-append,
  take-append_of_length, drop-append_of_length,
}
use shlop.Prelude.Text.{Str}

-- `u64::to_le_bytes` and `u64::from_le_bytes`, for `k` bytes.
unfoldable pub le_bytes : ℕ → ℕ → Str
le_bytes zero n = []
le_bytes (suc k) n = (n % 256) ∷ le_bytes k (n / 256)

unfoldable pub le_value : Str → ℕ
le_value [] = 0
le_value (b ∷ bs) = b + 256 * le_value bs

-- `MAX_RECORD_BYTES`
abbrev pub max_record_bytes : ℕ
max_record_bytes = 64 * 1024 * 1024

-- What `append_cbor_record` adds to the file.
unfoldable pub frame : Str → Str
frame encoded = le_bytes 8 (length encoded) ++ encoded

pub data Loaded (T : Type 0) : Type 0 where
  ok : List T → Loaded T
  read_error decode_error out_of_fuel : Loaded T

abbrev pub push_record : {T : Type 0} → T → Loaded T → Loaded T
push_record r (ok rs) = ok (r ∷ rs)
push_record r e = e

module _ {T : Type 0} (decode : Str → Option T) where
  -- One record of length `len` at the start of `rest`; `next` reads what follows.
  unfoldable pub read_one : (Str → Loaded T) → ℕ → Str → Loaded T
  read_one next len rest =
      if ltb max_record_bytes len
      then read_error
      else if ltb (length rest) len
      then read_error
      else elim (decode (take len rest)) [
        | none ↦ decode_error
        | some r ↦ push_record r (next (drop len rest))
      ]

  -- The loop of `read_cbor_records`. A file that ends inside a length is taken to end before it.
  unfoldable pub read_records : ℕ → Str → Loaded T
  read_records zero bytes = out_of_fuel
  read_records (suc fuel) bytes =
      if ltb (length bytes) 8
      then ok []
      else read_one (read_records fuel) (le_value (take 8 bytes)) (drop 8 bytes)

  -- A round reads eight bytes at least, so the number of bytes bounds the rounds.
  unfoldable pub load_records : Str → Loaded T
  load_records bytes = read_records (suc (length bytes)) bytes

pub length-le_bytes : (k n : ℕ) → length (le_bytes k n) ≡ k
unfolding le_bytes
length-le_bytes zero n = refl
length-le_bytes (suc k) n = ap suc (length-le_bytes k (n / 256))

-- A number below `256 ^ k` is read back from its `k` bytes.
pub le_value-le_bytes : (k n : ℕ) → n < 256 ^ k → le_value (le_bytes k n) ≡ n
unfolding le_bytes le_value
le_value-le_bytes zero n h = omega arith
le_value-le_bytes (suc k) n h =
    let ih = le_value-le_bytes k (n / 256) (omega (arith, pow-suc 256 k)) in omega arith

take_header : (encoded rest : Str) → take 8 (frame encoded ++ rest) ≡ le_bytes 8 (length encoded)
unfolding frame
take_header encoded rest = rw (append_assoc (le_bytes 8 (length encoded)) encoded rest) (
    take-append_of_length 8 (le_bytes 8 (length encoded)) (encoded ++ rest)
      (length-le_bytes 8 (length encoded)))

pub drop_header : (encoded rest : Str) → drop 8 (frame encoded ++ rest) ≡ encoded ++ rest
unfolding frame
drop_header encoded rest = rw (append_assoc (le_bytes 8 (length encoded)) encoded rest) (
    drop-append_of_length 8 (le_bytes 8 (length encoded)) (encoded ++ rest)
      (length-le_bytes 8 (length encoded)))

pub header_value :
    (encoded rest : Str)
    → length encoded < 2 ^ 64
    → le_value (take 8 (frame encoded ++ rest)) ≡ length encoded
header_value encoded rest h =
    ap le_value (take_header encoded rest) ∙ le_value-le_bytes 8 (length encoded) (omega arith)

pub length-frame : (encoded : Str) → length (frame encoded) ≡ 8 + length encoded
unfolding frame
length-frame encoded =
    omega (
      arith,
      length-append (le_bytes 8 (length encoded)) encoded,
      length-le_bytes 8 (length encoded),
    )

-- The file that a list of records makes.
unfoldable pub frames : {T : Type 0} → (T → Str) → List T → Str
unfolding frame
frames encode [] = []
frames encode (r ∷ rs) = frame (encode r) ++ frames encode rs

module _ {T : Type 0} (decode : Str → Option T) where
  pub read_one-append :
      (next : Str → Loaded T) (encoded rest : Str) (r : T)
      → length encoded ≤ max_record_bytes
      → decode encoded ≡ some r
      → read_one decode next (length encoded) (encoded ++ rest) ≡ push_record r (next rest)
  unfolding read_one
  read_one-append next encoded rest r small decodes = ground (
    arith,
    take-append_of_length (length encoded) encoded rest refl,
    drop-append_of_length (length encoded) encoded rest refl,
    length-append encoded rest,
  )

  pub read_one-oversized :
      (next : Str → Loaded T) (len : ℕ) (rest : Str)
      → max_record_bytes < len
      → read_one decode next len rest ≡ read_error
  unfolding read_one
  read_one-oversized next len rest h = ground arith

  pub read_round :
      (fuel : ℕ) (bytes : Str)
      → 8 ≤ length bytes
      → read_records decode (suc fuel) bytes
        ≡ read_one decode (read_records decode fuel) (le_value (take 8 bytes)) (drop 8 bytes)
  unfolding read_records
  read_round fuel bytes h = ground arith

  pub read_frame :
      (fuel : ℕ) (encoded rest : Str) (r : T)
      → length encoded ≤ max_record_bytes
      → decode encoded ≡ some r
      → read_records decode (suc fuel) (frame encoded ++ rest)
        ≡ push_record r (read_records decode fuel rest)
  read_frame fuel encoded rest r small decodes =
      read_round fuel (frame encoded ++ rest)
        (omega (arith, length-append (frame encoded) rest, length-frame encoded))
      ∙ ap (λ n. read_one decode (read_records decode fuel) n (drop 8 (frame encoded ++ rest)))
          (header_value encoded rest (omega arith))
      ∙ ap (read_one decode (read_records decode fuel) (length encoded)) (drop_header encoded rest)
      ∙ read_one-append (read_records decode fuel) encoded rest r small decodes

  -- A file ends, for the reader, in at most seven bytes that begin a length.
  pub read_end :
      (fuel : ℕ) (torn : Str) → length torn < 8 → read_records decode (suc fuel) torn ≡ ok []
  unfolding read_records
  read_end fuel torn h = ground arith
