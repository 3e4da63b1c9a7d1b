-- ===== src/Store/Termination.antt =====
-- `load_records` takes as many rounds as it needs, whatever the file holds.
use shlop.Prelude.{
  ℕ, zero, suc, ◌<◌, ◌≡◌, refl, ap, ◌∙◌, Bool, true, false, Bool-cases, Option-cases, inl, inr,
  Option, arith, ltb, length, take, drop, length-drop,
}
use shlop.Prelude.Text.{Str}
use shlop.Store.Framing.{
  Loaded, ok, read_error, decode_error, out_of_fuel, push_record, max_record_bytes, le_value,
  read_one, read_records, load_records, read_round,
}

abbrev pub ran_out : {T : Type 0} → Loaded T → Bool
ran_out out_of_fuel = true
ran_out _ = false

push_keeps : {T : Type 0} (r : T) (l : Loaded T) → ran_out (push_record r l) ≡ ran_out l
push_keeps r (ok rs) = refl
push_keeps r read_error = refl
push_keeps r decode_error = refl
push_keeps r out_of_fuel = refl

module _ {T : Type 0} (decode : Str → Option T) where
  one_total :
      (next : Str → Loaded T) (len : ℕ) (rest : Str)
      → ran_out (next (drop len rest)) ≡ false
      → ran_out (read_one decode next len rest) ≡ false
  unfolding read_one
  one_total next len rest h = elim (Bool-cases (ltb max_record_bytes len)) [
    | inl a ↦ ground (arith, a)
    | inr a ↦ elim (Bool-cases (ltb (length rest) len)) [
      | inl b ↦ ground (arith, a, b)
      | inr b ↦ elim (Option-cases (decode (take len rest))) [
        | inl o ↦ ground (arith, a, b, o)
        | inr (r, o) ↦ ground (arith, a, b, o, h, push_keeps r (next (drop len rest)))
      ]
    ]
  ]

  read_total :
      (fuel : ℕ) (bytes : Str)
      → length bytes < fuel
      → ran_out (read_records decode fuel bytes) ≡ false
  unfolding read_records
  read_total zero bytes h = ground arith
  read_total (suc fuel) bytes h = elim (Bool-cases (ltb (length bytes) 8)) [
    | inl short ↦ ground (arith, short)
    | inr full ↦
        ap ran_out (read_round decode fuel bytes (ground (arith, full)))
        ∙ one_total (read_records decode fuel) (le_value (take 8 bytes)) (drop 8 bytes) (
            read_total fuel (drop (le_value (take 8 bytes)) (drop 8 bytes)) (
              ground (
                arith,
                full,
                length-drop 8 bytes,
                length-drop (le_value (take 8 bytes)) (drop 8 bytes),
              )))
  ]

  -- Loading ends for every file, with its records or with an error: the rounds never run out.
  pub load_records_total : (bytes : Str) → ran_out (load_records decode bytes) ≡ false
  unfolding load_records
  load_records_total bytes = read_total (suc (length bytes)) bytes (omega arith)
