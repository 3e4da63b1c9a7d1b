-- ===== src/Bus/Digits.antt =====
-- The decimal digits of a connection's number (`allocate_connection_id` of crates/tau-core/src/bus.rs).
use shlop.Prelude.{
  ℕ, zero, suc, ◌+◌, ◌*◌, ◌-◌, ◌/◌, ◌%◌, ◌<◌, ◌≡◌, ap, ◌∙◌, [], ◌∷◌, Bool-cases, inl, inr, arith,
  ltb,
}
use shlop.Prelude.Text.{Str}
use shlop.Bus.Connection.{digits}

-- The number that a text of digits stands for, after the digits read already.
abbrev decimal_value : ℕ → Str → ℕ
decimal_value n [] = n
decimal_value n (c ∷ s) = decimal_value (n * 10 + (c - 48)) s

-- With more fuel than the number, the digits read back as the number.
decimal_value-digits :
    (fuel n : ℕ) (rest : Str)
    → n < fuel
    → decimal_value 0 (digits fuel n rest) ≡ decimal_value n rest
unfolding digits
decimal_value-digits zero n rest h = ground arith
decimal_value-digits (suc fuel) n rest h = elim (Bool-cases (ltb n 10)) [
  | inl e ↦
      ap (decimal_value 0) {x = digits (suc fuel) n rest} {y = (48 + n) ∷ rest} (ground (arith, e))
      ∙ ap (λ k. decimal_value k rest) {x = 0 * 10 + (48 + n - 48)} {y = n} (omega arith)
  | inr e ↦
      ap (decimal_value 0) {x = digits (suc fuel) n rest}
        {y = digits fuel (n / 10) ((48 + n % 10) ∷ rest)} (ground (arith, e))
      ∙ decimal_value-digits fuel (n / 10) ((48 + n % 10) ∷ rest) (ground (arith, e))
      ∙ ap (λ k. decimal_value k rest) {x = n / 10 * 10 + (48 + n % 10 - 48)} {y = n} (omega arith)
]
