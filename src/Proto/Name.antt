-- ===== src/Proto/Name.antt =====
-- `EventName` of crates/tau-proto/src/events.rs: a dotted name, its `Display` and `FromStr`.
use mathlib.Core.Option
use shlop.Prelude.{
  ℕ, ◌≡◌, ◌↔◌, inl, inr, Bool, true, not, ◌&&◌, ◌∷◌, [], ◌++◌, arith, if◌then◌else◌, Option-cases,
  Eq, ◌==◌, ==_iff, Option, none, some, eqb, eqb_iff, all,
}
use shlop.Prelude.Text.{Str, str_eq}
use shlop.Proto.Category.{
  EventCategory, category_eq, category_beq_iff, as_str, from_wire, as_str-from_wire,
}

pub record EventName : Type 0 where
  pub category : EventCategory
  pub call : Str

-- The derived `PartialEq`.
abbrev pub name_beq : EventName → EventName → Bool
name_beq a b = a.category == b.category && a.call == b.call

pub name_beq_iff : (a b : EventName) → (name_beq a b ≡ true) ↔ (a ≡ b)
name_beq_iff a b = (
  (λ h. ground (arith, category_beq_iff a.category b.category, ==_iff a.call b.call)),
  λ h. ground (arith, category_beq_iff a.category b.category, ==_iff a.call b.call),
)

instance abbrev pub name_eq : Eq EventName
name_eq = record { same = name_beq; decides = name_beq_iff }

abbrev pub dot : ℕ
dot = b'.'

-- `Display`: `"{category}.{call}"`
unfoldable pub display : EventName → Str
display n = as_str n.category ++ (dot ∷ n.call)

-- `str::split_once`
unfoldable pub split_once : ℕ → Str → Option (Str × Str)
split_once d [] = none
split_once d (c ∷ s) =
    let rest = Option.map (λ (p : Str × Str). (c ∷ p.0, p.1)) (split_once d s) in
    if eqb c d then some ([], s) else rest

-- `FromStr`; the error is `none`.
unfoldable pub from_str : Str → Option EventName
from_str value = elim (split_once dot value) [
  | none ↦ none
  | some (cat, call) ↦ some (record { category = from_wire cat; call = call })
]

pub split_once-append :
    (d : ℕ) (s : Str) {a b : Str} → split_once d s ≡ some (a, b) → s ≡ a ++ (d ∷ b)
unfolding split_once
split_once-append d [] h = cc
split_once-append d (c ∷ s) {a} {b} h = elim (Option-cases (split_once d s)) [
  | inl e ↦ ground arith
  | inr ((x, y), e) ↦ ground (arith, split_once-append d s {a = x} {b = y} e)
]

-- A name that parses prints as the text that was parsed, whatever its category and call.
pub display-from_str : (s : Str) (n : EventName) → from_str s ≡ some n → display n ≡ s
unfolding display from_str
display-from_str s n h = elim (Option-cases (split_once dot s)) [
  | inl e ↦ ground arith
  | inr ((x, y), e) ↦ ground (arith, as_str-from_wire x, split_once-append dot s {a = x} {b = y} e)
]

split_once-first :
    (d : ℕ) (a b : Str)
    → all (λ c. not (eqb c d)) a ≡ true
    → split_once d (a ++ (d ∷ b)) ≡ some (a, b)
unfolding split_once
split_once-first d [] b h = ground (arith, eqb_iff d d)
split_once-first d (c ∷ a) b h = ground (arith, split_once-first d a b)

-- A printed name parses back, if its category has no dot and is in the form that parsing gives.
pub from_str-display :
    (n : EventName)
    → from_wire (as_str n.category) ≡ n.category
    → all (λ c. not (eqb c dot)) (as_str n.category) ≡ true
    → from_str (display n) ≡ some n
unfolding from_str display
from_str-display n known plain =
    ground (arith, split_once-first dot (as_str n.category) n.call plain)
