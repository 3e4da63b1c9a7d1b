-- ===== src/Proto/Category.antt =====
-- `EventCategory` of crates/tau-proto/src/events.rs: the first segment of an event's name.
use shlop.Prelude.{
  ◌≡◌, refl, ◌↔◌, inl, inr, Bool, true, false, arith, if◌then◌else◌, Bool-cases, Eq, ◌==◌, ==_iff,
  sym, ap, ◌∙◌,
}
use shlop.Prelude.Text.{Str, text, str_eq}

pub data EventCategory : Type 0 where
  tool extension harness ui shell session agent term : EventCategory
  other : Str → EventCategory

-- The derived `PartialEq`.
unfoldable pub category_beq : EventCategory → EventCategory → Bool
category_beq tool tool = true
category_beq extension extension = true
category_beq harness harness = true
category_beq ui ui = true
category_beq shell shell = true
category_beq session session = true
category_beq agent agent = true
category_beq term term = true
category_beq (other a) (other b) = a == b
category_beq _ _ = false

pub category_beq_iff : (a b : EventCategory) → (category_beq a b ≡ true) ↔ (a ≡ b)
unfolding category_beq
category_beq_iff tool tool = ((λ _. refl), λ _. refl)
category_beq_iff extension extension = ((λ _. refl), λ _. refl)
category_beq_iff harness harness = ((λ _. refl), λ _. refl)
category_beq_iff ui ui = ((λ _. refl), λ _. refl)
category_beq_iff shell shell = ((λ _. refl), λ _. refl)
category_beq_iff session session = ((λ _. refl), λ _. refl)
category_beq_iff agent agent = ((λ _. refl), λ _. refl)
category_beq_iff term term = ((λ _. refl), λ _. refl)
category_beq_iff (other a) (other b) =
    ((λ h. ap other ((==_iff a b).0 h)), λ h. ground (arith, ==_iff a b))
category_beq_iff _ _ = ((λ h. cc), λ h. cc)

instance abbrev pub category_eq : Eq EventCategory
category_eq = record { same = category_beq; decides = category_beq_iff }

unfoldable pub as_str : EventCategory → Str
as_str tool = text "tool"
as_str extension = text "extension"
as_str harness = text "harness"
as_str ui = text "ui"
as_str shell = text "shell"
as_str session = text "session"
as_str agent = text "agent"
as_str term = text "term"
as_str (other s) = s

unfoldable pub from_wire : Str → EventCategory
from_wire s =
    if s == text "tool"
    then tool
    else if s == text "extension"
    then extension
    else if s == text "harness"
    then harness
    else if s == text "ui"
    then ui
    else if s == text "shell"
    then shell
    else if s == text "session"
    then session
    else if s == text "agent"
    then agent
    else if s == text "term"
    then term
    else other s

-- One test of the ladder: a hit fixes the string, and a miss goes on.
as_str_step :
    (s : Str) (t : Str) (c d : EventCategory)
    → as_str c ≡ t
    → as_str d ≡ s
    → as_str (if s == t then c else d) ≡ s
as_str_step s t c d hit miss = elim (Bool-cases (s == t)) [
  | inl e ↦ rw e (hit ∙ sym ((==_iff s t).0 e))
  | inr e ↦ rw e miss
]

-- Parsing a category loses nothing: its wire string is the string that was parsed.
pub as_str-from_wire : (s : Str) → as_str (from_wire s) ≡ s
unfolding from_wire as_str
as_str-from_wire s = as_str_step s _ tool _ refl (
    as_str_step s _ extension _ refl (
      as_str_step s _ harness _ refl (
        as_str_step s _ ui _ refl (
          as_str_step s _ shell _ refl (
            as_str_step s _ session _ refl
              (as_str_step s _ agent _ refl (as_str_step s _ term _ refl refl)))))))
