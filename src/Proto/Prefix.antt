-- ===== src/Proto/Prefix.antt =====
-- `EventName::matches_prefix`, which compares without building the dotted name.
use shlop.Prelude.{
  ℕ, suc, ◌≡◌, Bool, false, not, ◌∷◌, [], ◌++◌, arith, if◌then◌else◌, Option, none, some, leb, eqb,
  length, get_elem?, drop,
}
use shlop.Prelude.Text.{Str, str_eq, starts_with}
use shlop.Proto.Category.{as_str}
use shlop.Proto.Name.{EventName, dot, display}

-- What follows a category that the prefix covers: the dot and the start of the call.
after_category : Str → ℕ → Option ℕ → Str → Bool
after_category prefix len none call = false
after_category prefix len (some b) call =
    if eqb b dot then starts_with call (drop (suc len) prefix) else false

matches_parts : Str → Str → Str → Bool
unfolding after_category
matches_parts cat call prefix =
    if leb (length prefix) (length cat)
    then starts_with cat prefix
    else if not (starts_with prefix cat)
    then false
    else after_category prefix (length cat) (get_elem? prefix (length cat)) call

unfoldable pub matches_prefix : EventName → Str → Bool
unfolding matches_parts
matches_prefix n prefix = matches_parts (as_str n.category) n.call prefix

matches_parts-eq :
    (cat call prefix : Str)
    → matches_parts cat call prefix ≡ starts_with (cat ++ (dot ∷ call)) prefix
unfolding matches_parts starts_with
matches_parts-eq [] call [] = ground arith
matches_parts-eq (c ∷ cat) call [] = ground arith
matches_parts-eq [] call (p ∷ prefix) = ground arith
matches_parts-eq (c ∷ cat) call (p ∷ prefix) = ground (arith, matches_parts-eq cat call prefix)

-- The comparison without allocation decides exactly whether the dotted name starts with the prefix.
pub matches_prefix-eq-starts_with :
    (n : EventName) (prefix : Str) → matches_prefix n prefix ≡ starts_with (display n) prefix
unfolding matches_prefix display
matches_prefix-eq-starts_with n prefix = matches_parts-eq (as_str n.category) n.call prefix
