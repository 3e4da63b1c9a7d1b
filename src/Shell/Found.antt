-- ===== src/Shell/Found.antt =====
-- What the edits of a file find (crates/tau-ext-shell/src/tools/edit.rs): occurrences of the texts that
-- were asked for.
use shlop.Prelude.{
  ℕ, zero, suc, ◌+◌, ◌-◌, ◌≤◌, ◌<◌, ◌≡◌, refl, ap, sym, subst, ◌∙◌, ◌⊎◌, inl, inr, Option, none,
  some, false, List, [], ◌∷◌, ◌++◌, length, take, drop, is_empty, ◌==◌, ==_iff, nat_eq, arith, All,
  Bool-cases, length-take, length-drop,
}
use shlop.Prelude.Text.{Str, str_eq}
use shlop.Shell.Splice.{Replacement, drop-split}
use shlop.Shell.Edit.{
  Edit, EditError, no_old_text, no_new_text, Edited, edited, refused, matches_from,
  find_subslice_matches, replacements_at, replacements_between, text_or, edit_replacements, collect,
  ◌>>?◌, parse_optional, parse_optional_line_count, line_starts, byte_offset_for_line,
}

-- The replacement puts the edit's new text for an occurrence of its old one.
unfoldable pub IsMatch : Str → Edit → Replacement ℕ → Type 0
IsMatch original e r =
    (e.old_text ≡ some (take r.old_len (drop r.start_idx original)))
    × (e.new_text ≡ some r.new_segment)
    × (0 < r.old_len)
    × (r.start_idx + r.old_len ≤ length original)

-- The replacement is for one of the edits.
unfoldable pub IsAsked : Str → List Edit → Replacement ℕ → Type 0
IsAsked original [] r = 0 < 0
IsAsked original (e ∷ es) r = IsMatch original e r ⊎ IsAsked original es r

pub take_same : {A : Type 0} (j k : ℕ) (xs : List A) → j ≡ k → take j xs ≡ take k xs
take_same j k xs h = ap (λ n. take n xs) h

take_nil : {A : Type 0} (k : ℕ) → take {A = A} k [] ≡ []
take_nil zero = refl
take_nil (suc k) = refl

pub drop-take : {A : Type 0} (j m : ℕ) (xs : List A) → drop j (take m xs) ≡ take (m - j) (drop j xs)
drop-take zero m xs = take_same m (m - 0) xs (omega arith)
drop-take (suc j) zero [] = sym (take_nil (0 - suc j))
drop-take (suc j) zero (x ∷ xs) = take_same 0 (0 - suc j) (drop j xs) (omega arith)
drop-take (suc j) (suc m) [] = sym (take_nil (suc m - suc j))
drop-take (suc j) (suc m) (x ∷ xs) =
    drop-take j m xs ∙ take_same (m - j) (suc m - suc j) (drop j xs) (omega arith)

take-take :
    {A : Type 0} (n k : ℕ) (xs : List A)
    → n ≤ length (take n (take k xs))
    → take n (take k xs) ≡ take n xs
take-take zero k xs h = refl
take-take (suc n) zero xs h = absurd (omega (arith, h))
take-take (suc n) (suc k) [] h = refl
take-take (suc n) (suc k) (x ∷ xs) h = ap (◌∷◌ x) (take-take n k xs (omega arith))

-- What a window of the searched part is in the whole.
window :
    (original old : Str) (start size j : ℕ)
    → take (length old) (drop j (take size (drop start original))) ≡ old
    → (take (length old) (drop (start + j) original) ≡ old)
      × (0 < length old → start + j + length old ≤ length original)
window original old start size j h =
    let zs = drop j (drop start original) in
    let same = ap (take (length old)) (drop-take j size (drop start original)) in
    let whole = take-take (length old) (size - j) zs (omega (arith, ap length (sym same ∙ h))) in
    let found =
      ap (take (length old)) (drop-split start j (start + j) original refl)
      ∙ (sym whole ∙ (sym same ∙ h)) in
    (
      found,
      λ some_byte. omega (
        arith,
        ap length found,
        length-take (length old) (drop (start + j) original),
        length-drop (start + j) original,
      ),
    )

matches_from-All :
    (haystack needle : Str) (i count : ℕ)
    → All
        (λ j. take (length needle) (drop j haystack) ≡ needle)
        (matches_from haystack needle i count)
unfolding matches_from
matches_from-All haystack needle i zero = tt
matches_from-All haystack needle i (suc count) =
    elim (Bool-cases (take (length needle) (drop i haystack) == needle)) [
      | inl hit ↦ rw hit (
        (==_iff (take (length needle) (drop i haystack)) needle).0 hit,
        matches_from-All haystack needle (i + 1) count,
      )
      | inr miss ↦ rw miss (matches_from-All haystack needle (i + 1) count)
    ]

All-take : {A : Type 0} (P : A → Type 0) (n : ℕ) (xs : List A) → All P xs → All P (take n xs)
All-take P zero xs h = tt
All-take P (suc n) [] h = tt
All-take P (suc n) (x ∷ xs) h = (h.0, All-take P n xs h.1)

pub All-append :
    {A : Type 0} (P : A → Type 0) (xs ys : List A) → All P xs → All P ys → All P (xs ++ ys)
All-append P [] ys h k = k
All-append P (x ∷ xs) ys h k = (h.0, All-append P xs ys h.1 k)

All-weaken :
    {A : Type 0} (P Q : A → Type 0) (xs : List A) → ((x : A) → P x → Q x) → All P xs → All Q xs
All-weaken P Q [] f h = tt
All-weaken P Q (x ∷ xs) f h = (f x h.0, All-weaken P Q xs f h.1)

pub edited-inj : {A : Type 0} {x y : A} → edited x ≡ edited y → x ≡ y
edited-inj h = cc

some_bytes : (s : Str) → is_empty s ≡ false → 0 < length s
some_bytes [] h = cc
some_bytes (c ∷ s) h = omega arith

module _ (original : Str) (e : Edit) (old new : Str) (old_is : e.old_text ≡ some old)
    (new_is : e.new_text ≡ some new) where
  replacements_at-All :
      (start size : ℕ) (ms : List ℕ)
      → 0 < length old
      → All (λ j. take (length old) (drop j (take size (drop start original))) ≡ old) ms
      → All (IsMatch original e) (replacements_at start old new ms)
  unfolding replacements_at IsMatch
  replacements_at-All start size [] some_byte h = tt
  replacements_at-All start size (m ∷ ms) some_byte h =
      let (found, inside) = window original old start size m h.0 in
      (
        (old_is ∙ ap some (sym found), new_is, some_byte, inside some_byte),
        replacements_at-All start size ms some_byte h.1,
      )

  between-All :
      (limit start end : ℕ) {rs : List (Replacement ℕ)}
      → replacements_between original old new limit start end ≡ edited rs
      → All (IsMatch original e) rs
  unfolding replacements_between find_subslice_matches
  between-All limit start end {rs} h = elim (Bool-cases (is_empty old)) [
    | inl empty ↦ absurd (ground (arith, h, empty))
    | inr full ↦
        (let hay = take (end - start) (drop start original) in
          let ms = take limit (matches_from hay old 0 (suc (length hay) - length old)) in
          let same : replacements_at start old new ms ≡ rs = edited-inj (ground (arith, h, full)) in
          subst (All (IsMatch original e)) same (
            replacements_at-All start (end - start) ms (some_bytes old full)
              (All-take _ limit _ (matches_from-All hay old 0 _))))
  ]

pub bound :
    {A B : Type 0} (m : Edited A) (f : A → Edited B) {b : B}
    → (m >>? f) ≡ edited b
    → (a : A) × ((m ≡ edited a) × (f a ≡ edited b))
bound (edited a) f h = (a, (refl, h))
bound (refused e) f h = cc

text_or-edited : (e : EditError) (t : Option Str) {s : Str} → text_or e t ≡ edited s → t ≡ some s
unfolding text_or
text_or-edited e none h = cc
text_or-edited e (some t) h = ap some (edited-inj h)

edit_replacements-All :
    (original : Str) (e : Edit) {rs : List (Replacement ℕ)}
    → edit_replacements original e ≡ edited rs
    → All (IsMatch original e) rs
unfolding edit_replacements
edit_replacements-All original e h =
    let (old, (old_is, h1)) = bound (text_or no_old_text e.old_text) _ h in
    let (new, (new_is, h2)) = bound (text_or no_new_text e.new_text) _ h1 in
    let (limit, (limit_is, h3)) = bound (parse_optional e.max_matches 1) _ h2 in
    let (start, (start_is, h4)) = bound (parse_optional e.start_line 1) _ h3 in
    let (end, (end_is, h5)) =
      bound (parse_optional_line_count e.line_count start (length (line_starts original) + 1)) _
        h4 in
    between-All original e old new (text_or-edited no_old_text e.old_text old_is)
      (text_or-edited no_new_text e.new_text new_is) limit
      (byte_offset_for_line (line_starts original) start (length original))
      (byte_offset_for_line (line_starts original) end (length original)) h5

pub collect-All :
    (original : Str) (es : List Edit) {rs : List (Replacement ℕ)}
    → collect original es ≡ edited rs
    → All (IsAsked original es) rs
unfolding collect IsAsked
collect-All original [] h = subst (All (IsAsked original [])) (edited-inj h) tt
collect-All original (e ∷ es) h =
    let (rs, (rs_is, h1)) = bound (edit_replacements original e) _ h in
    let (ss, (ss_is, h2)) = bound (collect original es) _ h1 in
    subst (All (IsAsked original (e ∷ es))) (edited-inj h2) (
      All-append (IsAsked original (e ∷ es)) rs ss
        (All-weaken (IsMatch original e) (IsAsked original (e ∷ es)) rs (λ r p. inl p)
          (edit_replacements-All original e rs_is))
        (All-weaken (IsAsked original es) (IsAsked original (e ∷ es)) ss (λ r p. inr p)
          (collect-All original es ss_is)))
