-- ===== src/Shell/Seek.antt =====
-- What `seek_sequence` of crates/tau-ext-shell/src/tools/apply_patch.rs finds.
use shlop.Prelude.{
  ℕ, zero, suc, ◌+◌, ◌-◌, ◌≤◌, ◌<◌, ◌≡◌, ◌≢◌, refl, ap, sym, ◌∙◌, ◌⊎◌, inl, inr, Option, none, some,
  Bool, true, false, ◌&&◌, List, [], ◌∷◌, arith, if◌then◌else◌, ltb, length, drop, ◌==◌, ==_iff,
  Bool-cases, ltb→lt, ltb→le, Option-cases,
}
use shlop.Prelude.Text.{Str, str_eq}
use shlop.Prelude.Lines.{trim, trim_end, trim_start}
use shlop.Shell.Chunks.{find_from, matches_by, seek_by, or_else, seek_sequence}

-- What a search found: in range, and the test passes there.
find_from-passes :
    (p : ℕ → Bool) (i count : ℕ) {j : ℕ}
    → find_from p i count ≡ some j
    → (i ≤ j) × (j < i + count) × (p j ≡ true)
unfolding find_from
find_from-passes p i zero h = cc
find_from-passes p i (suc count) {j} h = elim (Bool-cases (p i)) [
  | inl hit ↦ (ground arith, ground arith, ground arith)
  | inr miss ↦
      (let rest = find_from-passes p (suc i) count {j = j} (ground arith) in
        (omega (arith, rest.0), omega (arith, rest.1), rest.2))
]

Nat-split : (i j : ℕ) → i ≤ j → (i ≡ j) ⊎ (suc i ≤ j)
Nat-split i j h = elim (Bool-cases (ltb i j)) [
  | inl l ↦ inr (ground arith)
  | inr l ↦ inl (ground arith)
]

-- A search that found a number found the first.
find_from-least :
    (p : ℕ → Bool) (i count j : ℕ)
    → i ≤ j
    → j < i + count
    → p j ≡ true
    → (k : ℕ) × ((find_from p i count ≡ some k) × (k ≤ j))
unfolding find_from
find_from-least p i zero j low high hit = absurd (omega arith)
find_from-least p i (suc count) j low high hit = elim (Bool-cases (p i)) [
  | inl here ↦ (i, (ground arith, low))
  | inr miss ↦
      (let rest =
          find_from-least p (suc i) count j
            (elim (Nat-split i j low) [ inl e ↦ absurd (ground (arith, ap p e)) | inr l ↦ l ])
            (omega arith) hit in
        (rest.0, (ground (arith, rest.1.0), rest.1.1)))
]

matches_by-length :
    (view : Str → Str) (ls ps : List Str) → matches_by view ls ps ≡ true → length ps ≤ length ls
unfolding matches_by
matches_by-length view ls [] h = omega arith
matches_by-length view [] (p ∷ ps) h = cc
matches_by-length view (l ∷ ls) (p ∷ ps) h = ground (arith, matches_by-length view ls ps)

pub &&-true : (a b : Bool) → (a && b) ≡ true → (a ≡ true) × (b ≡ true)
&&-true true b h = (refl, h)
&&-true false b h = cc

-- A match stays one through a coarser view.
matches_by-coarser :
    (view coarser : Str → Str) (ls ps : List Str)
    → matches_by view ls ps ≡ true
    → matches_by (λ l. coarser (view l)) ls ps ≡ true
unfolding matches_by
matches_by-coarser view coarser ls [] h = refl
matches_by-coarser view coarser [] (p ∷ ps) h = cc
matches_by-coarser view coarser (l ∷ ls) (p ∷ ps) h =
    let both = &&-true (view l == view p) (matches_by view ls ps) h in
    ground (
      arith,
      (==_iff (coarser (view l)) (coarser (view p))).1
          (ap coarser ((==_iff (view l) (view p)).0 both.0)),
      matches_by-coarser view coarser ls ps both.1,
    )

-- `search_start`
abbrev pub first_line : List Str → List Str → ℕ → Bool → ℕ
first_line lines pattern start eof = if eof then length lines - length pattern else start

-- The passes of `seek_sequence` on a pattern that fits.
passes :
    (lines pattern : List Str) (start : ℕ) (eof : Bool)
    → pattern ≢ []
    → length pattern ≤ length lines
    → let from = first_line lines pattern start eof in
      seek_sequence lines pattern start eof
      ≡ or_else
          (seek_by (λ l. l) lines pattern from)
          (or_else (seek_by trim_end lines pattern from) (seek_by trim lines pattern from))
unfolding seek_sequence
passes lines [] start eof some_line fits = absurd (some_line refl)
passes lines (p ∷ ps) start eof some_line fits = ground arith

too_long :
    (lines pattern : List Str) (start : ℕ) (eof : Bool)
    → pattern ≢ []
    → length lines < length pattern
    → seek_sequence lines pattern start eof ≡ none
unfolding seek_sequence
too_long lines [] start eof some_line long = absurd (some_line refl)
too_long lines (p ∷ ps) start eof some_line long = ground arith

-- The pattern is at line `i`, but for white space around the lines.
abbrev pub IsAt : List Str → List Str → ℕ → Type 0
IsAt lines pattern i =
    (i + length pattern ≤ length lines) × (matches_by trim (drop i lines) pattern ≡ true)

seek_by-found :
    (view : Str → Str) (lines pattern : List Str) (start : ℕ) {i : ℕ}
    → length pattern ≤ length lines
    → seek_by view lines pattern start ≡ some i
    → (start ≤ i)
      × (i + length pattern ≤ length lines)
      × (matches_by view (drop i lines) pattern ≡ true)
unfolding seek_by
seek_by-found view lines pattern start {i} fits h =
    let found = find_from-passes (λ j. matches_by view (drop j lines) pattern) start _ h in
    (found.0, omega (arith, found.0, found.1), found.2)

seek_by_complete :
    (view : Str → Str) (lines pattern : List Str) (start j : ℕ)
    → start ≤ j
    → j + length pattern ≤ length lines
    → matches_by view (drop j lines) pattern ≡ true
    → (k : ℕ) × ((seek_by view lines pattern start ≡ some k) × (k ≤ j))
unfolding seek_by
seek_by_complete view lines pattern start j low high hit =
    find_from-least (λ i. matches_by view (drop i lines) pattern) start _ j low (omega arith) hit

exact-trim : (ls ps : List Str) → matches_by (λ l. l) ls ps ≡ true → matches_by trim ls ps ≡ true
exact-trim ls ps h = matches_by-coarser (λ l. l) trim ls ps h

trim_end-trim : (ls ps : List Str) → matches_by trim_end ls ps ≡ true → matches_by trim ls ps ≡ true
unfolding trim
trim_end-trim ls ps h = matches_by-coarser trim_end trim_start ls ps h

pub some-inj : {A : Type 0} {x y : A} → some x ≡ some y → x ≡ y
some-inj h = cc

or_else-hit : {A : Type 0} (a b : Option A) {x : A} → a ≡ some x → or_else a b ≡ some x
or_else-hit a b h = ap (λ o. or_else o b) h

or_else-miss : {A : Type 0} (a b : Option A) → a ≡ none → or_else a b ≡ b
or_else-miss a b h = ap (λ o. or_else o b) h

pub or_else-some :
    {A : Type 0} (a b : Option A) {x : A} → or_else a b ≡ some x → (a ≡ some x) ⊎ (b ≡ some x)
or_else-some none b h = inr h
or_else-some (some a) b h = inl h

-- Where `seek_sequence` finds a pattern of one line at least, it lies whole inside the lines, at or
-- after the first line searched, and the lines there are those of the pattern but for white space
-- around them.
pub seek_sequence-IsAt :
    (lines pattern : List Str) (start : ℕ) (eof : Bool) (i : ℕ)
    → pattern ≢ []
    → seek_sequence lines pattern start eof ≡ some i
    → (first_line lines pattern start eof ≤ i) × IsAt lines pattern i
seek_sequence-IsAt lines pattern start eof i some_line h =
    elim (Bool-cases (ltb (length lines) (length pattern))) [
      | inl long ↦
          absurd (ground (arith, too_long lines pattern start eof some_line (ltb→lt _ _ long)))
      | inr short ↦
          (let from = first_line lines pattern start eof in
            let fits = ltb→le _ _ short in
            let three = sym (passes lines pattern start eof some_line fits) ∙ h in
            elim (or_else-some (seek_by (λ l. l) lines pattern from) _ three) [
              | inl exact ↦
                  (let f = seek_by-found (λ l. l) lines pattern from fits exact in
                    (f.0, (f.1, exact-trim (drop i lines) pattern f.2)))
              | inr rest ↦ elim (or_else-some (seek_by trim_end lines pattern from) _ rest) [
                | inl ends ↦
                    (let f = seek_by-found trim_end lines pattern from fits ends in
                      (f.0, (f.1, trim_end-trim (drop i lines) pattern f.2)))
                | inr both ↦
                    (let f = seek_by-found trim lines pattern from fits both in (f.0, (f.1, f.2)))
              ]
            ])
    ]

-- A pattern that is somewhere in range, but for white space around its lines, is found; and when it
-- is there to the letter, it is found to the letter, there or before.
pub seek_sequence_complete :
    (lines pattern : List Str) (start : ℕ) (eof : Bool) (j : ℕ)
    → pattern ≢ []
    → first_line lines pattern start eof ≤ j
    → IsAt lines pattern j
    → (k : ℕ) × ((seek_sequence lines pattern start eof ≡ some k)
        × (matches_by (λ l. l) (drop j lines) pattern ≡ true
            → (k ≤ j) × (matches_by (λ l. l) (drop k lines) pattern ≡ true)))
seek_sequence_complete lines pattern start eof j some_line low (high, hit) =
    let from = first_line lines pattern start eof in
    let fits : length pattern ≤ length lines = omega arith in
    let exact = seek_by (λ l. l) lines pattern from in
    let at_end = seek_by trim_end lines pattern from in
    let least = seek_by_complete trim lines pattern from j low high hit in
    let never : (k : ℕ)
        → exact ≡ none
        → matches_by (λ l. l) (drop j lines) pattern ≡ true
        → (k ≤ j) × (matches_by (λ l. l) (drop k lines) pattern ≡ true) =
      λ k missed to_the_letter.
        absurd (
          let first = seek_by_complete (λ l. l) lines pattern from j low high to_the_letter in
          cc) in
    rw (passes lines pattern start eof some_line fits) (elim (Option-cases exact) [
      | inr (k, found) ↦ (
        k,
        (
          or_else-hit exact _ found,
          λ to_the_letter.
              let first = seek_by_complete (λ l. l) lines pattern from j low high to_the_letter in
              let same = some-inj (sym found ∙ first.1.0) in
              (
                omega (arith, first.1.1, same),
                (seek_by-found (λ l. l) lines pattern from fits found).2,
              ),
        ),
      )
      | inl missed ↦ elim (Option-cases at_end) [
        | inr (k, found) ↦
            (k, (or_else-miss exact _ missed ∙ or_else-hit at_end _ found, never k missed))
        | inl absent ↦ (
          least.0,
          (
            or_else-miss exact _ missed ∙ (or_else-miss at_end _ absent ∙ least.1.0),
            never least.0 missed,
          ),
        )
      ]
    ])
