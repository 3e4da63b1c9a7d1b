-- ===== src/Shell/Parsing.antt =====
-- What `parse_patch` of crates/tau-ext-shell/src/tools/apply_patch.rs accepts.
use shlop.Prelude.{
  ℕ, zero, suc, ◌≤◌, ◌<◌, ◌≡◌, ◌≢◌, refl, ap, subst, ◌∙◌, ◌⊎◌, inl, inr, Option, none, some, Bool,
  true, false, ◌||◌, List, [], ◌∷◌, ◌++◌, arith, length, eqb, Bool-cases, Option-cases, All, ◌==◌,
  ==_iff, is_empty, head?, last?, drop, length-drop, option_eq,
}
use shlop.Prelude.Text.{Str, str_eq, text, starts_with}
use shlop.Prelude.Lines.{strip_prefix, lines, trim, join_lines, newline}
use shlop.Shell.Chunks.{UpdateChunk, without_last}
use shlop.Shell.Placement.{AreFree}
use shlop.Shell.Patch.{
  Hunk, add_hunk, delete_hunk, update_hunk, ParseError, out_of_fuel, Parsed, parsed, failed, marker,
  add_contents, Changes, change_line, change_lines, chunk_context, read_chunk, read_chunks, add_of,
  update_of, read_update, read_hunk, ParseResult, hunks, rejected, read_hunks, at_least_one,
  parse_lines, parse_patch, then_parsed, with_context, with_removal, with_addition, chunk_of,
  push_hunk, then_hunks,
}

-- A part was read with no more than `n` lines left, or refused for a reason in the text.
IsRead : {A : Type 0} → ℕ → (A → Type 0) → Parsed A → Type 0
IsRead n P (parsed x rest) = (length rest ≤ n) × P x
IsRead n P (failed e) = e ≢ out_of_fuel

then_parsed-IsRead :
    {A B : Type 0} (n : ℕ) (P : A → Type 0) (Q : B → Type 0) (f : A → B) (r : Parsed A)
    → ((x : A) → P x → Q (f x))
    → IsRead n P r
    → IsRead n Q (then_parsed f r)
unfolding IsRead
then_parsed-IsRead n P Q f (parsed x rest) keeps h = (h.0, keeps x h.1)
then_parsed-IsRead n P Q f (failed e) keeps h = h

IsRead-more :
    {A : Type 0} (m n : ℕ) (P : A → Type 0) (r : Parsed A) → m ≤ n → IsRead m P r → IsRead n P r
unfolding IsRead
IsRead-more m n P (parsed x rest) le h = (omega (arith, h.0), h.1)
IsRead-more m n P (failed e) le h = h

add_contents-IsRead : (ls : List Str) → IsRead (length ls) (λ _. Unit) (add_contents ls)
unfolding add_contents IsRead
add_contents-IsRead [] = (omega arith, tt)
add_contents-IsRead (l ∷ ls) = elim (Bool-cases (starts_with l marker)) [
  | inl stop ↦ rw stop (omega arith, tt)
  | inr go ↦ elim (Option-cases (strip_prefix l (text "+"))) [
    | inl e ↦ rw (go, e) (λ clash. cc)
    | inr (content, e) ↦
        rw (go, e)
          (then_parsed-IsRead (suc (length ls)) (λ _. Unit) (λ _. Unit) (◌∷◌ content)
            (add_contents ls) (λ x p. p)
            (IsRead-more (length ls) (suc (length ls)) (λ _. Unit) (add_contents ls) (omega arith)
              (add_contents-IsRead ls)))
  ]
]

Parsed-cases :
    {A : Type 0} (r : Parsed A)
    → ((e : ParseError) × (r ≡ failed e)) ⊎ ((x : A) × ((rest : List Str) × (r ≡ parsed x rest)))
Parsed-cases (failed e) = inl (e, refl)
Parsed-cases (parsed x rest) = inr (x, (rest, refl))

-- A chunk is held to the end of the file by no text: its mark ends the chunk before.
InTheMiddle : Changes → Type 0
InTheMiddle ch = ch.at_end ≡ false

change_line-IsRead :
    (n : ℕ) (l : Str) (rest : Parsed Changes)
    → IsRead n InTheMiddle rest
    → IsRead n InTheMiddle (change_line l rest)
unfolding change_line IsRead InTheMiddle
change_line-IsRead n [] rest h = λ clash. cc
change_line-IsRead n (c ∷ l) rest h = elim (Bool-cases (eqb c 32)) [
  | inl space ↦
      rw space (then_parsed-IsRead n InTheMiddle InTheMiddle (with_context l) rest (λ x p. p) h)
  | inr no_space ↦ elim (Bool-cases (eqb c 45)) [
    | inl minus ↦
        rw (no_space, minus)
          (then_parsed-IsRead n InTheMiddle InTheMiddle (with_removal l) rest (λ x p. p) h)
    | inr no_minus ↦ elim (Bool-cases (eqb c 43)) [
      | inl plus ↦
          rw (no_space, no_minus, plus)
            (then_parsed-IsRead n InTheMiddle InTheMiddle (with_addition l) rest (λ x p. p) h)
      | inr no_plus ↦ rw (no_space, no_minus, no_plus) (λ clash. cc)
    ]
  ]
]

true-|| : (a b : Bool) → b ≡ true → (a || b) ≡ true
true-|| true b h = refl
true-|| false b h = h

-- The test for another header comes before the one for the mark.
end_of_file_stops : starts_with (text "*** End of File") marker ≡ true
unfolding starts_with marker
end_of_file_stops = refl

change_lines-IsRead : (ls : List Str) → IsRead (length ls) InTheMiddle (change_lines ls)
unfolding change_lines IsRead InTheMiddle
change_lines-IsRead [] = (omega arith, refl)
change_lines-IsRead (l ∷ ls) =
    elim (Bool-cases (starts_with l (text "@@") || starts_with l marker)) [
      | inl stop ↦ rw stop (omega arith, refl)
      | inr go ↦ elim (Bool-cases (l == text "*** End of File")) [
        | inl mark ↦ absurd (
            ground (
              arith,
              go,
              true-|| (starts_with l (text "@@")) (starts_with l marker) (
                  ap (λ k. starts_with k marker) ((==_iff l (text "*** End of File")).0 mark)
                  ∙ end_of_file_stops),
            ))
        | inr line ↦
            rw (go, line)
              (change_line-IsRead (suc (length ls)) l (change_lines ls) (
                IsRead-more (length ls) (suc (length ls)) InTheMiddle (change_lines ls)
                  (omega arith) (change_lines-IsRead ls)))
      ]
    ]

read_chunk-IsRead :
    (n : ℕ) (path : Str) (context : Option Str) (ls : List Str)
    (next : List Str → Parsed (List UpdateChunk))
    → ((rest : List Str) → length rest ≤ length ls → IsRead n AreFree (next rest))
    → IsRead n AreFree (read_chunk next path context ls)
unfolding read_chunk IsRead InTheMiddle AreFree
read_chunk-IsRead n path context ls next later = elim (Parsed-cases (change_lines ls)) [
  | inl (e, wrong) ↦
      rw (read_chunk, wrong) (subst (IsRead (length ls) InTheMiddle) wrong (change_lines-IsRead ls))
  | inr (ch, (rest, right)) ↦
      (let fact = subst (IsRead (length ls) InTheMiddle) right (change_lines-IsRead ls) in
        elim (Bool-cases ch.saw_change) [
          | inl change ↦
              rw (read_chunk, right, change)
                (then_parsed-IsRead n AreFree AreFree (◌∷◌ (chunk_of context ch)) (next rest)
                  (λ cs p. (fact.1, p)) (later rest fact.0))
          | inr same ↦ rw (read_chunk, right, same) (λ clash. cc)
        ])
]

chunks-IsRead :
    (fuel : ℕ) (path : Str) (ls : List Str)
    → length ls < fuel
    → IsRead (length ls) AreFree (read_chunks fuel path ls)
unfolding read_chunks IsRead AreFree
chunks-IsRead zero path ls enough = absurd (omega arith)
chunks-IsRead (suc fuel) path [] enough = (omega arith, tt)
chunks-IsRead (suc fuel) path (header ∷ ls) enough = elim (Bool-cases (starts_with header marker)) [
  | inl stop ↦ rw stop (omega arith, tt)
  | inr go ↦ elim (Option-cases (chunk_context header)) [
    | inl e ↦ rw (go, e) (λ clash. cc)
    | inr (context, e) ↦
        rw (go, e)
          (read_chunk-IsRead (suc (length ls)) path context ls (read_chunks fuel path)
            (λ rest short.
              IsRead-more (length rest) (suc (length ls)) AreFree (read_chunks fuel path rest)
                (omega arith) (chunks-IsRead fuel path rest (omega arith))))
  ]
]

-- What the parser of one file's hunk gives: the new file is not empty and ends with a new line, a
-- file to be changed has a chunk at least, and none is held to the end of the file.
unfoldable pub IsHunk : Hunk → Type 0
IsHunk (add_hunk path contents) = (s : Str) × (contents ≡ s ++ newline ∷ [])
IsHunk (delete_hunk path) = Unit
IsHunk (update_hunk path dest chunks) = (is_empty chunks ≡ false) × AreFree chunks

add_of-IsRead :
    (n : ℕ) (path : Str) (r : Parsed (List Str))
    → IsRead n (λ _. Unit) r
    → IsRead n IsHunk (add_of path r)
unfolding IsRead IsHunk
add_of-IsRead n path (failed e) h = h
add_of-IsRead n path (parsed [] rest) h = λ clash. cc
add_of-IsRead n path (parsed (c ∷ cs) rest) h = (h.0, (join_lines (c ∷ cs), refl))

update_of-IsRead :
    (n : ℕ) (path : Str) (dest : Option Str) (r : Parsed (List UpdateChunk))
    → IsRead n AreFree r
    → IsRead n IsHunk (update_of path dest r)
unfolding IsRead IsHunk
update_of-IsRead n path dest (failed e) h = h
update_of-IsRead n path dest (parsed [] rest) h = λ clash. cc
update_of-IsRead n path dest (parsed (c ∷ cs) rest) h = (h.0, (refl, h.1))

read_update-IsRead : (path : Str) (ls : List Str) → IsRead (length ls) IsHunk (read_update path ls)
unfolding read_update
read_update-IsRead path [] =
    update_of-IsRead 0 path none (read_chunks 1 path []) (chunks-IsRead 1 path [] (omega arith))
read_update-IsRead path (l ∷ ls) = elim (Option-cases (strip_prefix l (text "*** Move to: "))) [
  | inl e ↦
      rw (read_update, e)
        (update_of-IsRead (suc (length ls)) path none
          (read_chunks (suc (suc (length ls))) path (l ∷ ls))
          (chunks-IsRead (suc (suc (length ls))) path (l ∷ ls) (omega arith)))
  | inr (dest, e) ↦
      rw (read_update, e)
        (update_of-IsRead (suc (length ls)) path (some dest) (read_chunks (suc (length ls)) path ls)
          (IsRead-more (length ls) (suc (length ls)) AreFree (read_chunks (suc (length ls)) path ls)
            (omega arith) (chunks-IsRead (suc (length ls)) path ls (omega arith))))
]

read_hunk-IsRead : (l : Str) (ls : List Str) → IsRead (length ls) IsHunk (read_hunk l ls)
unfolding read_hunk IsRead IsHunk
read_hunk-IsRead l ls = elim (Option-cases (strip_prefix l (text "*** Add File: "))) [
  | inr (path, e) ↦
      rw (read_hunk, e) (add_of-IsRead (length ls) path (add_contents ls) (add_contents-IsRead ls))
  | inl a ↦ elim (Option-cases (strip_prefix l (text "*** Delete File: "))) [
    | inr (path, e) ↦ rw (read_hunk, a, e) (omega arith, tt)
    | inl d ↦ elim (Option-cases (strip_prefix l (text "*** Update File: "))) [
      | inr (path, e) ↦ rw (read_hunk, a, d, e) (read_update-IsRead path ls)
      | inl u ↦ rw (read_hunk, a, d, u) (λ clash. cc)
    ]
  ]
]

-- The hunks that the loop has read, or a reason in the text.
AllRead : ParseResult → Type 0
AllRead (hunks hs) = All IsHunk hs
AllRead (rejected e) = e ≢ out_of_fuel

push_hunk-AllRead : (h : Hunk) (r : ParseResult) → IsHunk h → AllRead r → AllRead (push_hunk h r)
unfolding AllRead
push_hunk-AllRead h (hunks hs) p ps = (p, ps)
push_hunk-AllRead h (rejected e) p ps = ps

then_hunks-AllRead :
    (n : ℕ) (r : Parsed Hunk) (next : List Str → ParseResult)
    → IsRead n IsHunk r
    → ((rest : List Str) → length rest ≤ n → AllRead (next rest))
    → AllRead (then_hunks r next)
unfolding AllRead IsRead
then_hunks-AllRead n (failed e) next h later = h
then_hunks-AllRead n (parsed x rest) next h later =
    push_hunk-AllRead x (next rest) h.1 (later rest h.0)

read_hunks-AllRead : (fuel : ℕ) (ls : List Str) → length ls < fuel → AllRead (read_hunks fuel ls)
unfolding read_hunks AllRead
read_hunks-AllRead zero ls enough = absurd (omega arith)
read_hunks-AllRead (suc fuel) [] enough = tt
read_hunks-AllRead (suc fuel) (l ∷ ls) enough =
    then_hunks-AllRead (length ls) (read_hunk l ls) (read_hunks fuel) (read_hunk-IsRead l ls)
      (λ rest short. read_hunks-AllRead fuel rest (omega arith))

-- The patch was read into one hunk or more, each as `IsHunk` says, or refused for a reason in its text.
unfoldable pub IsParsed : ParseResult → Type 0
IsParsed (hunks hs) = (is_empty hs ≡ false) × All IsHunk hs
IsParsed (rejected e) = e ≢ out_of_fuel

at_least_one-IsParsed : (r : ParseResult) → AllRead r → IsParsed (at_least_one r)
unfolding AllRead IsParsed
at_least_one-IsParsed (hunks []) all = λ clash. cc
at_least_one-IsParsed (hunks (h ∷ hs)) all = (refl, all)
at_least_one-IsParsed (rejected e) wrong = wrong

length-without_last : (ls : List Str) → length (without_last ls) ≤ length ls
unfolding without_last
length-without_last [] = omega arith
length-without_last (l ∷ []) = omega arith
length-without_last (l ∷ m ∷ ls) = omega (arith, length-without_last (m ∷ ls))

-- The parser always ends: it never runs out of the rounds it is given. What it accepts is one
-- hunk or more, each of which adds a text that ends with a new line, deletes a file, or changes a file
-- by one chunk at least, no chunk being held to the end of the file.
pub parse_patch-IsParsed : (patch : Str) → IsParsed (parse_patch patch)
unfolding parse_patch parse_lines IsParsed
parse_patch-IsParsed patch =
    let ls = lines (trim patch) in
    elim (Bool-cases (head? ls == some (text "*** Begin Patch"))) [
      | inr no_header ↦ rw no_header (λ clash. cc)
      | inl header ↦ elim (Bool-cases (last? ls == some (text "*** End Patch"))) [
        | inr no_footer ↦ rw (header, no_footer) (λ clash. cc)
        | inl footer ↦
            rw (header, footer)
              (at_least_one-IsParsed (read_hunks (suc (length ls)) (without_last (drop 1 ls))) (
                read_hunks-AllRead (suc (length ls)) (without_last (drop 1 ls))
                  (omega (arith, length-without_last (drop 1 ls), length-drop 1 ls))))
      ]
    ]
