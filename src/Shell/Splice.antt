-- ===== src/Shell/Splice.antt =====
-- The edits of a patch on the lines of a file (`apply_replacements` of
-- crates/tau-ext-shell/src/tools/apply_patch.rs). `Vec::insert` panics past the end: `none`.
use shlop.Prelude.{
  ℕ, zero, suc, ◌+◌, ◌-◌, ◌≤◌, ◌≡◌, refl, ap, ◌∙◌, sym, Option, none, some, List, [], ◌∷◌, ◌++◌,
  append_assoc, arith, if◌then◌else◌, ltb, length, take, drop, take-append-drop, length-take,
  length-drop, length-append,
}

-- `(start_idx, old_len, new_segment)`
pub record Replacement (A : Type 0) : Type 0 where
  pub start_idx : ℕ
  pub old_len : ℕ
  pub new_segment : List A

module _ {A : Type 0} where
  -- `lines.remove(i)`, which is called under a guard.
  unfoldable pub remove_at : ℕ → List A → List A
  remove_at i [] = []
  remove_at zero (x ∷ xs) = xs
  remove_at (suc i) (x ∷ xs) = x ∷ remove_at i xs

  -- `lines.insert(i, y)`
  unfoldable pub insert_at : ℕ → A → List A → Option (List A)
  insert_at zero y xs = some (y ∷ xs)
  insert_at (suc i) y [] = none
  insert_at (suc i) y (x ∷ xs) = elim (insert_at i y xs) [ none ↦ none | some ys ↦ some (x ∷ ys) ]

  unfoldable pub remove_lines : ℕ → ℕ → List A → List A
  remove_lines i zero xs = xs
  remove_lines i (suc n) xs = remove_lines i n (if ltb i (length xs) then remove_at i xs else xs)

  unfoldable pub insert_lines : ℕ → List A → List A → Option (List A)
  insert_lines i [] xs = some xs
  insert_lines i (y ∷ ys) xs = elim (insert_at i y xs) [
    | none ↦ none
    | some zs ↦ insert_lines (suc i) ys zs
  ]

  -- `apply_replacements`: the last replacement is made first.
  unfoldable pub apply_replacements : List A → List (Replacement A) → Option (List A)
  apply_replacements xs [] = some xs
  apply_replacements xs (r ∷ rs) = elim (apply_replacements xs rs) [
    | none ↦ none
    | some ys ↦ insert_lines r.start_idx r.new_segment (remove_lines r.start_idx r.old_len ys)
  ]

  -- The reference: one pass from the left over the lines from position `at` on.
  unfoldable pub splice : ℕ → List A → List (Replacement A) → List A
  splice at xs [] = xs
  splice at xs (r ∷ rs) =
      take (r.start_idx - at) xs
      ++ (r.new_segment
          ++ splice (r.start_idx + r.old_len) (drop (r.start_idx + r.old_len - at) xs) rs)

  -- Replacements that follow each other from `at` on, inside `size` lines.
  unfoldable pub IsOrdered : ℕ → ℕ → List (Replacement A) → Type 0
  IsOrdered at size [] = Unit
  IsOrdered at size (r ∷ rs) =
      (at ≤ r.start_idx)
      × (r.start_idx + r.old_len ≤ size)
      × IsOrdered (r.start_idx + r.old_len) size rs

  push_cons : (xs : List A) (y : A) (zs : List A) → (xs ++ y ∷ []) ++ zs ≡ xs ++ y ∷ zs
  push_cons xs y zs = append_assoc xs (y ∷ []) zs

  length-push : (xs : List A) (y : A) {n : ℕ} → length xs ≡ n → length (xs ++ y ∷ []) ≡ suc n
  length-push xs y h = omega (arith, length-append xs (y ∷ []))

  remove_at-append :
      (i : ℕ) (xs : List A) (y : A) (ys : List A)
      → length xs ≡ i
      → remove_at i (xs ++ y ∷ ys) ≡ xs ++ ys
  unfolding remove_at
  remove_at-append zero [] y ys h = refl
  remove_at-append zero (x ∷ xs) y ys h = absurd (omega arith)
  remove_at-append (suc i) [] y ys h = absurd (omega arith)
  remove_at-append (suc i) (x ∷ xs) y ys h = ap (◌∷◌ x) (remove_at-append i xs y ys (omega arith))

  remove_lines-append :
      (i : ℕ) (xs ys zs : List A)
      → length xs ≡ i
      → remove_lines i (length ys) (xs ++ (ys ++ zs)) ≡ xs ++ zs
  unfolding remove_lines
  remove_lines-append i xs [] zs h = refl
  remove_lines-append i xs (y ∷ ys) zs h = ground (
    arith,
    length-append xs (y ∷ (ys ++ zs)),
    remove_at-append i xs y (ys ++ zs) h,
    remove_lines-append i xs ys zs h,
  )

  insert_at-append :
      (i : ℕ) (xs : List A) (y : A) (zs : List A)
      → length xs ≡ i
      → insert_at i y (xs ++ zs) ≡ some (xs ++ y ∷ zs)
  unfolding insert_at
  insert_at-append zero [] y zs h = refl
  insert_at-append zero (x ∷ xs) y zs h = absurd (omega arith)
  insert_at-append (suc i) [] y zs h = absurd (omega arith)
  insert_at-append (suc i) (x ∷ xs) y zs h = rw (insert_at-append i xs y zs (omega arith)) refl

  insert_lines-append :
      (i : ℕ) (xs ys zs : List A)
      → length xs ≡ i
      → insert_lines i ys (xs ++ zs) ≡ some (xs ++ (ys ++ zs))
  unfolding insert_lines
  insert_lines-append i xs [] zs h = refl
  insert_lines-append i xs (y ∷ ys) zs h =
      rw (insert_at-append i xs y zs h, insert_lines, sym (push_cons xs y zs))
        (insert_lines-append (suc i) (xs ++ y ∷ []) ys zs (length-push xs y h)
          ∙ ap some (push_cons xs y (ys ++ zs)))

  -- One replacement of the lines `ys` between `xs` and `zs`.
  replace-append :
      (i n : ℕ) (xs ys zs seg : List A)
      → length xs ≡ i
      → length ys ≡ n
      → insert_lines i seg (remove_lines i n (xs ++ (ys ++ zs))) ≡ some (xs ++ (seg ++ zs))
  replace-append i n xs ys zs seg hx hy =
      rw (sym hy, remove_lines-append i xs ys zs hx) (insert_lines-append i xs seg zs hx)

  take-split : (m n k : ℕ) (xs : List A) → k ≡ m + n → take k xs ≡ take m xs ++ take n (drop m xs)
  take-split zero n k xs h = ap (λ j. take j xs) (omega arith)
  take-split (suc m) n zero xs h = absurd (omega arith)
  take-split (suc m) zero (suc k) [] h = refl
  take-split (suc m) (suc n) (suc k) [] h = refl
  take-split (suc m) n (suc k) (x ∷ xs) h = ap (◌∷◌ x) (take-split m n k xs (omega arith))

  pub drop-split : (m n k : ℕ) (xs : List A) → k ≡ m + n → drop k xs ≡ drop n (drop m xs)
  drop-split zero n k xs h = ap (λ j. drop j xs) (omega arith)
  drop-split (suc m) n zero xs h = absurd (omega arith)
  drop-split (suc m) zero (suc k) [] h = refl
  drop-split (suc m) (suc n) (suc k) [] h = refl
  drop-split (suc m) n (suc k) (x ∷ xs) h = drop-split m n k xs (omega arith)

  regroup :
      (at : ℕ) (r : Replacement A) (xs : List A) (rs : List (Replacement A))
      → at ≤ r.start_idx
      → take r.start_idx xs
          ++ (r.new_segment
              ++ splice (r.start_idx + r.old_len) (drop (r.start_idx + r.old_len) xs) rs)
        ≡ take at xs ++ splice at (drop at xs) (r ∷ rs)
  unfolding splice
  regroup at r xs rs before =
      rw
        (
          take-split at (r.start_idx - at) r.start_idx xs (omega arith),
          drop-split at (r.start_idx + r.old_len - at) (r.start_idx + r.old_len) xs (omega arith),
        )
        (append_assoc (take at xs) (take (r.start_idx - at) (drop at xs)) _)

  -- The induction: what lies before `at` is left alone.
  apply_from :
      (at : ℕ) (xs : List A) (rs : List (Replacement A))
      → IsOrdered at (length xs) rs
      → apply_replacements xs rs ≡ some (take at xs ++ splice at (drop at xs) rs)
  unfolding apply_replacements splice IsOrdered
  apply_from at xs [] h = ap some (sym (take-append-drop at xs))
  apply_from at xs (r ∷ rs) (before, inside, later) =
      let end = r.start_idx + r.old_len in
      rw
        (
          apply_from end xs rs later,
          take-split r.start_idx r.old_len end xs refl,
          append_assoc (take r.start_idx xs) (take r.old_len (drop r.start_idx xs))
              (splice end (drop end xs) rs),
          apply_replacements,
        )
        (replace-append r.start_idx r.old_len (take r.start_idx xs)
            (take r.old_len (drop r.start_idx xs)) (splice end (drop end xs) rs) r.new_segment
            (omega (arith, length-take r.start_idx xs))
            (omega (arith, length-take r.old_len (drop r.start_idx xs), length-drop r.start_idx xs))
          ∙ ap some (regroup at r xs rs before))

  -- On replacements that lie in order inside the file and do not overlap, making them from the last
  -- to the first gives the lines of the one-pass reference, and no insertion is past the end.
  pub apply_replacements-splice :
      (xs : List A) (rs : List (Replacement A))
      → IsOrdered 0 (length xs) rs
      → apply_replacements xs rs ≡ some (splice 0 xs rs)
  apply_replacements-splice xs rs h = apply_from 0 xs rs h
