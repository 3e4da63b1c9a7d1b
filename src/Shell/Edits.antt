-- ===== src/Shell/Edits.antt =====
-- What an edit of a file comes to (crates/tau-ext-shell/src/tools/edit.rs): the texts that were asked
-- for, replaced in one pass.
use shlop.Prelude.{
  ℕ, zero, suc, ◌+◌, ◌-◌, ◌≤◌, ◌<◌, ◌≡◌, refl, ap, sym, ◌∙◌, append_assoc, append-nil, inl, inr,
  false, List, [], ◌∷◌, ◌++◌, reverse, if◌then◌else◌, leb, length, take, drop, is_empty, nat_eq,
  arith, All, Bool-cases, length-take, length-reverse,
}
use mathlib.Core.List.{reverse-cons}
use shlop.Prelude.Text.{Str, str_eq}
use shlop.Shell.Splice.{Replacement, splice, IsOrdered, drop-split}
use shlop.Shell.Edit.{
  Edit, no_matches, edited, refused, collect, insert_descending, sort_descending, overlaps,
  splice_all, apply_sorted, edit_contents, ◌>>?◌,
}
use shlop.Shell.Found.{
  IsAsked, IsMatch, take_same, drop-take, All-append, edited-inj, bound, collect-All,
}

insert_descending-All :
    (P : Replacement ℕ → Type 0) (r : Replacement ℕ) (rs : List (Replacement ℕ))
    → P r
    → All P rs
    → All P (insert_descending r rs)
unfolding insert_descending
insert_descending-All P r [] p h = (p, tt)
insert_descending-All P r (s ∷ ss) p h = elim (Bool-cases (leb s.start_idx r.start_idx)) [
  | inl le ↦ rw le (p, h)
  | inr gt ↦ rw gt (h.0, insert_descending-All P r ss p h.1)
]

sort_descending-All :
    (P : Replacement ℕ → Type 0) (rs : List (Replacement ℕ)) → All P rs → All P (sort_descending rs)
unfolding sort_descending
sort_descending-All P [] h = tt
sort_descending-All P (r ∷ rs) h =
    insert_descending-All P r (sort_descending rs) h.0 (sort_descending-All P rs h.1)

IsOrdered-push :
    (rs : List (Replacement ℕ)) (r : Replacement ℕ) (at middle size : ℕ)
    → at ≤ middle
    → middle ≤ r.start_idx
    → r.start_idx + r.old_len ≤ size
    → IsOrdered at middle rs
    → IsOrdered at size (rs ++ r ∷ [])
unfolding IsOrdered
IsOrdered-push [] r at middle size a b c h = (omega arith, c, tt)
IsOrdered-push (s ∷ ss) r at middle size a b c (low, high, rest) =
    (low, omega arith, IsOrdered-push ss r (s.start_idx + s.old_len) middle size high b c rest)

reverse-IsOrdered :
    (rs : List (Replacement ℕ)) (r : Replacement ℕ) (size : ℕ)
    → overlaps (r ∷ rs) ≡ false
    → r.start_idx + r.old_len ≤ size
    → IsOrdered 0 size (reverse (r ∷ rs))
unfolding overlaps IsOrdered
reverse-IsOrdered [] r size apart inside = (omega arith, inside, tt)
reverse-IsOrdered (s ∷ ss) r size apart inside = rw (reverse-cons r (s ∷ ss)) (
    IsOrdered-push (reverse (s ∷ ss)) r 0 r.start_idx size (omega arith) (omega arith) inside
      (reverse-IsOrdered ss s r.start_idx (ground (arith, apart)) (ground (arith, apart))))

take-take_le : {A : Type 0} (n k : ℕ) (xs : List A) → n ≤ k → take n (take k xs) ≡ take n xs
take-take_le zero k xs h = refl
take-take_le (suc n) zero xs h = absurd (omega arith)
take-take_le (suc n) (suc k) [] h = refl
take-take_le (suc n) (suc k) (x ∷ xs) h = ap (◌∷◌ x) (take-take_le n k xs (omega arith))

splice-push :
    (rs : List (Replacement ℕ)) (r : Replacement ℕ) (at middle : ℕ) (xs : Str)
    → at ≤ middle
    → middle ≤ r.start_idx
    → IsOrdered at middle rs
    → splice at xs (rs ++ r ∷ [])
      ≡ splice at (take (r.start_idx - at) xs) rs
        ++ (r.new_segment ++ drop (r.start_idx + r.old_len - at) xs)
unfolding splice IsOrdered
splice-push [] r at middle xs a b h = refl
splice-push (q ∷ qs) r at middle xs a b (low, high, rest) =
    let end = q.start_idx + q.old_len in
    rw
      (
        splice-push qs r end middle (drop (end - at) xs) high b rest,
        take-take_le (q.start_idx - at) (r.start_idx - at) xs (omega arith),
        drop-take (end - at) (r.start_idx - at) xs,
        take_same (r.start_idx - at - (end - at)) (r.start_idx - end) (drop (end - at) xs)
            (omega arith),
        drop-split (end - at) (r.start_idx + r.old_len - end) (r.start_idx + r.old_len - at) xs
            (omega arith),
      )
      (let part = splice end (take (r.start_idx - end) (drop (end - at) xs)) qs in
        let last = r.new_segment ++ drop (r.start_idx + r.old_len - end) (drop (end - at) xs) in
        let first = take (q.start_idx - at) xs in
        sym (
          append_assoc first (q.new_segment ++ part) last
          ∙ ap (◌++◌ first) (append_assoc q.new_segment part last)))

take-append_le :
    {A : Type 0} (n : ℕ) (xs ys : List A) → n ≤ length xs → take n (xs ++ ys) ≡ take n xs
take-append_le zero xs ys h = refl
take-append_le (suc n) [] ys h = absurd (omega arith)
take-append_le (suc n) (x ∷ xs) ys h = ap (◌∷◌ x) (take-append_le n xs ys (omega arith))

drop-append_le :
    {A : Type 0} (n : ℕ) (xs ys : List A) → n ≤ length xs → drop n (xs ++ ys) ≡ drop n xs ++ ys
drop-append_le zero xs ys h = refl
drop-append_le (suc n) [] ys h = absurd (omega arith)
drop-append_le (suc n) (x ∷ xs) ys h = drop-append_le n xs ys (omega arith)

-- One replacement inside `pre` leaves what follows it.
splice_one :
    (pre post : Str) (r : Replacement ℕ)
    → r.start_idx + r.old_len ≤ length pre
    → take r.start_idx (pre ++ post)
        ++ (r.new_segment ++ drop (r.start_idx + r.old_len) (pre ++ post))
      ≡ take r.start_idx pre ++ (r.new_segment ++ (drop (r.start_idx + r.old_len) pre ++ post))
splice_one pre post r inside =
    rw
      (
        take-append_le r.start_idx pre post (omega arith),
        drop-append_le (r.start_idx + r.old_len) pre post inside,
      )
      refl

minus_zero : (n : ℕ) → n - 0 ≡ n
minus_zero n = omega arith

at_start :
    (pre : Str) (rs : List (Replacement ℕ)) (r : Replacement ℕ)
    → splice 0 (take (r.start_idx - 0) pre) rs
        ++ (r.new_segment ++ drop (r.start_idx + r.old_len - 0) pre)
      ≡ splice 0 (take r.start_idx pre) rs ++ (r.new_segment ++ drop (r.start_idx + r.old_len) pre)
at_start pre rs r = rw (minus_zero r.start_idx, minus_zero (r.start_idx + r.old_len)) refl

regroup : (a b c d : Str) → (a ++ (b ++ c)) ++ d ≡ a ++ (b ++ (c ++ d))
regroup a b c d = append_assoc a (b ++ c) d ∙ ap (◌++◌ a) (append_assoc b c d)

splice-reverse :
    (rs : List (Replacement ℕ)) (r : Replacement ℕ) (pre : Str)
    → overlaps (r ∷ rs) ≡ false
    → splice 0 pre (reverse (r ∷ rs))
      ≡ splice 0 (take r.start_idx pre) (reverse rs)
        ++ (r.new_segment ++ drop (r.start_idx + r.old_len) pre)
unfolding overlaps splice
splice-reverse [] r pre apart =
    rw (splice, splice, minus_zero r.start_idx, minus_zero (r.start_idx + r.old_len)) refl
splice-reverse (q ∷ qs) r pre apart = rw (reverse-cons r (q ∷ qs)) (
    splice-push (reverse (q ∷ qs)) r 0 r.start_idx pre (omega arith) (omega arith)
      (reverse-IsOrdered qs q r.start_idx (ground (arith, apart)) (ground (arith, apart)))
    ∙ at_start pre (reverse (q ∷ qs)) r)

splice_all-reverse :
    (rs : List (Replacement ℕ)) (r : Replacement ℕ) (pre post : Str)
    → overlaps (r ∷ rs) ≡ false
    → r.start_idx + r.old_len ≤ length pre
    → splice_all (pre ++ post) (r ∷ rs) ≡ splice 0 pre (reverse (r ∷ rs)) ++ post
unfolding splice_all overlaps splice
splice_all-reverse [] r pre post apart inside =
    splice_one pre post r inside
    ∙ sym (
        ap (λ t. t ++ post) (splice-reverse [] r pre apart)
        ∙ regroup (take r.start_idx pre) r.new_segment (drop (r.start_idx + r.old_len) pre) post)
splice_all-reverse (q ∷ qs) r pre post apart inside =
    ap (λ t. splice_all t (q ∷ qs)) (splice_one pre post r inside)
    ∙ splice_all-reverse qs q (take r.start_idx pre)
        (r.new_segment ++ (drop (r.start_idx + r.old_len) pre ++ post)) (ground (arith, apart))
        (let below : q.start_idx + q.old_len ≤ r.start_idx = ground (arith, apart) in
          omega (arith, length-take r.start_idx pre, below))
    ∙ sym (
        ap (λ t. t ++ post) (splice-reverse (q ∷ qs) r pre apart)
        ∙ regroup (splice 0 (take r.start_idx pre) (reverse (q ∷ qs))) r.new_segment
            (drop (r.start_idx + r.old_len) pre) post)

-- What the edits asked for.
unfoldable pub IsEdit : Str → List Edit → Str × ℕ → Type 0
IsEdit original edits (result, n) =
    (rs : List (Replacement ℕ)) × (All (IsAsked original edits) rs
      × IsOrdered 0 (length original) rs
      × (length rs ≡ n)
      × (0 < n)
      × (result ≡ splice 0 original rs))

asked_inside :
    (original : Str) (es : List Edit) (r : Replacement ℕ)
    → IsAsked original es r
    → r.start_idx + r.old_len ≤ length original
unfolding IsAsked IsMatch
asked_inside original [] r h = absurd (omega (arith, h))
asked_inside original (e ∷ es) r (inl h) = h.3
asked_inside original (e ∷ es) r (inr h) = asked_inside original es r h

All-reverse : {A : Type 0} (P : A → Type 0) (xs : List A) → All P xs → All P (reverse xs)
All-reverse P [] h = tt
All-reverse P (x ∷ xs) h =
    rw (reverse-cons x xs) (All-append P (reverse xs) (x ∷ []) (All-reverse P xs h.1) (h.0, tt))

whole_file :
    (original : Str) (d : Replacement ℕ) (ds : List (Replacement ℕ))
    → overlaps (d ∷ ds) ≡ false
    → d.start_idx + d.old_len ≤ length original
    → splice_all original (d ∷ ds) ≡ splice 0 original (reverse (d ∷ ds))
whole_file original d ds apart inside =
    ap (λ t. splice_all t (d ∷ ds)) (sym (append-nil original))
    ∙ splice_all-reverse ds d original [] apart inside
    ∙ append-nil (splice 0 original (reverse (d ∷ ds)))

some-insert_descending :
    (r : Replacement ℕ) (rs : List (Replacement ℕ)) → 0 < length (insert_descending r rs)
unfolding insert_descending
some-insert_descending r [] = omega arith
some-insert_descending r (s ∷ ss) = ground arith

some-sort_descending :
    (rs : List (Replacement ℕ)) → is_empty rs ≡ false → 0 < length (sort_descending rs)
unfolding sort_descending
some-sort_descending [] h = cc
some-sort_descending (r ∷ rs) h = some-insert_descending r (sort_descending rs)

apply_sorted-IsEdit :
    (original : Str) (edits : List Edit) (ds : List (Replacement ℕ)) (done : Str × ℕ)
    → All (IsAsked original edits) ds
    → 0 < length ds
    → apply_sorted original ds ≡ edited done
    → IsEdit original edits done
unfolding apply_sorted IsEdit
apply_sorted-IsEdit original edits [] (result, n) all some_one h = absurd (omega arith)
apply_sorted-IsEdit original edits (d ∷ ds) (result, n) all some_one h =
    elim (Bool-cases (overlaps (d ∷ ds))) [
      | inl clash ↦ absurd (ground (arith, h, clash))
      | inr apart ↦
          (let value : Str × ℕ = (splice_all original (d ∷ ds), length (d ∷ ds)) in
            let wanted : Str × ℕ = (result, n) in
            let same : value ≡ wanted = edited-inj (ground (arith, h, apart)) in
            let inside = asked_inside original edits d all.0 in
            (
              reverse (d ∷ ds),
              (
                All-reverse (IsAsked original edits) (d ∷ ds) all,
                reverse-IsOrdered ds d (length original) apart inside,
                length-reverse (d ∷ ds) ∙ ap (λ p. p.1) same,
                omega (arith, ap (λ p. p.1) same),
                sym (ap (λ p. p.0) same) ∙ whole_file original d ds apart inside,
              ),
            ))
    ]

given_edits :
    (original : Str) (edits : List Edit) (done : Str × ℕ)
    → is_empty edits ≡ false
    → edit_contents original edits ≡ edited done
    → (collect original edits >>? λ rs.
        if is_empty rs then refused no_matches else apply_sorted original (sort_descending rs))
      ≡ edited done
unfolding edit_contents
given_edits original edits done given h = rw given at h

-- A run of the edits that succeeds replaces, in one pass from the left, one occurrence or more of the
-- old texts by their new ones; the occurrences lie inside the file and do not overlap, and all other
-- bytes stay as they are.
pub edit_contents-IsEdit :
    (original : Str) (edits : List Edit) (done : Str × ℕ)
    → edit_contents original edits ≡ edited done
    → IsEdit original edits done
unfolding edit_contents
edit_contents-IsEdit original edits done h = elim (Bool-cases (is_empty edits)) [
  | inl none_given ↦ absurd (ground (arith, h, none_given))
  | inr given ↦
      (let (rs, (rs_is, h1)) =
          bound (collect original edits) _ (given_edits original edits done given h) in
        elim (Bool-cases (is_empty rs)) [
          | inl nothing ↦ absurd (ground (arith, h1, nothing))
          | inr found ↦
              apply_sorted-IsEdit original edits (sort_descending rs) done
                (sort_descending-All (IsAsked original edits) rs (collect-All original edits rs_is))
                (some-sort_descending rs found) (ground (arith, h1, found))
        ])
]
