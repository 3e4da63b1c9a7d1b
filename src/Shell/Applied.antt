-- ===== src/Shell/Applied.antt =====
-- What the result of `apply_hunks` of crates/tau-ext-shell/src/tools/apply_patch.rs says of the hunks.
use shlop.Prelude.{
  ◌≡◌, refl, ap, sym, subst, ◌∙◌, ◌⊎◌, inl, inr, Option, none, some, Bool, true, false, List, [],
  ◌∷◌, ◌++◌, append_assoc, append-nil, length, Bool-cases, Option-cases, map, is_empty, ◌≢◌,
  if◌then◌else◌,
}
use mathlib.Core.Option.{get_or}
use shlop.Prelude.Text.{Str}
use shlop.Shell.Chunks.{UpdateChunk, derive_new_contents_from_chunks}
use shlop.Shell.Placement.{Outcome-cases}
use shlop.Shell.Patch.{Hunk, add_hunk, delete_hunk, update_hunk}
use shlop.Shell.Hunks.{
  ReadResult, contents, not_found, unreadable, FileSystem, ChangeStatus, added, modified, deleted,
  AppliedChange, Reason, remove_original_failed, Applied, applied, failure, resolve_path,
  replace_at, read_optional_file, is_not_directory, write_file_with_missing_parent_retry, apply_add,
  apply_delete, remove_original, apply_new, apply_move, apply_rewrite, apply_update, apply_hunk,
  and_then, apply_all, apply_hunks, report, after_move,
}

-- What a change is listed as, and what a hunk asks for.
abbrev pub listed : AppliedChange → ChangeStatus × Str
listed c = (c.status, c.display_path)

unfoldable pub listed_for : Hunk → ChangeStatus × Str
listed_for (add_hunk path body) = (added, path)
listed_for (delete_hunk path) = (deleted, path)
listed_for (update_hunk path none chunks) = (modified, path)
listed_for (update_hunk path (some dest) chunks) = (modified, dest)

unfoldable pub keeps_original : Reason → Bool
keeps_original (remove_original_failed path) = true
keeps_original reason = false

-- What a hunk that fails has left: the new file of a move whose original could not be removed, and
-- nothing else.
unfoldable pub left_by : Hunk → Bool → List (ChangeStatus × Str)
left_by (add_hunk path body) kept = []
left_by (delete_hunk path) kept = []
left_by (update_hunk path none chunks) kept = []
left_by (update_hunk path (some dest) chunks) kept = if kept then (added, dest) ∷ [] else []

-- The list of one hunk's result, after the changes `before`.
StepReports : List (ChangeStatus × Str) → Hunk → Applied → Type 0
StepReports before h (applied cs) = map listed cs ≡ before ++ listed_for h ∷ []
StepReports before h (failure r cs) = map listed cs ≡ before ++ left_by h (keeps_original r)

map-push :
    (cs : List AppliedChange) (c : AppliedChange)
    → map listed (cs ++ c ∷ []) ≡ map listed cs ++ listed c ∷ []
map-push [] c = refl
map-push (d ∷ ds) c = ap (◌∷◌ (listed d)) (map-push ds c)

nothing_left : (h : Hunk) → left_by h false ≡ []
unfolding left_by
nothing_left (add_hunk path body) = refl
nothing_left (delete_hunk path) = refl
nothing_left (update_hunk path none chunks) = refl
nothing_left (update_hunk path (some dest) chunks) = refl

-- A hunk that failed and did nothing.
StepReports-failure :
    (changes : List AppliedChange) (h : Hunk) (r : Reason)
    → keeps_original r ≡ false
    → StepReports (map listed changes) h (failure r changes)
unfolding StepReports
StepReports-failure changes h r gone = sym (
    ap (λ left. map listed changes ++ left) (ap (left_by h) gone ∙ nothing_left h)
    ∙ append-nil (map listed changes))

-- The list of a run of the hunks `hs`, after the changes `before`.
unfoldable pub Reports : List (ChangeStatus × Str) → List Hunk → Applied → Type 0
Reports before hs (applied cs) = map listed cs ≡ before ++ map listed_for hs
Reports before hs (failure r cs) =
    (done : List Hunk) × ((h : Hunk) × ((later : List Hunk) × ((hs ≡ done ++ h ∷ later)
          × (map listed cs ≡ before ++ (map listed_for done ++ left_by h (keeps_original r))))))

Reports-cons :
    (before : List (ChangeStatus × Str)) (h : Hunk) (hs : List Hunk) (r : Applied)
    → Reports (before ++ listed_for h ∷ []) hs r
    → Reports before (h ∷ hs) r
unfolding Reports
Reports-cons before h hs (applied cs) same =
    same ∙ append_assoc before (listed_for h ∷ []) (map listed_for hs)
Reports-cons before h hs (failure reason cs) (done, (k, (later, (split, same)))) = (
  h ∷ done,
  (
    k,
    (
      later,
      (
        ap (◌∷◌ h) split,
        same
            ∙ append_assoc before (listed_for h ∷ [])
                (map listed_for done ++ left_by k (keeps_original reason)),
      ),
    ),
  ),
)

replace_at-push :
    (cs : List AppliedChange) (c d : AppliedChange)
    → replace_at (length cs) d (cs ++ c ∷ []) ≡ cs ++ d ∷ []
unfolding replace_at
replace_at-push [] c d = refl
replace_at-push (e ∷ cs) c d = ap (◌∷◌ e) (replace_at-push cs c d)

pub Read-cases :
    (r : ReadResult)
    → ((s : Str) × (r ≡ contents s)) ⊎ ((r ≡ not_found) ⊎ ((e : Str) × (r ≡ unreadable e)))
Read-cases (contents s) = inl (s, refl)
Read-cases not_found = inr (inl refl)
Read-cases (unreadable e) = inr (inr (e, refl))

module _ {W : Type 0} (fs : FileSystem W) (cwd : Str) where
  report-StepReports :
      (before : List (ChangeStatus × Str)) (h : Hunk) (reason : Reason) (cs ds : List AppliedChange)
      (r : W × Bool)
      → StepReports before h (failure reason cs)
      → StepReports before h (applied ds)
      → StepReports before h ((report fs cwd reason cs ds r).1)
  report-StepReports before h reason cs ds (w, true) bad good = good
  report-StepReports before h reason cs ds (w, false) bad good = bad

  -- A hunk whose one change is pushed when the file system did it.
  push-StepReports :
      (changes : List AppliedChange) (h : Hunk) (reason : Reason) (c : AppliedChange) (r : W × Bool)
      → keeps_original reason ≡ false
      → listed c ≡ listed_for h
      → StepReports (map listed changes) h ((report fs cwd reason changes (changes ++ c ∷ []) r).1)
  unfolding StepReports
  push-StepReports changes h reason c r gone same =
      report-StepReports (map listed changes) h reason changes (changes ++ c ∷ []) r
        (StepReports-failure changes h reason gone)
        (map-push changes c ∙ ap (λ k. map listed changes ++ k ∷ []) same)

  add-StepReports :
      (w : W) (changes : List AppliedChange) (path body : Str)
      → StepReports
          (map listed changes)
          (add_hunk path body)
          ((apply_add fs cwd w changes path body).1)
  unfolding apply_add listed_for keeps_original
  add-StepReports w changes path body =
      elim (Option-cases (read_optional_file fs cwd w (resolve_path cwd path))) [
        | inl e ↦ rw (apply_add, e) (StepReports-failure changes (add_hunk path body) _ refl)
        | inr (old, e) ↦
            rw (apply_add, e) (push-StepReports changes (add_hunk path body) _ _ _ refl refl)
      ]

  delete-StepReports :
      (w : W) (changes : List AppliedChange) (path : Str)
      → StepReports (map listed changes) (delete_hunk path) ((apply_delete fs cwd w changes path).1)
  unfolding apply_delete listed_for keeps_original
  delete-StepReports w changes path =
      elim (Bool-cases (is_not_directory fs cwd w (resolve_path cwd path))) [
        | inr e ↦ rw (apply_delete, e) (StepReports-failure changes (delete_hunk path) _ refl)
        | inl e ↦ elim (Read-cases (fs.read_to_string w (resolve_path cwd path))) [
          | inr (inr (m, u)) ↦
              rw (apply_delete, e, u) (StepReports-failure changes (delete_hunk path) _ refl)
          | inr (inl n) ↦
              rw (apply_delete, e, n) (StepReports-failure changes (delete_hunk path) _ refl)
          | inl (old, o) ↦
              rw (apply_delete, e, o) (push-StepReports changes (delete_hunk path) _ _ _ refl refl)
        ]
      ]

  -- A move lists the new file alone while the original is still there.
  remove-StepReports :
      (w : W) (changes : List AppliedChange) (path dest : Str) (chunks : List UpdateChunk)
      (c d : AppliedChange)
      → listed c ≡ (added, dest)
      → listed d ≡ (modified, dest)
      → StepReports (map listed changes) (update_hunk path (some dest) chunks) (
          (remove_original fs cwd w
            (changes ++ c ∷ [])
            (length changes)
            (resolve_path cwd path)
            d).1)
  unfolding remove_original StepReports listed_for left_by keeps_original
  remove-StepReports w changes path dest chunks c d new kept =
      let bad : StepReports (map listed changes) (update_hunk path (some dest) chunks)
          (failure (remove_original_failed (resolve_path cwd path)) (changes ++ c ∷ [])) =
        map-push changes c ∙ ap (λ k. map listed changes ++ k ∷ []) new in
      elim (Bool-cases (is_not_directory fs cwd w (resolve_path cwd path))) [
        | inr e ↦ rw (remove_original, e) bad
        | inl e ↦
            rw (remove_original, e, replace_at-push changes c d)
              (report-StepReports (map listed changes) (update_hunk path (some dest) chunks) _
                (changes ++ c ∷ []) (changes ++ d ∷ []) (fs.remove_file w (resolve_path cwd path))
                bad (map-push changes d ∙ ap (λ k. map listed changes ++ k ∷ []) kept))
      ]

  after_move-StepReports :
      (changes : List AppliedChange) (path dest overwritten old new : Str)
      (chunks : List UpdateChunk) (r : W × Bool)
      → StepReports
          (map listed changes)
          (update_hunk path (some dest) chunks)
          ((after_move fs cwd changes dest overwritten (resolve_path cwd path) old new r).1)
  unfolding keeps_original
  after_move-StepReports changes path dest overwritten old new chunks (w, false) =
      StepReports-failure changes (update_hunk path (some dest) chunks) _ refl
  after_move-StepReports changes path dest overwritten old new chunks (w, true) =
      remove-StepReports w changes path dest chunks _ _ refl refl

  move-StepReports :
      (w : W) (changes : List AppliedChange) (path dest old new : Str) (chunks : List UpdateChunk)
      → StepReports
          (map listed changes)
          (update_hunk path (some dest) chunks)
          ((apply_move fs cwd w changes (resolve_path cwd path) dest old new).1)
  unfolding apply_move listed_for keeps_original
  move-StepReports w changes path dest old new chunks =
      elim (Option-cases (read_optional_file fs cwd w (resolve_path cwd dest))) [
        | inl e ↦
            rw (apply_move, e)
              (StepReports-failure changes (update_hunk path (some dest) chunks) _ refl)
        | inr (overwritten, e) ↦
            rw (apply_move, e)
              (after_move-StepReports changes path dest (get_or overwritten []) old new chunks
                (write_file_with_missing_parent_retry fs cwd w (resolve_path cwd dest) new))
      ]

  rewrite-StepReports :
      (w : W) (changes : List AppliedChange) (path : Str) (move_path : Option Str) (old new : Str)
      (chunks : List UpdateChunk)
      → StepReports
          (map listed changes)
          (update_hunk path move_path chunks)
          ((apply_new fs cwd w changes path move_path old new).1)
  unfolding apply_rewrite listed_for apply_new keeps_original
  rewrite-StepReports w changes path none old new chunks =
      push-StepReports changes (update_hunk path none chunks) _ _ _ refl refl
  rewrite-StepReports w changes path (some dest) old new chunks =
      move-StepReports w changes path dest old new chunks

  update-StepReports :
      (w : W) (changes : List AppliedChange) (path : Str) (move_path : Option Str)
      (chunks : List UpdateChunk)
      → StepReports
          (map listed changes)
          (update_hunk path move_path chunks)
          ((apply_update fs cwd w changes path move_path chunks).1)
  unfolding apply_update listed_for keeps_original
  update-StepReports w changes path move_path chunks =
      elim (Read-cases (fs.read_to_string w (resolve_path cwd path))) [
        | inr (inr (m, u)) ↦
            rw (apply_update, u)
              (StepReports-failure changes (update_hunk path move_path chunks) _ refl)
        | inr (inl n) ↦
            rw (apply_update, n)
              (StepReports-failure changes (update_hunk path move_path chunks) _ refl)
        | inl (old, o) ↦ elim (Outcome-cases (derive_new_contents_from_chunks old chunks)) [
          | inl (why, e) ↦
              rw (apply_update, o, e)
                (StepReports-failure changes (update_hunk path move_path chunks) _ refl)
          | inr (new, e) ↦
              rw (apply_update, o, e) (rewrite-StepReports w changes path move_path old new chunks)
        ]
      ]

  hunk-StepReports :
      (w : W) (changes : List AppliedChange) (h : Hunk)
      → StepReports (map listed changes) h ((apply_hunk fs cwd w changes h).1)
  unfolding apply_hunk
  hunk-StepReports w changes (add_hunk path body) = add-StepReports w changes path body
  hunk-StepReports w changes (delete_hunk path) = delete-StepReports w changes path
  hunk-StepReports w changes (update_hunk path move_path chunks) =
      update-StepReports w changes path move_path chunks

  and_then-Reports :
      (before : List (ChangeStatus × Str)) (h : Hunk) (hs : List Hunk) (r : W × Applied)
      (next : W → List AppliedChange → W × Applied)
      → StepReports before h r.1
      → ((w : W) (cs : List AppliedChange) → Reports (map listed cs) hs ((next w cs).1))
      → Reports before (h ∷ hs) ((and_then fs cwd r next).1)
  unfolding StepReports Reports
  and_then-Reports before h hs (w, failure reason cs) next same later =
      ([], (h, (hs, (refl, same))))
  and_then-Reports before h hs (w, applied cs) next same later =
      Reports-cons before h hs ((next w cs).1)
        (subst (λ b. Reports b hs ((next w cs).1)) same (later w cs))

  all-Reports :
      (hs : List Hunk) (w : W) (changes : List AppliedChange)
      → Reports (map listed changes) hs ((apply_all fs cwd hs w changes).1)
  unfolding apply_all Reports
  all-Reports [] w changes = sym (append-nil (map listed changes))
  all-Reports (h ∷ hs) w changes =
      and_then-Reports (map listed changes) h hs (apply_hunk fs cwd w changes h)
        (apply_all fs cwd hs) (hunk-StepReports w changes h) (λ v cs. all-Reports hs v cs)

-- For one hunk or more and a known current directory, whatever the file system does, the list of
-- changes goes with the hunks: after success one entry for each hunk, in their order; after a failure
-- one entry for each hunk before the one that failed, and of that one the new file, if it is a move whose
-- original could not be removed, and else nothing.
pub apply_hunks-Reports :
    {W : Type 0} (fs : FileSystem W) (current_dir : Option Str) (hs : List Hunk) (w : W)
    → is_empty hs ≡ false
    → current_dir ≢ none
    → Reports [] hs ((apply_hunks fs current_dir hs w).1)
unfolding apply_hunks
apply_hunks-Reports fs none hs w some_hunk known = absurd (known refl)
apply_hunks-Reports fs (some cwd) hs w some_hunk known = rw some_hunk (all-Reports fs cwd hs w [])
