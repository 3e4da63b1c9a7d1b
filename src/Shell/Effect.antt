-- ===== src/Shell/Effect.antt =====
-- What `apply_hunks` of crates/tau-ext-shell/src/tools/apply_patch.rs does to the files, on a file
-- system whose calls do what `std::fs` documents.
use shlop.Prelude.{
  ℕ, ◌≡◌, refl, ap, subst, ◌∙◌, inl, inr, Option, none, some, Bool, true, false, List, [], ◌∷◌,
  if◌then◌else◌, length, Bool-cases, Option-cases, ◌==◌, nat_eq,
}
use mathlib.Core.Option.{get_or}
use shlop.Prelude.Text.{Str, str_eq}
use shlop.Shell.Chunks.{UpdateChunk, Outcome, ok, err, derive_new_contents_from_chunks}
use shlop.Shell.Placement.{Outcome-cases}
use shlop.Shell.Patch.{Hunk, add_hunk, delete_hunk, update_hunk}
use shlop.Shell.Hunks.{
  contents, WriteResult, written, parent_missing, write_error, FileSystem, AppliedChange, Reason,
  Applied, applied, failure, resolve_path, read_optional_file, is_not_directory,
  write_file_with_missing_parent_retry, apply_add, apply_delete, remove_original, apply_new,
  apply_move, apply_rewrite, apply_update, apply_hunk, and_then, apply_all, apply_hunks, report,
  after_move, as_done, create_parent, retried, write_again,
}
use shlop.Shell.Applied.{Read-cases}

-- The contents of the files by their paths, and the reference for the effect of hunks on them.
abbrev pub Files : Type 0
Files = Str → Option Str

abbrev pub put : Str → Str → Files → Files
put path body files = λ q. if q == path then some body else files q

abbrev pub erase : Str → Files → Files
erase path files = λ q. if q == path then none else files q

unfoldable pub moved_to : Str → Str → Option Str → Str → Files → Files
moved_to cwd path none new files = put (resolve_path cwd path) new files
moved_to cwd path (some dest) new files =
    erase (resolve_path cwd path) (put (resolve_path cwd dest) new files)

unfoldable pub updated : Str → Str → Option Str → Outcome Str → Files → Files
updated cwd path dest (err e) files = files
updated cwd path dest (ok new) files = moved_to cwd path dest new files

unfoldable pub updated_from : Str → Str → Option Str → List UpdateChunk → Option Str → Files → Files
updated_from cwd path dest chunks none files = files
updated_from cwd path dest chunks (some old) files =
    updated cwd path dest (derive_new_contents_from_chunks old chunks) files

unfoldable pub effect : Str → Hunk → Files → Files
effect cwd (add_hunk path body) files = put (resolve_path cwd path) body files
effect cwd (delete_hunk path) files = erase (resolve_path cwd path) files
effect cwd (update_hunk path dest chunks) files =
    updated_from cwd path dest chunks (files (resolve_path cwd path)) files

unfoldable pub effects : Str → List Hunk → Files → Files
effects cwd [] files = files
effects cwd (h ∷ hs) files = effects cwd hs (effect cwd h files)

-- The files behind a file system, and what its calls do to them when they succeed.
pub record Disk {W : Type 0} (fs : FileSystem W) : Type 0 where
  pub files : W → Files
  pub reads : (w : W) (p s : Str) → fs.read_to_string w p ≡ contents s → files w p ≡ some s
  pub writes :
      (w : W) (p s : Str)
      → (fs.write_file w p s).1 ≡ written
      → files ((fs.write_file w p s).0) ≡ put p s (files w)
  pub misses :
      (w : W) (p s : Str)
      → (fs.write_file w p s).1 ≡ parent_missing
      → files ((fs.write_file w p s).0) ≡ files w
  pub creates : (w : W) (p : Str) → files ((fs.create_dir_all w p).0) ≡ files w
  pub removes :
      (w : W) (p : Str)
      → (fs.remove_file w p).1 ≡ true
      → files ((fs.remove_file w p).0) ≡ erase p (files w)

module _ {W : Type 0} (fs : FileSystem W) (disk : Disk fs) (cwd : Str) where
  -- The files are `f` when the call succeeded.
  Did : Files → W × Bool → Type 0
  Did f (w, true) = disk.files w ≡ f
  Did f (w, false) = Unit

  unfoldable pub Made : Files → W × Applied → Type 0
  Made f (w, applied cs) = disk.files w ≡ f
  Made f (w, failure r cs) = Unit

  report-Made :
      (f : Files) (r : Reason) (cs ds : List AppliedChange) (done : W × Bool)
      → Did f done
      → Made f (report fs cwd r cs ds done)
  unfolding Did Made
  report-Made f r cs ds (w, true) h = h
  report-Made f r cs ds (w, false) h = tt

  Did-intro : (f : Files) (r : W × Bool) → (r.1 ≡ true → disk.files r.0 ≡ f) → Did f r
  unfolding Did
  Did-intro f (w, true) h = h refl
  Did-intro f (w, false) h = tt

  Did-done :
      (f : Files) (r : W × WriteResult)
      → (r.1 ≡ written → disk.files r.0 ≡ f)
      → Did f (as_done fs cwd r)
  unfolding Did
  Did-done f (w, written) h = h refl
  Did-done f (w, parent_missing) h = tt
  Did-done f (w, write_error) h = tt

  again-Did :
      (p s : Str) (f : Files) (r : W × Bool)
      → disk.files r.0 ≡ f
      → Did (put p s f) (write_again fs cwd p s r)
  unfolding Did
  again-Did p s f (w, false) h = tt
  again-Did p s f (w, true) h =
      Did-done (put p s f) (fs.write_file w p s) (λ ok. disk.writes w p s ok ∙ ap (put p s) h)

  create_parent-files : (w : W) (p : Str) → disk.files ((create_parent fs cwd w p).0) ≡ disk.files w
  unfolding create_parent
  create_parent-files w p = elim (Option-cases (fs.parent p)) [
    | inl e ↦ rw (create_parent, e) refl
    | inr (dir, e) ↦ rw (create_parent, e) (disk.creates w dir)
  ]

  retried-Did :
      (p s : Str) (f : Files) (r : W × WriteResult)
      → (r.1 ≡ written → disk.files r.0 ≡ put p s f)
      → (r.1 ≡ parent_missing → disk.files r.0 ≡ f)
      → Did (put p s f) (retried fs cwd p s r)
  unfolding Did
  retried-Did p s f (w, written) h g = h refl
  retried-Did p s f (w, write_error) h g = tt
  retried-Did p s f (w, parent_missing) h g =
      again-Did p s f (create_parent fs cwd w p) (create_parent-files w p ∙ g refl)

  write-Did :
      (w : W) (p s : Str)
      → Did (put p s (disk.files w)) (write_file_with_missing_parent_retry fs cwd w p s)
  unfolding write_file_with_missing_parent_retry
  write-Did w p s =
      retried-Did p s (disk.files w) (fs.write_file w p s) (disk.writes w p s) (disk.misses w p s)

  add-Made :
      (w : W) (cs : List AppliedChange) (path body : Str)
      → Made (put (resolve_path cwd path) body (disk.files w)) (apply_add fs cwd w cs path body)
  unfolding apply_add Made
  add-Made w cs path body =
      let abs = resolve_path cwd path in
      elim (Option-cases (read_optional_file fs cwd w abs)) [
        | inl e ↦ rw (apply_add, e) tt
        | inr (old, e) ↦
            rw (apply_add, e)
              (report-Made (put abs body (disk.files w)) _ cs _
                (write_file_with_missing_parent_retry fs cwd w abs body) (write-Did w abs body))
      ]

  Made-failure :
      (f : Files) (w : W) (r : Reason) (cs : List AppliedChange) → Made f (w, failure r cs)
  unfolding Made
  Made-failure f w r cs = tt

  delete-Made :
      (w : W) (cs : List AppliedChange) (path : Str)
      → Made (erase (resolve_path cwd path) (disk.files w)) (apply_delete fs cwd w cs path)
  unfolding apply_delete
  delete-Made w cs path =
      let abs = resolve_path cwd path in
      elim (Bool-cases (is_not_directory fs cwd w abs)) [
        | inr e ↦ rw (apply_delete, e) (Made-failure (erase abs (disk.files w)) w _ cs)
        | inl e ↦ elim (Read-cases (fs.read_to_string w abs)) [
          | inr (inr (m, u)) ↦
              rw (apply_delete, e, u) (Made-failure (erase abs (disk.files w)) w _ cs)
          | inr (inl n) ↦ rw (apply_delete, e, n) (Made-failure (erase abs (disk.files w)) w _ cs)
          | inl (old, o) ↦
              rw (apply_delete, e, o)
                (report-Made (erase abs (disk.files w)) _ cs _ (fs.remove_file w abs) (
                  Did-intro (erase abs (disk.files w)) (fs.remove_file w abs) (disk.removes w abs)))
        ]
      ]

  remove_original-Made :
      (w : W) (cs : List AppliedChange) (i : ℕ) (abs : Str) (c : AppliedChange)
      → Made (erase abs (disk.files w)) (remove_original fs cwd w cs i abs c)
  unfolding remove_original Made
  remove_original-Made w cs i abs c = elim (Bool-cases (is_not_directory fs cwd w abs)) [
    | inr e ↦ rw (remove_original, e) tt
    | inl e ↦
        rw (remove_original, e)
          (report-Made (erase abs (disk.files w)) _ cs _ (fs.remove_file w abs)
            (Did-intro (erase abs (disk.files w)) (fs.remove_file w abs) (disk.removes w abs)))
  ]

  after_move-Made :
      (f : Files) (cs : List AppliedChange) (dest overwritten abs old new : Str) (r : W × Bool)
      → Did f r
      → Made (erase abs f) (after_move fs cwd cs dest overwritten abs old new r)
  unfolding Did Made
  after_move-Made f cs dest overwritten abs old new (w, false) h = tt
  after_move-Made f cs dest overwritten abs old new (w, true) h =
      subst (λ g. Made (erase abs g) (after_move fs cwd cs dest overwritten abs old new (w, true)))
        h (remove_original-Made w _ (length cs) abs _)

  new-Made :
      (w : W) (cs : List AppliedChange) (path : Str) (move_path : Option Str) (old new : Str)
      → Made
          (moved_to cwd path move_path new (disk.files w))
          (apply_new fs cwd w cs path move_path old new)
  unfolding apply_new apply_rewrite apply_move moved_to Made
  new-Made w cs path none old new =
      let abs = resolve_path cwd path in
      report-Made (put abs new (disk.files w)) _ cs _ (as_done fs cwd (fs.write_file w abs new))
        (Did-done (put abs new (disk.files w)) (fs.write_file w abs new) (disk.writes w abs new))
  new-Made w cs path (some dest) old new =
      let abs = resolve_path cwd dest in
      elim (Option-cases (read_optional_file fs cwd w abs)) [
        | inl e ↦ rw (apply_move, e) tt
        | inr (o, e) ↦
            rw (apply_move, e)
              (after_move-Made (put abs new (disk.files w)) cs dest (get_or o [])
                (resolve_path cwd path) old new
                (write_file_with_missing_parent_retry fs cwd w abs new) (write-Did w abs new))
      ]

  update-Made :
      (w : W) (cs : List AppliedChange) (path : Str) (dest : Option Str) (chunks : List UpdateChunk)
      → Made
          (updated_from cwd path dest chunks (disk.files w (resolve_path cwd path)) (disk.files w))
          (apply_update fs cwd w cs path dest chunks)
  unfolding apply_update updated_from updated Made
  update-Made w cs path dest chunks =
      elim (Read-cases (fs.read_to_string w (resolve_path cwd path))) [
        | inr (inr (m, u)) ↦ rw (apply_update, u) tt
        | inr (inl n) ↦ rw (apply_update, n) tt
        | inl (old, o) ↦ elim (Outcome-cases (derive_new_contents_from_chunks old chunks)) [
          | inl (why, e) ↦ rw (apply_update, o, e) tt
          | inr (new, e) ↦
              rw (apply_update, o, e, disk.reads w (resolve_path cwd path) old o, e)
                (new-Made w cs path dest old new)
        ]
      ]

  hunk-Made :
      (w : W) (cs : List AppliedChange) (h : Hunk)
      → Made (effect cwd h (disk.files w)) (apply_hunk fs cwd w cs h)
  unfolding apply_hunk effect
  hunk-Made w cs (add_hunk path body) = add-Made w cs path body
  hunk-Made w cs (delete_hunk path) = delete-Made w cs path
  hunk-Made w cs (update_hunk path dest chunks) = update-Made w cs path dest chunks

  and_then-Made :
      (f : Files) (hs : List Hunk) (r : W × Applied)
      → Made f r
      → ((w : W) (cs : List AppliedChange)
          → Made (effects cwd hs (disk.files w)) (apply_all fs cwd hs w cs))
      → Made (effects cwd hs f) (and_then fs cwd r (apply_all fs cwd hs))
  unfolding Made
  and_then-Made f hs (w, failure reason cs) h later = tt
  and_then-Made f hs (w, applied cs) h later =
      subst (λ g. Made (effects cwd hs g) (apply_all fs cwd hs w cs)) h (later w cs)

  all-Made :
      (hs : List Hunk) (w : W) (cs : List AppliedChange)
      → Made (effects cwd hs (disk.files w)) (apply_all fs cwd hs w cs)
  unfolding apply_all effects Made
  all-Made [] w cs = refl
  all-Made (h ∷ hs) w cs =
      and_then-Made (effect cwd h (disk.files w)) hs (apply_hunk fs cwd w cs h) (hunk-Made w cs h)
        (λ v ds. all-Made hs v ds)

-- On a file system whose calls do what `Disk` says, when `apply_hunks` succeeds, the files are those
-- that the hunks ask for, one after the other: each file has the contents that the hunks gave it, and
-- every other file has the contents it had.
pub apply_hunks-effects :
    {W : Type 0} (fs : FileSystem W) (disk : Disk fs) (cwd : Str) (hs : List Hunk) (w v : W)
    (cs : List AppliedChange)
    → apply_hunks fs (some cwd) hs w ≡ (v, applied cs)
    → disk.files v ≡ effects cwd hs (disk.files w)
unfolding apply_hunks Made
apply_hunks-effects fs disk cwd [] w v cs h = absurd cc
apply_hunks-effects fs disk cwd (k ∷ ks) w v cs h =
    subst (Made fs disk cwd (effects cwd (k ∷ ks) (disk.files w))) h
      (all-Made fs disk cwd (k ∷ ks) w [])
