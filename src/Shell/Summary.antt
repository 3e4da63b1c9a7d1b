-- ===== src/Shell/Summary.antt =====
-- How the changes of a patch are listed to the user (`format_summary` and
-- `display_payload_for_failure` of crates/tau-ext-shell/src/tools/apply_patch.rs).
use shlop.Prelude.{
  ◌+◌, ◌≡◌, refl, ◌∙◌, Option, none, some, Bool, true, false, List, [], ◌∷◌, ◌++◌, if◌then◌else◌,
  length, retain, map, is_empty, arith, length-append,
}
use shlop.Prelude.Text.{Str, text}
use shlop.Prelude.Lines.{join_lines}
use shlop.Shell.Hunks.{ChangeStatus, added, modified, deleted, AppliedChange}

-- `ChangeStatus::short_name`
unfoldable pub short_name : ChangeStatus → Str
short_name added = text "A"
short_name modified = text "M"
short_name deleted = text "D"

unfoldable pub same_status : ChangeStatus → ChangeStatus → Bool
same_status added added = true
same_status modified modified = true
same_status deleted deleted = true
same_status _ _ = false

abbrev pub change_line : AppliedChange → Str
change_line c = short_name c.status ++ text " " ++ c.display_path

-- The changes of one status, in their order.
unfoldable pub lines_of : ChangeStatus → List AppliedChange → List Str
lines_of status changes = map change_line (retain (λ c. same_status c.status status) changes)

-- The loops that both texts share.
unfoldable pub status_lines : List AppliedChange → List Str
status_lines changes =
    lines_of added changes ++ (lines_of modified changes ++ lines_of deleted changes)

unfoldable pub format_summary : List AppliedChange → Str
format_summary changes =
    join_lines (text "Success. Updated the following files:" ∷ status_lines changes)

unfoldable pub display_payload_for_failure : List AppliedChange → Option Str
display_payload_for_failure changes =
    if is_empty changes
    then none
    else some (join_lines (text "Partial changes applied before failure:" ∷ status_lines changes))

length-lines_of :
    (status : ChangeStatus) (c : AppliedChange) (cs : List AppliedChange)
    → length (lines_of status (c ∷ cs))
      ≡ (if same_status c.status status then 1 else 0) + length (lines_of status cs)
unfolding lines_of
length-lines_of status c cs = ground arith

one_status :
    (s : ChangeStatus)
    → (if same_status s added then 1 else 0)
        + (if same_status s modified then 1 else 0)
        + (if same_status s deleted then 1 else 0)
      ≡ 1
unfolding same_status
one_status added = refl
one_status modified = refl
one_status deleted = refl

length-status_lines_sum :
    (cs : List AppliedChange)
    → length (status_lines cs)
      ≡ length (lines_of added cs) + length (lines_of modified cs) + length (lines_of deleted cs)
unfolding status_lines
length-status_lines_sum cs = omega (
  arith,
  length-append (lines_of added cs) (lines_of modified cs ++ lines_of deleted cs),
  length-append (lines_of modified cs) (lines_of deleted cs),
)

no_lines :
    length (lines_of added []) + length (lines_of modified []) + length (lines_of deleted []) ≡ 0
unfolding lines_of
no_lines = refl

-- Every change has one line: no status is left out, and none is listed twice.
pub length-status_lines : (cs : List AppliedChange) → length (status_lines cs) ≡ length cs
length-status_lines [] = length-status_lines_sum [] ∙ no_lines
length-status_lines (c ∷ cs) = omega (
  arith,
  length-status_lines_sum (c ∷ cs),
  length-status_lines_sum cs,
  length-lines_of added c cs,
  length-lines_of modified c cs,
  length-lines_of deleted c cs,
  one_status c.status,
  length-status_lines cs,
)
