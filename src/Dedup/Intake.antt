-- ===== src/Dedup/Intake.antt =====
-- The intake of a result keeps the map in step with the branch that the result extends.
use shlop.Prelude.{
  ◌≡◌, sym, ap, subst, ◌∙◌, true, false, Bool-cases, Option-cases, inl, inr, Option, none, some,
  List, [], ◌∷◌, ◌++◌, arith, ltb, length, ◌==◌, ==_iff,
}
use shlop.Prelude.Text.{Str, text, str_eq, starts_with, starts_with-append}
use shlop.Prelude.Map
use shlop.Prelude.Map.{Map, get-insert}
use shlop.Proto.Event.{ToolResult}
use shlop.Session.Tree.{SessionEntry, result}
use shlop.Dedup.Results.{
  dedup_marker, default_threshold_bytes, ResultDedupMap, lookup, insert, pointer_text,
  is_dedup_pointer_value, content_of, dedup_tool_result,
}
use shlop.Dedup.Rebuild.{or_else, or_else-none, call_of, first_call-push, InSync, entry_for}

module _ {V : Type 0} (encode : V → Str) (hash : Str → Str) (as_text : V → Option Str)
    (from_text : Str → V) where
  starts_with-pointer_text : (c t : Str) → starts_with (pointer_text c t) dedup_marker ≡ true
  unfolding pointer_text
  starts_with-pointer_text c t =
      starts_with-append dedup_marker (text " same as " ++ (t ++ (text " " ++ c)))

  content_fresh :
      (v : V)
      → is_dedup_pointer_value encode hash as_text from_text v ≡ false
      → content_of encode hash as_text from_text (result v) ≡ some (encode v)
  unfolding content_of
  content_fresh v fresh = ground (arith, fresh)

  content_pointer :
      (c t : Str)
      → ((s : Str) → as_text (from_text s) ≡ some s)
      → content_of encode hash as_text from_text (result (from_text (pointer_text c t))) ≡ none
  unfolding content_of is_dedup_pointer_value
  content_pointer c t reads = ground (arith, reads (pointer_text c t), starts_with-pointer_text c t)

  -- What the intake of a result does to the lookups, with the entry that the branch gains.
  abbrev Extends : ResultDedupMap → ToolResult V × ResultDedupMap → Type 0
  Extends m p =
      (h : Str)
      → lookup p.1 h
        ≡ or_else (lookup m h) (
            call_of encode hash as_text from_text default_threshold_bytes h
              (entry_for encode hash as_text from_text p.0))

  kept :
      (m : ResultDedupMap) (r : ToolResult V) (h : Str)
      → call_of encode hash as_text from_text default_threshold_bytes h
          (entry_for encode hash as_text from_text r)
        ≡ none
      → lookup m h
        ≡ or_else (lookup m h) (
            call_of encode hash as_text from_text default_threshold_bytes h
              (entry_for encode hash as_text from_text r))
  kept m r h e = sym (or_else-none (lookup m h)) ∙ ap (or_else (lookup m h)) (sym e)

  intake_found :
      (m : ResultDedupMap) (r : ToolResult V) (x : Str)
      → is_dedup_pointer_value encode hash as_text from_text r.result ≡ false
      → lookup m (hash (encode r.result)) ≡ some x
      → Extends m (r, m)
  intake_found m r x fresh o h = elim (Bool-cases (hash (encode r.result) == h)) [
    | inl e ↦ ground (arith, o, ap (lookup m) ((==_iff (hash (encode r.result)) h).0 e))
    | inr e ↦ kept m r h (ground (arith, content_fresh r.result fresh, e))
  ]

  intake_new :
      (m : ResultDedupMap) (r : ToolResult V)
      → is_dedup_pointer_value encode hash as_text from_text r.result ≡ false
      → ltb (length (encode r.result)) default_threshold_bytes ≡ false
      → lookup m (hash (encode r.result)) ≡ none
      → Extends m (r, insert m (hash (encode r.result)) r.call_id)
  unfolding lookup insert
  intake_new m r fresh big o h = elim (Bool-cases (hash (encode r.result) == h)) [
    | inl e ↦ ground (
      arith,
      o,
      e,
      big,
      content_fresh r.result fresh,
      get-insert m.map (hash (encode r.result)) r.call_id h,
      ap (Map.get m.map) ((==_iff (hash (encode r.result)) h).0 e),
    )
    | inr e ↦ ground (
      arith,
      e,
      big,
      content_fresh r.result fresh,
      get-insert m.map (hash (encode r.result)) r.call_id h,
      or_else-none (Map.get m.map h),
    )
  ]

  intake_eq_small :
      (m : ResultDedupMap) (r : ToolResult V)
      → ltb (length (encode r.result)) default_threshold_bytes ≡ true
      → dedup_tool_result encode hash as_text from_text m r ≡ (r, m)
  unfolding dedup_tool_result
  intake_eq_small m r small = ground (arith, small)

  intake_eq_new :
      (m : ResultDedupMap) (r : ToolResult V)
      → ltb (length (encode r.result)) default_threshold_bytes ≡ false
      → lookup m (hash (encode r.result)) ≡ none
      → dedup_tool_result encode hash as_text from_text m r
        ≡ (r, insert m (hash (encode r.result)) r.call_id)
  unfolding dedup_tool_result
  intake_eq_new m r big o = ground (arith, big, o)

  intake_eq_self :
      (m : ResultDedupMap) (r : ToolResult V) (x : Str)
      → ltb (length (encode r.result)) default_threshold_bytes ≡ false
      → lookup m (hash (encode r.result)) ≡ some x
      → (x == r.call_id) ≡ true
      → dedup_tool_result encode hash as_text from_text m r ≡ (r, m)
  unfolding dedup_tool_result
  intake_eq_self m r x big o e = ground (arith, big, o, e)

  intake_eq_pointer :
      (m : ResultDedupMap) (r : ToolResult V) (x : Str)
      → ltb (length (encode r.result)) default_threshold_bytes ≡ false
      → lookup m (hash (encode r.result)) ≡ some x
      → (x == r.call_id) ≡ false
      → dedup_tool_result encode hash as_text from_text m r
        ≡ (record r { result = from_text (pointer_text x r.tool_name) }, m)
  unfolding dedup_tool_result
  intake_eq_pointer m r x big o e = ground (arith, big, o, e)

  intake :
      (m : ResultDedupMap) (r : ToolResult V)
      → ((s : Str) → as_text (from_text s) ≡ some s)
      → is_dedup_pointer_value encode hash as_text from_text r.result ≡ false
      → Extends m (dedup_tool_result encode hash as_text from_text m r)
  intake m r reads fresh =
      elim (Bool-cases (ltb (length (encode r.result)) default_threshold_bytes)) [
        | inl small ↦
            subst (Extends m) (sym (intake_eq_small m r small))
              (λ h. kept m r h (ground (arith, content_fresh r.result fresh, small)))
        | inr big ↦ elim (Option-cases (lookup m (hash (encode r.result)))) [
          | inl o ↦ subst (Extends m) (sym (intake_eq_new m r big o)) (intake_new m r fresh big o)
          | inr (x, o) ↦ elim (Bool-cases (x == r.call_id)) [
            | inl e ↦
                subst (Extends m) (sym (intake_eq_self m r x big o e)) (intake_found m r x fresh o)
            | inr e ↦ subst (Extends m) (sym (intake_eq_pointer m r x big o e)) (λ h.
                kept m (record r { result = from_text (pointer_text x r.tool_name) }) h
                  (ground (arith, content_pointer x r.tool_name reads)))
          ]
        ]
      ]

  -- If reading back a text value gives its text, a map that is in sync with a branch, given a tool
  -- result that is not itself a pointer, is in sync with the branch that the result, or the
  -- pointer in its place, extends.
  pub dedup_tool_result-InSync :
      (m : ResultDedupMap) (branch : List (SessionEntry V)) (r : ToolResult V)
      → ((s : Str) → as_text (from_text s) ≡ some s)
      → InSync encode hash as_text from_text m branch
      → is_dedup_pointer_value encode hash as_text from_text r.result ≡ false
      → let (r', m') = dedup_tool_result encode hash as_text from_text m r in
        InSync encode hash as_text from_text m'
          (branch ++ entry_for encode hash as_text from_text r' ∷ [])
  dedup_tool_result-InSync m branch r reads sync fresh = record {
    at = λ h.
        intake m r reads fresh h
        ∙ ap
            (λ o. or_else o (
              call_of encode hash as_text from_text default_threshold_bytes h (
                entry_for encode hash as_text from_text
                  (dedup_tool_result encode hash as_text from_text m r).0)))
            (sync.at h)
        ∙ sym (
            first_call-push encode hash as_text from_text default_threshold_bytes h branch (
              entry_for encode hash as_text from_text
                (dedup_tool_result encode hash as_text from_text m r).0));
  }
