-- ===== src/Dedup/Rebuild.antt =====
-- The map against the branch it was built for.
use shlop.Prelude.{
  ℕ, ◌≡◌, refl, sym, ap, ◌∙◌, Bool-cases, Option-cases, inl, inr, Option, none, some, List, [], ◌∷◌,
  ◌++◌, arith, if◌then◌else◌, ltb, length, ◌==◌, ==_iff,
}
use shlop.Prelude.Text.{Str, str_eq}
use shlop.Prelude.Map
use shlop.Prelude.Map.{Map, get-insert}
use shlop.Proto.Event.{ToolResult}
use shlop.Session.Tree.{SessionEntry, user_message, agent_message, tool_activity, result}
use shlop.Dedup.Results.{
  default_threshold_bytes, ResultDedupMap, lookup, content_of, note_content, note_entry,
  note_entries, rebuild_from_branch,
}

-- The first answer, or else the second.
abbrev pub or_else : Option Str → Option Str → Option Str
or_else none b = b
or_else (some a) b = some a

pub or_else-none : (o : Option Str) → or_else o none ≡ o
or_else-none none = refl
or_else-none (some a) = refl

pub or_else_assoc : (a b c : Option Str) → or_else (or_else a b) c ≡ or_else a (or_else b c)
or_else_assoc none b c = refl
or_else_assoc (some x) b c = refl

module _ {V : Type 0} (encode : V → Str) (hash : Str → Str) (as_text : V → Option Str)
    (from_text : Str → V) where
  -- The call of an entry, if its content is large enough and has this hash.
  abbrev pub call_for : ℕ → Str → Str → Option Str → Option Str
  call_for threshold h call_id none = none
  call_for threshold h call_id (some bytes) =
      if ltb (length bytes) threshold then none else if hash bytes == h then some call_id else none

  abbrev pub call_of : ℕ → Str → SessionEntry V → Option Str
  call_of threshold h (tool_activity a) =
      call_for threshold h a.call_id (content_of encode hash as_text from_text a.outcome)
  call_of threshold h _ = none

  -- The first call of a branch whose content has this hash.
  abbrev pub first_call : ℕ → Str → List (SessionEntry V) → Option Str
  first_call threshold h [] = none
  first_call threshold h (e ∷ es) = or_else (call_of threshold h e) (first_call threshold h es)

  get-note_content :
      (threshold : ℕ) (h call_id : Str) (content : Option Str) (m : Map Str Str)
      → Map.get (note_content encode hash as_text from_text threshold call_id content m) h
        ≡ or_else (Map.get m h) (call_for threshold h call_id content)
  unfolding note_content
  get-note_content threshold h call_id none m = sym (or_else-none (Map.get m h))
  get-note_content threshold h call_id (some bytes) m =
      elim (Bool-cases (ltb (length bytes) threshold)) [
        | inl small ↦ ground (arith, small, or_else-none (Map.get m h))
        | inr big ↦ elim (Bool-cases (hash bytes == h)) [
          | inl e ↦ elim (Option-cases (Map.get m (hash bytes))) [
            | inl o ↦ ground (
              arith,
              big,
              e,
              o,
              get-insert m (hash bytes) call_id h,
              ap (Map.get m) ((==_iff (hash bytes) h).0 e),
            )
            | inr (x, o) ↦ ground (arith, big, e, o, ap (Map.get m) ((==_iff (hash bytes) h).0 e))
          ]
          | inr e ↦ elim (Option-cases (Map.get m (hash bytes))) [
            | inl o ↦
                ground (
                  arith,
                  big,
                  e,
                  o,
                  get-insert m (hash bytes) call_id h,
                  or_else-none (Map.get m h),
                )
            | inr (x, o) ↦ ground (arith, big, e, o, or_else-none (Map.get m h))
          ]
        ]
      ]

  get-note_entry :
      (threshold : ℕ) (h : Str) (e : SessionEntry V) (m : Map Str Str)
      → Map.get (note_entry encode hash as_text from_text threshold e m) h
        ≡ or_else (Map.get m h) (call_of threshold h e)
  unfolding note_entry
  get-note_entry threshold h (user_message _) m = sym (or_else-none (Map.get m h))
  get-note_entry threshold h (agent_message _ _ _ _) m = sym (or_else-none (Map.get m h))
  get-note_entry threshold h (tool_activity a) m =
      get-note_content threshold h a.call_id (content_of encode hash as_text from_text a.outcome) m

  get-note_entries :
      (threshold : ℕ) (h : Str) (es : List (SessionEntry V)) (m : Map Str Str)
      → Map.get (note_entries encode hash as_text from_text threshold es m) h
        ≡ or_else (Map.get m h) (first_call threshold h es)
  unfolding note_entries
  get-note_entries threshold h [] m = sym (or_else-none (Map.get m h))
  get-note_entries threshold h (e ∷ es) m =
      get-note_entries threshold h es (note_entry encode hash as_text from_text threshold e m)
      ∙ ap (λ o. or_else o (first_call threshold h es)) (get-note_entry threshold h e m)
      ∙ or_else_assoc (Map.get m h) (call_of threshold h e) (first_call threshold h es)

  -- A map that is rebuilt from a branch finds for a hash the first call of the branch whose
  -- result or error has that hash, is not below the threshold, and is not itself a pointer.
  pub lookup-rebuild_from_branch :
      (m : ResultDedupMap) (branch : List (SessionEntry V)) (head : Option ℕ) (threshold : ℕ)
      (h : Str)
      → lookup (rebuild_from_branch encode hash as_text from_text m branch head threshold) h
        ≡ first_call threshold h branch
  unfolding lookup rebuild_from_branch Map.get
  lookup-rebuild_from_branch m branch head threshold h = get-note_entries threshold h branch []

  pub first_call-push :
      (threshold : ℕ) (h : Str) (es : List (SessionEntry V)) (e : SessionEntry V)
      → first_call threshold h (es ++ e ∷ [])
        ≡ or_else (first_call threshold h es) (call_of threshold h e)
  first_call-push threshold h [] e = or_else-none (call_of threshold h e)
  first_call-push threshold h (x ∷ es) e =
      ap (or_else (call_of threshold h x)) (first_call-push threshold h es e)
      ∙ sym (
          or_else_assoc (call_of threshold h x) (first_call threshold h es) (call_of threshold h e))

  -- The map finds what a map rebuilt from the branch would find.
  pub record InSync (m : ResultDedupMap) (branch : List (SessionEntry V)) : Type 0 where
    pub at : (h : Str) → lookup m h ≡ first_call default_threshold_bytes h branch

  -- The entry that a result folds to.
  abbrev pub entry_for : ToolResult V → SessionEntry V
  entry_for r =
      tool_activity
        (record { call_id = r.call_id; tool_name = r.tool_name; outcome = result r.result })
