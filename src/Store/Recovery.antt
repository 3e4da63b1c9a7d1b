-- ===== src/Store/Recovery.antt =====
-- The cached tree and the durable log: what a restart finds after appends, failed ones included.
use mathlib.Core.Option
use shlop.Prelude.{
  ℕ, ◌≡◌, ◌≢◌, inl, inr, refl, sym, ap, subst, ◌∙◌, true, Option, none, some, List, [], ◌∷◌, ◌++◌,
  arith, All, Option-cases, All-push,
}
use shlop.Prelude.Text.{Str, str_eq}
use shlop.Prelude.Map
use shlop.Prelude.Map.{Map, get-insert_self}
use shlop.Proto.Event.{Event}
use shlop.Session.Tree.{
  SessionTree, PersistedSessionEvent, apply_event_at, from_events, empty_tree,
  advance_next_event_id,
}
use shlop.Session.Replay.{record_for, persisted-eq, from_events-append}
use shlop.Store.Framing.{frame, frames}
use shlop.Store.Loading.{Fits, load_records-frames_whole, frames-push, frames-eq-nil}
use shlop.Store.Append.{
  Io, whole, Store, Result, ok, ensure_locked, load_session_if_needed, loaded, file_of, tree_of,
  append_loaded, append_session_event_at, AppendOutcome, bind-ok,
}

-- The operating system lets the call through up to the sidecar `meta.json`.
pub record Passes (io : Io) : Type 0 where
  pub dir : io.dir_made ≡ true
  pub opened : io.lock_opened ≡ true
  pub free : io.lock_free ≡ true
  pub lock : io.lock_written ≡ true
  pub appended : io.appended ≡ whole

module _ {V : Type 0} where
  pub locked_lem :
      (io : Io) (sid : Str) (s : Store V)
      → Passes io
      → (s' : Store V) × (ensure_locked io sid s ≡ (ok tt, s'))
        × (s'.sessions ≡ s.sessions)
        × (s'.files ≡ s.files)
  unfolding ensure_locked
  locked_lem io sid s k = ((ensure_locked io sid s).1, ground arith, ground arith, ground arith)

module _ {V : Type 0} (encode : PersistedSessionEvent V → Str)
    (decode : Str → Option (PersistedSessionEvent V)) where
  -- The session's file holds the records `rs`, and its tree, if it is cached, is their fold.
  pub record Synced (s : Store V) (sid : Str) (rs : List (PersistedSessionEvent V)) : Type 0 where
    pub file : file_of s sid ≡ frames encode rs
    pub fits : All (Fits encode decode) rs
    pub cached : (t : SessionTree V) → Map.get s.sessions sid ≡ some t → t ≡ from_events rs

  pub Synced-moved :
      (s s1 : Store V) (sid : Str) (rs : List (PersistedSessionEvent V))
      → s1.sessions ≡ s.sessions
      → s1.files ≡ s.files
      → Synced s sid rs
      → Synced s1 sid rs
  Synced-moved s s1 sid rs same f1 y = record {
    file = ap (λ (f : Map Str Str). Option.get_or (Map.get f sid) []) f1 ∙ y.file;
    fits = y.fits;
    cached = λ t e. y.cached t (ap (λ (m : Map Str (SessionTree V)). Map.get m sid) (sym same) ∙ e);
  }

  -- A file that is not there reads as no records.
  no_records :
      (s : Store V) (sid : Str) (rs : List (PersistedSessionEvent V))
      → file_of s sid ≡ frames encode rs
      → Map.get s.files sid ≡ none
      → from_events rs ≡ empty_tree
  unfolding from_events
  no_records s sid rs y f =
      ap from_events
        (frames-eq-nil encode decode rs (sym y ∙ ap (λ (o : Option Str). Option.get_or o []) f))

  load_file :
      (sid : Str) (s : Store V) (rs : List (PersistedSessionEvent V)) (bytes : Str)
      → Synced s sid rs
      → Map.get s.sessions sid ≡ none
      → Map.get s.files sid ≡ some bytes
      → load_session_if_needed encode decode sid s
        ≡ (ok tt, record s { sessions = Map.insert s.sessions sid (from_events rs) })
  unfolding load_session_if_needed
  load_file sid s rs bytes y e f = ground (arith, load_records-frames_whole encode decode rs y.fits)

  pub load_lem :
      (sid : Str) (s : Store V) (rs : List (PersistedSessionEvent V))
      → Synced s sid rs
      → (s' : Store V) × (load_session_if_needed encode decode sid s ≡ (ok tt, s'))
        × (s'.files ≡ s.files)
        × (tree_of s' sid ≡ from_events rs)
  load_lem sid s rs y = elim (Option-cases (Map.get s.sessions sid)) [
    | inr (t, e) ↦
        (s, unfold load_session_if_needed in ground arith, refl, ground (arith, y.cached t))
    | inl e ↦ elim (Option-cases (Map.get s.files sid)) [
      | inl f ↦ (
        s,
        unfold load_session_if_needed in ground arith,
        refl,
        ap (λ (o : Option (SessionTree V)). Option.get_or o empty_tree) e
            ∙ sym (no_records s sid rs y.file f),
      )
      | inr (bytes, f) ↦ (
        record s { sessions = Map.insert s.sessions sid (from_events rs) },
        load_file sid s rs bytes y e f,
        refl,
        ap (λ (o : Option (SessionTree V)). Option.get_or o empty_tree)
            (get-insert_self s.sessions sid (from_events rs)),
      )
    ]
  ]

  -- The store that a successful append leaves, from a session that is locked and loaded.
  abbrev appended : Str → Option (Option ℕ) → Event V → Store V → Store V
  appended sid parent event s =
      let t = tree_of s sid in
      record s {
        sessions =
            Map.insert (Map.insert s.sessions sid t) sid
              (advance_next_event_id (apply_event_at t parent event).0);
        files =
            Map.insert s.files sid (file_of s sid ++ frame (encode (record_for t parent event)));
      }

  append_loaded_lem :
      (io : Io) (sid : Str) (parent : Option (Option ℕ)) (event : Event V) (s : Store V)
      → Passes io
      → io.meta_written ≡ true
      → append_loaded encode decode io sid parent event s ≡ (
        ok (record {
          id = (tree_of s sid).next_event_id;
          folded_node_id = (apply_event_at (tree_of s sid) parent event).1;
        }),
        appended sid parent event s,
      )
  unfolding append_loaded
  append_loaded_lem io sid parent event s k meta = rw (k.dir, k.appended, meta) refl

  abbrev outcome : SessionTree V → Option (Option ℕ) → Event V → AppendOutcome
  outcome t parent event = record {
    id = t.next_event_id;
    folded_node_id = (apply_event_at t parent event).1;
  }

  append_run :
      (io : Io) (sid : Str) (parent : Option (Option ℕ)) (event : Event V) (s s1 s2 : Store V)
      → Passes io
      → io.meta_written ≡ true
      → ensure_locked io sid s ≡ (ok tt, s1)
      → load_session_if_needed encode decode sid s1 ≡ (ok tt, s2)
      → append_session_event_at encode decode io sid parent event s
        ≡ (ok (outcome (tree_of s2 sid) parent event), appended sid parent event s2)
  unfolding append_session_event_at
  append_run io sid parent event s s1 s2 k meta h1 h2 =
      bind-ok (ensure_locked io sid) _ h1
      ∙ bind-ok (load_session_if_needed encode decode sid) _ h2
      ∙ append_loaded_lem io sid parent event s2 k meta

  -- The file after one more record.
  pub file_push :
      (sid : Str) (parent : Option (Option ℕ)) (event : Event V) (s s' : Store V)
      (rs : List (PersistedSessionEvent V))
      → file_of s sid ≡ frames encode rs
      → s'.files ≡ s.files
      → tree_of s' sid ≡ from_events rs
      → Option.get_or
          (Map.get
            (Map.insert s'.files sid
              (file_of s' sid ++ frame (encode (record_for (tree_of s' sid) parent event))))
            sid)
          []
        ≡ frames encode (rs ++ record_for (from_events rs) parent event ∷ [])
  file_push sid parent event s s' rs file same loaded =
      ap (λ (o : Option Str). Option.get_or o []) (get-insert_self s'.files sid _)
      ∙ ap (λ (f : Map Str Str). Option.get_or (Map.get f sid) [] ++ written (tree_of s' sid)) same
      ∙ ap (λ f. f ++ written (tree_of s' sid)) file
      ∙ ap (λ t. frames encode rs ++ written t) loaded
      ∙ sym (frames-push encode decode rs (record_for (from_events rs) parent event))
    where
      written : SessionTree V → Str
      written t = frame (encode (record_for t parent event))

  appended-Synced :
      (sid : Str) (parent : Option (Option ℕ)) (event : Event V) (s s' : Store V)
      (rs : List (PersistedSessionEvent V))
      → Synced s sid rs
      → parent ≢ some none
      → Fits encode decode (record_for (from_events rs) parent event)
      → s'.files ≡ s.files
      → tree_of s' sid ≡ from_events rs
      → Synced
          (appended sid parent event s')
          sid
          (rs ++ record_for (from_events rs) parent event ∷ [])
  appended-Synced sid parent event s s' rs y root fit same loaded = record {
    file = file_push sid parent event s s' rs y.file same loaded;
    fits = All-push (Fits encode decode) rs (record_for (from_events rs) parent event) y.fits fit;
    cached = λ t e.
        some-eq (sym e ∙ get-insert_self (Map.insert s'.sessions sid (tree_of s' sid)) sid _)
        ∙ ap (λ t. advance_next_event_id (apply_event_at t parent event).0) loaded
        ∙ ap (λ p. advance_next_event_id (apply_event_at (from_events rs) p event).0)
            (sym (persisted-eq parent root))
        ∙ sym (from_events-append rs parent event);
  }
    where
      some-eq : {t u : SessionTree V} → some t ≡ some u → t ≡ u
      some-eq e = cc

  -- An append that the operating system lets through keeps the file and the cached tree in step: if
  -- the session's file held the records `rs` and its cached tree was their fold, the file then holds
  -- one record more and the cached tree is the fold of all of them. The publish is not one at the
  -- root, and its record can be encoded within the limit.
  pub append_session_event_at-Synced :
      (io : Io) (sid : Str) (parent : Option (Option ℕ)) (event : Event V) (s : Store V)
      (rs : List (PersistedSessionEvent V))
      → Passes io
      → io.meta_written ≡ true
      → Synced s sid rs
      → parent ≢ some none
      → Fits encode decode (record_for (from_events rs) parent event)
      → let (r, s') = append_session_event_at encode decode io sid parent event s in
        (r
          ≡ ok (record {
            id = (from_events rs).next_event_id;
            folded_node_id = (apply_event_at (from_events rs) parent event).1;
          }))
        × Synced s' sid (rs ++ record_for (from_events rs) parent event ∷ [])
  append_session_event_at-Synced io sid parent event s rs k meta y root fit =
      let (s1, h1, same, f1) = locked_lem io sid s k in
      let y1 : Synced s1 sid rs = Synced-moved s s1 sid rs same f1 y in
      let (s2, h2, f2, t2) = load_lem sid s1 rs y1 in
      let done = append_run io sid parent event s s1 s2 k meta h1 h2 in
      (
        ap (λ (p : Result AppendOutcome × Store V). p.0) done
            ∙ ap (λ (t : SessionTree V). ok (outcome t parent event)) t2,
        subst
            (λ (p : Result AppendOutcome × Store V).
              Synced p.1 sid (rs ++ record_for (from_events rs) parent event ∷ []))
            (sym done) (appended-Synced sid parent event s1 s2 rs y1 root fit f2 t2),
      )
