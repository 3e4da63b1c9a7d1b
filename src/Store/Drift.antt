-- ===== src/Store/Drift.antt =====
-- An append that fails after its record is on disk.
use shlop.Prelude.{ℕ, ◌≡◌, ◌≢◌, refl, ap, ◌∙◌, false, Option, some, List, [], ◌∷◌, ◌++◌}
use shlop.Prelude.Text.{Str, str_eq}
use shlop.Prelude.Map
use shlop.Prelude.Map.{Map, get-insert_self}
use shlop.Proto.Event.{Event}
use shlop.Session.Tree.{PersistedSessionEvent, from_events}
use shlop.Session.Replay.{record_for, from_events_moves}
use shlop.Store.Framing.{frame, frames}
use shlop.Store.Append.{
  Io, Store, Result, err, ensure_locked, load_session_if_needed, file_of, tree_of, append_loaded,
  append_session_event_at, AppendOutcome, bind-ok,
}
use shlop.Store.Recovery.{Passes, Synced, Synced-moved, file_push, locked_lem, load_lem}
use shlop.Store.Append.{write}

module _ {V : Type 0} (encode : PersistedSessionEvent V → Str)
    (decode : Str → Option (PersistedSessionEvent V)) where
  written_lem :
      (io : Io) (sid : Str) (parent : Option (Option ℕ)) (event : Event V) (s : Store V)
      → Passes io
      → io.meta_written ≡ false
      → append_loaded encode decode io sid parent event s ≡ (
        err write,
        record s {
          sessions = Map.insert s.sessions sid (tree_of s sid);
          files =
              Map.insert s.files sid
                (file_of s sid ++ frame (encode (record_for (tree_of s sid) parent event)));
        },
      )
  unfolding append_loaded
  written_lem io sid parent event s k meta = rw (k.dir, k.appended, meta) refl

  -- If writing `meta.json` fails, the call fails after the record has reached the log and before the
  -- event is applied: the log then holds the new record, the cached tree is still the fold of the
  -- old ones, and that is not the fold of the log, whatever the event was.
  pub append_session_event_at_drift :
      (io : Io) (sid : Str) (parent : Option (Option ℕ)) (event : Event V) (s : Store V)
      (rs : List (PersistedSessionEvent V))
      → Passes io
      → io.meta_written ≡ false
      → Synced encode decode s sid rs
      → let (r, s') = append_session_event_at encode decode io sid parent event s in
        let rs' = rs ++ record_for (from_events rs) parent event ∷ [] in
        (r ≡ err write)
        × (file_of s' sid ≡ frames encode rs')
        × (Map.get s'.sessions sid ≡ some (from_events rs))
        × (from_events rs' ≢ from_events rs)
  unfolding append_session_event_at
  append_session_event_at_drift io sid parent event s rs k meta y =
      let (s1, h1, same, f1) = locked_lem io sid s k in
      let y1 : Synced encode decode s1 sid rs = Synced-moved encode decode s s1 sid rs same f1 y in
      let (s2, h2, f2, t2) = load_lem encode decode sid s1 rs y1 in
      let done =
        bind-ok (ensure_locked io sid) _ h1
        ∙ bind-ok (load_session_if_needed encode decode sid) _ h2
        ∙ written_lem io sid parent event s2 k meta in
      (
        ap (λ (p : Result AppendOutcome × Store V). p.0) done,
        ap (λ (p : Result AppendOutcome × Store V). file_of p.1 sid) done
            ∙ file_push encode decode sid parent event s1 s2 rs y1.file f2 t2,
        ap (λ (p : Result AppendOutcome × Store V). Map.get p.1.sessions sid) done
            ∙ get-insert_self s2.sessions sid (tree_of s2 sid)
            ∙ ap some t2,
        from_events_moves rs parent event,
      )
