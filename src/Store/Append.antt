-- ===== src/Store/Append.antt =====
-- `SessionStore` (crates/tau-core/src/session_store.rs): the append path and loading on demand.
-- A store is its cached trees, the locks that it holds, and the `events.cbor` of each session, by
-- session id. What the operating system answers during a call is an argument, `Io`. The encoding
-- of records is a parameter, and never fails; `meta.json` is not kept, only whether writing it fails.
use mathlib.Core.Option
use shlop.Prelude.{
  ℕ, ◌≡◌, ap, Bool, true, false, Option, none, some, List, [], ◌∷◌, ◌++◌, if◌then◌else◌, any, take,
  ◌==◌,
}
use shlop.Prelude.Text.{Str, str_eq}
use shlop.Prelude.Map
use shlop.Prelude.Map.{Map}
use shlop.Proto.Event.{Event}
use shlop.Session.Tree.{
  SessionTree, PersistedSessionEvent, apply_event_at, from_events, empty_tree,
  advance_next_event_id,
}
use shlop.Session.Replay.{record_for}
use shlop.Store.Framing.{Loaded, read_error, decode_error, out_of_fuel, frame, load_records}

pub data SessionStoreError : Type 0 where
  create_parent_directory open_failed read write decode locked : SessionStoreError

pub data Result {ℓ} (A : Type ℓ) : Type ℓ where
  ok : A → Result A
  err : SessionStoreError → Result A

-- `append_cbor_record`: all is written, the file does not open, or a prefix is written.
pub data Appended : Type 0 where
  whole not_opened : Appended
  cut : ℕ → Appended

pub record Io : Type 0 where
  pub dir_made : Bool
  pub lock_opened : Bool
  pub lock_free : Bool
  pub lock_written : Bool
  pub appended : Appended
  pub meta_written : Bool

pub record Store (V : Type 0) : Type 0 where
  pub sessions : Map Str (SessionTree V)
  pub locks : List Str
  pub files : Map Str Str

pub record AppendOutcome : Type 0 where
  pub id : ℕ
  pub folded_node_id : Option ℕ

-- A method may fail, and what it changed before it failed stays changed.
abbrev pub Action : Type 0 → Type 0 → Type 0
Action V A = Store V → Result A × Store V

module _ {V : Type 0} where
  abbrev pub ok_then : {A B : Type 0} → Result A → (A → Action V B) → Action V B
  ok_then (ok a) f s = f a s
  ok_then (err e) f s = (err e, s)

  infixl 5 ◌>>=◌ ◌>>◌
  abbrev pub ◌>>=◌ : {A B : Type 0} → Action V A → (A → Action V B) → Action V B
  ◌>>=◌ m f s = let (r, s') = m s in ok_then r f s'

  abbrev pub ◌>>◌ : {A B : Type 0} → Action V A → Action V B → Action V B
  m >> k = m >>= λ _. k

  pub bind-ok :
      {A B : Type 0} (m : Action V A) (f : A → Action V B) {s s' : Store V} {a : A}
      → m s ≡ (ok a, s')
      → (m >>= f) s ≡ f a s'
  bind-ok {A} m f e = ap (λ (p : Result A × Store V). ok_then p.0 f p.1) e

  abbrev pub pure : {A : Type 0} → A → Action V A
  pure a s = (ok a, s)

  abbrev pub fail : {A : Type 0} → SessionStoreError → Action V A
  fail e s = (err e, s)

  abbrev pub check : Bool → SessionStoreError → Action V (Unit {0})
  check true e s = (ok tt, s)
  check false e s = (err e, s)

  abbrev pub modify : (Store V → Store V) → Action V (Unit {0})
  modify f s = (ok tt, f s)

  unfoldable pub ensure_locked : Io → Str → Action V (Unit {0})
  ensure_locked io sid s = if any (λ l. l == sid) s.locks then (ok tt, s) else take_lock s
    where
      take_lock : Action V (Unit {0})
      take_lock = do
        check io.dir_made create_parent_directory
        check io.lock_opened open_failed
        check io.lock_free locked
        check io.lock_written write
        modify (λ s. record s { locks = sid ∷ s.locks })

  -- The bytes of a session's file; a file that is not there has none.
  abbrev pub file_of : Store V → Str → Str
  file_of s sid = Option.get_or (Map.get s.files sid) []

  append_bytes : Str → Str → Store V → Store V
  append_bytes sid bytes s = record s { files = Map.insert s.files sid (file_of s sid ++ bytes) }

  -- `sessions.entry(sid).or_insert_with(|| SessionTree::from_events(sid, &[]))`
  abbrev pub tree_of : Store V → Str → SessionTree V
  tree_of s sid = Option.get_or (Map.get s.sessions sid) empty_tree

module _ {V : Type 0} (encode : PersistedSessionEvent V → Str)
    (decode_record : Str → Option (PersistedSessionEvent V)) where
  abbrev pub loaded : Str → Loaded (PersistedSessionEvent V) → Action V (Unit {0})
  loaded sid (Loaded.ok events) =
      modify (λ s. record s { sessions = Map.insert s.sessions sid (from_events events) })
  loaded sid read_error = fail read
  loaded sid decode_error = fail decode
  loaded sid out_of_fuel = fail read

  unfoldable pub load_session_if_needed : Str → Action V (Unit {0})
  load_session_if_needed sid s = elim (Map.get s.sessions sid) [
    | some t ↦ (ok tt, s)
    | none ↦ elim (Map.get s.files sid) [
      | none ↦ (ok tt, s)
      | some bytes ↦ loaded sid (load_records decode_record bytes) s
    ]
  ]

  unfoldable pub load_session : Str → Action V (Option (SessionTree V))
  unfolding load_session_if_needed
  load_session sid = do load_session_if_needed sid; λ s. (ok (Map.get s.sessions sid), s)

  append_cbor_record : Io → Str → PersistedSessionEvent V → Action V (Unit {0})
  unfolding append_bytes
  append_cbor_record io sid p s = elim io.appended [
    | whole ↦ (ok tt, append_bytes sid (frame (encode p)) s)
    | not_opened ↦ (err open_failed, s)
    | cut n ↦ (err write, append_bytes sid (take n (frame (encode p))) s)
  ]

  -- `append_session_event_at` once the session is locked and loaded.
  unfoldable pub append_loaded : Io → Str → Option (Option ℕ) → Event V → Action V AppendOutcome
  unfolding append_cbor_record
  append_loaded io sid parent event = do
    check io.dir_made create_parent_directory
    tree ←
        λ s. (ok (tree_of s sid), record s { sessions = Map.insert s.sessions sid (tree_of s sid) })
    append_cbor_record io sid (record_for tree parent event)
    check io.meta_written write
    let folded = apply_event_at tree parent event
    modify (λ s. record s { sessions = Map.insert s.sessions sid (advance_next_event_id folded.0) })
    pure (record { id = tree.next_event_id; folded_node_id = folded.1 })

  unfoldable pub append_session_event_at :
      Io → Str → Option (Option ℕ) → Event V → Action V AppendOutcome
  append_session_event_at io sid parent event = do
    ensure_locked io sid
    load_session_if_needed sid
    append_loaded io sid parent event
