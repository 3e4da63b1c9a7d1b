-- ===== src/Store/Examples.antt =====
-- Tests and instances for the modules of Store. The encoding here covers the records of submitted
-- prompts, with payloads `ℕ`: the id, the parent, the text.
use shlop.Prelude.{
  ◌≡◌, ◌≢◌, refl, ap, ℕ, zero, suc, true, false, Option, none, some, [], ◌∷◌, ◌++◌, arith, length,
}
use shlop.Prelude.Text.{Str, text, str_eq}
use shlop.Prelude.Map
use shlop.Proto.Event.{Event, ui_prompt_submitted}
use shlop.Session.Tree.{PersistedSessionEvent, from_events, apply_event_at}
use shlop.Session.Replay.{record_for}
use shlop.Store.Framing.{
  ok, read_error, max_record_bytes, frame, frames, le_bytes, le_value, load_records,
  le_value-le_bytes,
}
use shlop.Store.Termination.{ran_out, load_records_total}
use shlop.Store.Loading.{Fits, load_records-frames, load_records-oversized}
use shlop.Store.Append.{Result, Io, Store, whole, err, write, file_of, append_session_event_at}
use shlop.Store.Recovery.{Passes, Synced, append_session_event_at-Synced}
use shlop.Store.Drift.{append_session_event_at_drift}

abbrev Record : Type 0
Record = PersistedSessionEvent ℕ

abbrev parent_byte : Option ℕ → ℕ
parent_byte none = 0
parent_byte (some p) = suc p

abbrev prompt_of : Event ℕ → Str
prompt_of (ui_prompt_submitted s) = s
prompt_of _ = []

abbrev encode : Record → Str
encode p = p.id ∷ parent_byte p.parent_node_id ∷ prompt_of p.event

abbrev decode : Str → Option Record
decode (i ∷ zero ∷ s) =
    some (record { id = i; event = ui_prompt_submitted s; parent_node_id = none })
decode (i ∷ suc p ∷ s) =
    some (record { id = i; event = ui_prompt_submitted s; parent_node_id = some p })
decode _ = none

abbrev hi : Event ℕ
hi = ui_prompt_submitted (text "hi")

abbrev first_record : Record
first_record = record { id = 0; event = hi; parent_node_id = none }

abbrev works : Io
works = record {
  dir_made = true;
  lock_opened = true;
  lock_free = true;
  lock_written = true;
  appended = whole;
  meta_written = true;
}

abbrev meta_fails : Io
meta_fails = record works { meta_written = false }

works-Passes : Passes works
works-Passes = record { dir = refl; opened = refl; free = refl; lock = refl; appended = refl }

meta_fails-Passes : Passes meta_fails
meta_fails-Passes = record { dir = refl; opened = refl; free = refl; lock = refl; appended = refl }

abbrev sid : Str
sid = text "s"

abbrev on_disk : Store ℕ
on_disk = record {
  sessions = [];
  locks = [];
  files = (sid, frames encode (first_record ∷ [])) ∷ [];
}

first_record-Fits : Fits encode decode first_record
first_record-Fits = (refl, omega arith)

on_disk-Synced : Synced encode decode on_disk sid (first_record ∷ [])
unfolding Map.get
on_disk-Synced = record {
  file = refl;
  fits = (first_record-Fits, tt);
  cached = λ t e. ground arith;
}

le_value-le_bytes_instance : le_value (le_bytes 8 70000) ≡ 70000
le_value-le_bytes_instance = le_value-le_bytes 8 70000 (omega arith)

load_records-frames_example :
    load_records decode (frames encode (first_record ∷ []) ++ 7 ∷ 0 ∷ []) ≡ ok (first_record ∷ [])
load_records-frames_example =
    load_records-frames encode decode (first_record ∷ []) (7 ∷ 0 ∷ []) (first_record-Fits, tt)
      (omega arith)

unfoldable zeros : ℕ → Str
zeros zero = []
zeros (suc n) = 0 ∷ zeros n

length-zeros : (n : ℕ) → length (zeros n) ≡ n
unfolding zeros
length-zeros zero = refl
length-zeros (suc n) = ap suc (length-zeros n)

load_records-oversized_instance :
    load_records decode
      (frames encode (first_record ∷ []) ++ (frame (zeros (suc max_record_bytes)) ++ []))
    ≡ read_error
load_records-oversized_instance =
    load_records-oversized encode decode (first_record ∷ []) (zeros (suc max_record_bytes)) []
      (first_record-Fits, tt) (omega (arith, length-zeros (suc max_record_bytes)))
      (omega (arith, length-zeros (suc max_record_bytes)))

-- The second record: a prompt whose parent is the first node.
abbrev second_record : Record
second_record = record_for (from_events (first_record ∷ [])) (some (some 0)) hi

second_record-Fits : Fits encode decode second_record
unfolding from_events
second_record-Fits = (refl, omega arith)

append_session_event_at-Synced_example :
    let (r, s') = append_session_event_at encode decode works sid (some (some 0)) hi on_disk in
    (r
      ≡ Result.ok (record {
        id = (from_events (first_record ∷ [])).next_event_id;
        folded_node_id = (apply_event_at (from_events (first_record ∷ [])) (some (some 0)) hi).1;
      }))
    × Synced encode decode s' sid (first_record ∷ second_record ∷ [])
append_session_event_at-Synced_example =
    append_session_event_at-Synced encode decode works sid (some (some 0)) hi on_disk
      (first_record ∷ []) works-Passes refl on_disk-Synced root_differs second_record-Fits
  where
    root_differs : (◌≢◌ {A = Option (Option ℕ)} (some (some 0)) (some none))
    root_differs h = ground arith

append_session_event_at_drift_example :
    let (r, s') = append_session_event_at encode decode meta_fails sid (some (some 0)) hi on_disk in
    let rs' = first_record ∷ second_record ∷ [] in
    (r ≡ err write)
    × (file_of s' sid ≡ frames encode rs')
    × (Map.get s'.sessions sid ≡ some (from_events (first_record ∷ [])))
    × (from_events rs' ≢ from_events (first_record ∷ []))
append_session_event_at_drift_example =
    append_session_event_at_drift encode decode meta_fails sid (some (some 0)) hi on_disk
      (first_record ∷ []) meta_fails-Passes refl on_disk-Synced

load_records_total_instance :
    ran_out (load_records decode (1 ∷ 0 ∷ 0 ∷ 0 ∷ 0 ∷ 0 ∷ 0 ∷ 0 ∷ [])) ≡ false
load_records_total_instance = load_records_total decode (1 ∷ 0 ∷ 0 ∷ 0 ∷ 0 ∷ 0 ∷ 0 ∷ 0 ∷ [])
