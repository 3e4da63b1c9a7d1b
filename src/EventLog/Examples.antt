-- ===== src/EventLog/Examples.antt =====
-- Tests and instances for the modules of EventLog.
use shlop.Prelude.{◌≡◌, ℕ, none, some, [], ◌∷◌}
use shlop.Prelude.Text.{text}
use shlop.Proto.Category.{EventCategory}
use shlop.Proto.Event.{other}
use shlop.EventLog.Log.{EventLog, new, append, get_next_from}
use shlop.EventLog.Sequence.{Appended, Holds, entry, new-Holds, append-Holds, get_next_from-Holds}

abbrev note : ℕ → Appended ℕ
note at = record {
  recorded_at = at;
  source = none;
  event = other (record { category = EventCategory.harness; call = text "info" });
}

abbrev one : EventLog ℕ
one = (append 70 new (note 70).source (note 70).event).1

one-Holds : Holds one (note 70 ∷ [])
one-Holds = (append-Holds new [] (note 70) new-Holds).1

append-Holds_instance :
    let (stamp, log) = append 80 one (note 80).source (note 80).event in
    (stamp ≡ (1, 80)) × Holds log (note 70 ∷ note 80 ∷ [])
append-Holds_instance = append-Holds one (note 70 ∷ []) (note 80) one-Holds

get_next_from-Holds_example : get_next_from one 0 ≡ some (entry 0 (note 70))
get_next_from-Holds_example = get_next_from-Holds one (note 70 ∷ []) 0 one-Holds
