-- ===== src/EventLog/Log.antt =====
-- `EventLog` (crates/tau-harness/src/event_log.rs). The `BTreeMap` of entries is its pairs in
-- ascending order of keys; the mutex makes each operation one step. The clock's answer is an
-- argument. Sequence numbers, `u64` in the source, do not wrap around here.
use shlop.Prelude.{ℕ, ◌+◌, Option, none, some, List, [], ◌∷◌, if◌then◌else◌, ltb, leb, eqb}
use shlop.Prelude.Text.{Str}
use shlop.Proto.Event.{Event}

pub record LogEntry (V : Type 0) : Type 0 where
  pub seq : ℕ
  pub recorded_at : ℕ
  pub source : Option Str
  pub event : Event V

pub record EventLog (V : Type 0) : Type 0 where
  pub entries : List (ℕ × LogEntry V)
  pub next_seq : ℕ

abbrev pub new : {V : Type 0} → EventLog V
new = record { entries = []; next_seq = 0 }

module _ {V : Type 0} where
  -- `BTreeMap::insert`
  unfoldable pub tree_insert : ℕ → LogEntry V → List (ℕ × LogEntry V) → List (ℕ × LogEntry V)
  tree_insert k e [] = (k, e) ∷ []
  tree_insert k e ((j, x) ∷ m) =
      let rest = (j, x) ∷ tree_insert k e m in
      if ltb k j then (k, e) ∷ (j, x) ∷ m else if eqb k j then (k, e) ∷ m else rest

  -- `range(from..).next()`
  unfoldable pub tree_from : ℕ → List (ℕ × LogEntry V) → Option (LogEntry V)
  tree_from from [] = none
  tree_from from ((j, x) ∷ m) = let rest = tree_from from m in if leb from j then some x else rest

  unfoldable pub append : ℕ → EventLog V → Option Str → Event V → (ℕ × ℕ) × EventLog V
  unfolding tree_insert
  append now log source event =
      let seq = log.next_seq in
      (
        (seq, now),
        record {
          next_seq = seq + 1;
          entries =
              tree_insert seq
                (record { seq = seq; recorded_at = now; source = source; event = event })
                log.entries;
        },
      )

  unfoldable pub get_next_from : EventLog V → ℕ → Option (LogEntry V)
  unfolding tree_from
  get_next_from log from = tree_from from log.entries
