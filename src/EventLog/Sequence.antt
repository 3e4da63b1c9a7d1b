-- ===== src/EventLog/Sequence.antt =====
-- The event log as the sequence of what was appended.
use mathlib.Core.Option
use shlop.Prelude.{
  ℕ, zero, suc, ◌+◌, ◌≡◌, refl, ap, ◌∙◌, Option, some, List, [], ◌∷◌, ◌++◌, arith, length,
  get_elem?, length-append,
}
use shlop.Prelude.Text.{Str}
use shlop.Proto.Event.{Event}
use shlop.EventLog.Log.{LogEntry, EventLog, new, tree_insert, tree_from, append, get_next_from}

-- What a caller appends, with the time of the append.
pub record Appended (V : Type 0) : Type 0 where
  pub recorded_at : ℕ
  pub source : Option Str
  pub event : Event V

module _ {V : Type 0} where
  abbrev pub entry : ℕ → Appended V → LogEntry V
  entry n a = record { seq = n; recorded_at = a.recorded_at; source = a.source; event = a.event }

  abbrev pub numbered : ℕ → List (Appended V) → List (ℕ × LogEntry V)
  numbered n [] = []
  numbered n (a ∷ more) = (n, entry n a) ∷ numbered (suc n) more

  -- The log holds just these appends, numbered from zero in their order.
  pub record Holds (log : EventLog V) (appends : List (Appended V)) : Type 0 where
    pub entries : log.entries ≡ numbered 0 appends
    pub next : log.next_seq ≡ length appends

  insert_last :
      (m n : ℕ) (xs : List (Appended V)) (a : Appended V)
      → m ≡ n + length xs
      → tree_insert m (entry m a) (numbered n xs) ≡ numbered n (xs ++ a ∷ [])
  unfolding tree_insert
  insert_last m n [] a h = ap (λ (k : ℕ). (k, entry k a) ∷ []) (omega arith)
  insert_last m n (x ∷ xs) a h = ground (arith, insert_last m (suc n) xs a (omega arith))

  from_number :
      (m n k : ℕ) (xs : List (Appended V))
      → m ≡ n + k
      → tree_from m (numbered n xs) ≡ Option.map (entry m) (get_elem? xs k)
  unfolding tree_from
  from_number m n k [] h = refl
  from_number m n zero (x ∷ xs) h =
      ground (arith, ap (λ (i : ℕ). some (entry i x)) {x = m} {y = n} (omega arith))
  from_number m n (suc k) (x ∷ xs) h = ground (arith, from_number m (suc n) k xs (omega arith))

  -- If a log holds some appends, the next append gets their number as its sequence number and the
  -- clock's answer as its time, and the log then holds it after them.
  pub append-Holds :
      (log : EventLog V) (appends : List (Appended V)) (a : Appended V)
      → Holds log appends
      → let (stamp, log') = append a.recorded_at log a.source a.event in
        (stamp ≡ (length appends, a.recorded_at)) × Holds log' (appends ++ a ∷ [])
  unfolding append
  append-Holds log appends a h = (
    ap (λ (n : ℕ). (n, a.recorded_at)) h.next,
    record {
      entries =
          ap (tree_insert log.next_seq (entry log.next_seq a)) h.entries
          ∙ insert_last log.next_seq 0 appends a (omega (arith, h.next));
      next = omega (arith, h.next, length-append appends (a ∷ []));
    },
  )

  -- If a log holds some appends, a follower that asks from position `from` gets the append of just
  -- that number, and nothing while it has not been appended.
  pub get_next_from-Holds :
      (log : EventLog V) (appends : List (Appended V)) (from : ℕ)
      → Holds log appends
      → get_next_from log from ≡ Option.map (entry from) (get_elem? appends from)
  unfolding get_next_from
  get_next_from-Holds log appends from h =
      ap (tree_from from) h.entries ∙ from_number from 0 from appends (omega arith)

pub new-Holds : {V : Type 0} → Holds {V = V} new []
new-Holds = record { entries = refl; next = refl }
