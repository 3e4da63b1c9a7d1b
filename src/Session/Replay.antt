-- ===== src/Session/Replay.antt =====
-- Replay of the durable log against the tree that was kept while the log was written.
use shlop.Prelude.{
  ℕ, ◌+◌, ◌≡◌, ◌≢◌, refl, ap, sym, ◌∙◌, Option, none, some, List, [], ◌∷◌, ◌++◌, arith,
}
use shlop.Proto.Event.{Event, ui_prompt_submitted, agent_response_finished, ui_navigate_tree}
use shlop.Session.Tree.{
  SessionTree, PersistedSessionEvent, fold_event, apply_event_at, replay_one, replay_all,
  from_events, empty_tree, advance_next_event_id,
}

-- What is left of the tri-state parent on disk: the explicit root reads back as "inherit".
abbrev pub persisted : Option (Option ℕ) → Option (Option ℕ)
persisted (some none) = none
persisted parent = parent

module _ {V : Type 0} where
  fold_event_keeps_next_id :
      (t : SessionTree V) (parent : Option ℕ) (e : Event V)
      → (fold_event t parent e).0.next_event_id ≡ t.next_event_id
  unfolding fold_event
  fold_event_keeps_next_id t parent (ui_prompt_submitted x) = refl
  fold_event_keeps_next_id t parent (agent_response_finished r) = ground arith
  fold_event_keeps_next_id t parent (ui_navigate_tree target) = ground arith
  fold_event_keeps_next_id t parent _ = refl

  -- The record that `append_session_event_at` writes.
  abbrev pub record_for : SessionTree V → Option (Option ℕ) → Event V → PersistedSessionEvent V
  record_for t parent event = record {
    id = t.next_event_id;
    event = event;
    parent_node_id = elim parent [ none ↦ none | some p ↦ p ];
  }

  pub replay_all-append :
      (t : SessionTree V) (ps qs : List (PersistedSessionEvent V))
      → replay_all t (ps ++ qs) ≡ replay_all (replay_all t ps) qs
  unfolding replay_all
  replay_all-append t [] qs = refl
  replay_all-append t (p ∷ ps) qs = replay_all-append (replay_one t p) ps qs

  same_but_next_id :
      (t : SessionTree V) (parent : Option ℕ) (e : Event V)
      → record (fold_event t parent e).0 { next_event_id = t.next_event_id + 1 }
        ≡ advance_next_event_id (fold_event t parent e).0
  unfolding advance_next_event_id
  same_but_next_id t parent e =
      ap (λ (n : ℕ). record (fold_event t parent e).0 { next_event_id = n + 1 })
        (sym (fold_event_keeps_next_id t parent e))

  -- Reading back the record of a publish does to the tree what the publish did, next id included,
  -- but that a publish at the root is read back as one at the tree's head.
  pub replay_one-record_for :
      (t : SessionTree V) (parent : Option (Option ℕ)) (e : Event V)
      → replay_one t (record_for t parent e)
        ≡ advance_next_event_id (apply_event_at t (persisted parent) e).0
  unfolding replay_one apply_event_at
  replay_one-record_for t none e = same_but_next_id t t.head e
  replay_one-record_for t (some none) e = same_but_next_id t t.head e
  replay_one-record_for t (some (some id)) e = same_but_next_id t (some id) e

  pub next_event_id-replay_one :
      (t : SessionTree V) (p : PersistedSessionEvent V) → (replay_one t p).next_event_id ≡ p.id + 1
  unfolding replay_one
  next_event_id-replay_one t p = refl

  pub from_events-push :
      (ps : List (PersistedSessionEvent V)) (p : PersistedSessionEvent V)
      → from_events (ps ++ p ∷ []) ≡ replay_one (from_events ps) p
  unfolding from_events
  from_events-push ps p = replay_all-append empty_tree ps (p ∷ [])

  -- The same for the tree of a whole log that grows by one record.
  pub from_events-append :
      (ps : List (PersistedSessionEvent V)) (parent : Option (Option ℕ)) (e : Event V)
      → from_events (ps ++ record_for (from_events ps) parent e ∷ [])
        ≡ advance_next_event_id (apply_event_at (from_events ps) (persisted parent) e).0
  from_events-append ps parent e =
      from_events-push ps (record_for (from_events ps) parent e)
      ∙ replay_one-record_for (from_events ps) parent e

module _ {V : Type 0} where
  -- Every record that a log gains shows in its fold, if only in the next id.
  pub from_events_moves :
      (ps : List (PersistedSessionEvent V)) (parent : Option (Option ℕ)) (e : Event V)
      → from_events (ps ++ record_for (from_events ps) parent e ∷ []) ≢ from_events ps
  from_events_moves ps parent e h = absurd (omega (arith, grown))
    where
      p : PersistedSessionEvent V
      p = record_for (from_events ps) parent e

      grown : (from_events ps).next_event_id ≡ (from_events ps).next_event_id + 1
      grown =
          ap (λ (t : SessionTree V). t.next_event_id) (sym h ∙ from_events-push ps p)
          ∙ next_event_id-replay_one (from_events ps) p

pub persisted-eq : (parent : Option (Option ℕ)) → parent ≢ some none → persisted parent ≡ parent
persisted-eq none h = refl
persisted-eq (some none) h = absurd (h refl)
persisted-eq (some (some id)) h = refl
