-- ===== src/Interception/Drain.antt =====
-- The loop of `drain_deferred_publishes`, and `enqueue_publish`, against the abstract queue.
use shlop.Prelude.{
  ◌⊎◌, ◌≡◌, refl, sym, ap, subst, ◌∙◌, ℕ, zero, suc, ◌≤◌, Option-cases, inl, inr, none, some, List,
  [], ◌∷◌, ◌++◌, append_assoc, append-nil, map, arith, length,
}
use shlop.Interception.Publish.{
  DeferredPublish, PendingIntercept, Harness, dispatch_publish_step, drain,
}
use shlop.Interception.Order.{
  ticket, waiting, queued, committed, Settled, Moves, Grows, Grows_refl, Grows-append,
}
use shlop.Interception.Steps.{Put, Puts, dispatch_publish_step-Puts}

module _ {V C : Type 0} where
  pub drain_busy :
      (k : ℕ) (h : Harness V C) (q : PendingIntercept V C)
      → h.pending_intercept ≡ some q
      → drain k h ≡ h
  unfolding drain
  drain_busy zero h q e = refl
  drain_busy (suc k) h q e = ground (arith, e)

  drain_empty :
      (k : ℕ) (h : Harness V C)
      → h.pending_intercept ≡ none
      → h.deferred_publishes ≡ []
      → drain k h ≡ h
  unfolding drain
  drain_empty zero h e d = refl
  drain_empty (suc k) h e d = ground (arith, e, d)

  drain_next :
      (k : ℕ) (h : Harness V C) (p : DeferredPublish V C) (ps : List (DeferredPublish V C))
      → h.pending_intercept ≡ none
      → h.deferred_publishes ≡ p ∷ ps
      → drain (suc k) h
        ≡ drain k (dispatch_publish_step (record h { deferred_publishes = ps }) p none)
  unfolding drain
  drain_next k h p ps e d = ground (arith, e, d)

  pub stays_Moves : (h : Harness V C) → Settled h → Moves h (queued h) h
  unfolding Moves
  stays_Moves h s = (s, ([], (sym (append-nil (committed h)), Grows_refl (queued h))))

  -- A step, and then the loop.
  pub then_drain :
      (k : ℕ) (h : Harness V C) (p : DeferredPublish V C) (h' : Harness V C)
      → Puts h p h'
      → Moves h' (queued h') (drain k h')
      → Moves h (ticket p ∷ map ticket h.deferred_publishes) (drain k h')
  unfolding Moves Puts Put
  then_drain k h p h' (ts, (g, (cs, (c, u, d)))) (s, (cs', (c', g'))) =
      let grown = Grows-append g (Grows_refl (map ticket h.deferred_publishes)) in
      elim (Option-cases h'.pending_intercept) [
        | inr (q, e) ↦
            subst (Moves h (ticket p ∷ map ticket h.deferred_publishes)) (sym (drain_busy k h' q e))
              (
                record { idle = λ o. absurd (ground (arith, e, o)) },
                (
                  cs,
                  (
                    c,
                    subst (Grows (ticket p ∷ map ticket h.deferred_publishes))
                        (ap (λ x. x ++ map ticket h.deferred_publishes) (sym u)
                          ∙ append_assoc cs (waiting h'.pending_intercept)
                              (map ticket h.deferred_publishes)
                          ∙ ap (λ ds. cs ++ (waiting h'.pending_intercept ++ map ticket ds))
                              (sym d))
                        grown,
                  ),
                ),
              )
        | inl e ↦ (
          s,
          (
            cs ++ cs',
            (
              c' ∙ ap (λ x. x ++ cs') c ∙ append_assoc (committed h) cs cs',
              subst (Grows (ticket p ∷ map ticket h.deferred_publishes))
                  (ap (λ x. x ++ (cs' ++ queued (drain k h')))
                      (sym u ∙ ap (λ o. cs ++ waiting o) e ∙ append-nil cs)
                    ∙ sym (append_assoc cs cs' (queued (drain k h'))))
                  (Grows-append g (
                    subst (λ ts. Grows ts (cs' ++ queued (drain k h')))
                      (ap (λ o. waiting o ++ map ticket h'.deferred_publishes) e
                        ∙ ap (map ticket) d)
                      g')),
            ),
          ),
        )
      ]

  Puts-deferred_publishes :
      (h : Harness V C) (p : DeferredPublish V C) (h' : Harness V C)
      → Puts h p h'
      → h'.deferred_publishes ≡ h.deferred_publishes
  unfolding Puts Put
  Puts-deferred_publishes h p h' (ts, (g, (cs, (c, u, d)))) = d

  -- `Moves` reads the commits of its first state alone.
  moved_rest :
      (h : Harness V C) (ps : List (DeferredPublish V C)) (p : DeferredPublish V C)
      (h' : Harness V C)
      → Moves (record h { deferred_publishes = ps }) (ticket p ∷ map ticket ps) h'
      → Moves h (ticket p ∷ map ticket ps) h'
  unfolding Moves
  moved_rest h ps p h' m = m

  List-cases :
      (ps : List (DeferredPublish V C))
      → (ps ≡ [])
        ⊎ ((p : DeferredPublish V C) × ((qs : List (DeferredPublish V C)) × (ps ≡ p ∷ qs)))
  List-cases [] = inl refl
  List-cases (p ∷ ps) = inr (p, (ps, refl))

  none_left : (ps : List (DeferredPublish V C)) → length ps ≤ 0 → ps ≡ []
  none_left [] le = refl
  none_left (p ∷ ps) le = absurd (omega (arith, le))

  -- The loop ends with nothing to do within as many rounds as there are publishes.
  pub drain-Moves :
      (k : ℕ) (h : Harness V C) → length h.deferred_publishes ≤ k → Moves h (queued h) (drain k h)
  unfolding drain
  drain-Moves zero h enough =
      stays_Moves h (record { idle = λ _. none_left h.deferred_publishes enough })
  drain-Moves (suc k) h enough = elim (Option-cases h.pending_intercept) [
    | inr (q, e) ↦
        subst (Moves h (queued h)) (sym (drain_busy (suc k) h q e))
          (stays_Moves h (record { idle = λ o. absurd (ground (arith, e, o)) }))
    | inl e ↦ elim (List-cases h.deferred_publishes) [
      | inl d ↦
          subst (Moves h (queued h)) (sym (drain_empty (suc k) h e d))
            (stays_Moves h (record { idle = λ _. d }))
      | inr (p, (ps, d)) ↦
          (let rest = record h { deferred_publishes = ps } in
            let step = dispatch_publish_step-Puts rest p none e in
            subst (λ ts. Moves h ts (drain (suc k) h))
              (sym (ap (λ o. waiting o ++ map ticket h.deferred_publishes) e ∙ ap (map ticket) d))
              (subst (Moves h (ticket p ∷ map ticket ps)) (sym (drain_next k h p ps e d)) (
                moved_rest h ps p _ (
                  then_drain k rest p (dispatch_publish_step rest p none) step (
                    drain-Moves k (dispatch_publish_step rest p none) (
                      omega (
                        arith,
                        ap length d,
                        ap length (Puts-deferred_publishes rest p _ step),
                      )))))))
    ]
  ]
