-- ===== src/Agent/Usage.antt =====
-- What the pool of web sockets promises to the turns that use it (`WsPool` of
-- crates/tau-agent/src/responses/pool.rs).
use shlop.Prelude.{
  ℕ, ◌-◌, ◌≤◌, ◌<◌, ◌≡◌, refl, ap, ◌∙◌, inl, inr, Option, none, some, true, false, not, ◌&&◌, List,
  [], ◌∷◌, ◌++◌, if◌then◌else◌, leb, length, Eq, ◌==◌, ==_iff, ==_refl, option_eq, nat_eq, arith,
  Bool-cases,
}
use shlop.Prelude.Map
use shlop.Prelude.Map.{Map}
use shlop.Prelude.Text.{Str, str_eq}
use shlop.Agent.Pool.{
  WsConn, WsPool, without, checkout, evict_lru, contains_key, put_front, release, flush, empty_pool,
  max_of, max_connection_age,
}
use shlop.Agent.Recency.{
  IsUnique, IsInStep, IsPool, evict_lru-last, checkout-IsPool, release-IsPool,
}

-- The pool starts in step.
empty-IsPool :
    (K S : Type 0) ⦃e : Eq K⦄ (requested : Option ℕ) → IsPool {K = K} {S = S} (empty_pool requested)
unfolding IsPool empty_pool max_of IsUnique IsInStep Map.get
empty-IsPool K S none = (tt, (λ j. refl), omega arith, omega arith)
empty-IsPool K S (some n) = (tt, (λ j. refl), omega arith, ground arith)

-- A call of the pool.
pub data Operation (K S : Type 0) : Type 0 where
  checkout_op : ℕ → Str → K → Operation K S
  release_op : K → WsConn S → Operation K S
  flush_op : Operation K S

module _ {K S : Type 0} ⦃e : Eq K⦄ where
  unfoldable pub run_operation : Operation K S → WsPool K S → WsPool K S
  run_operation (checkout_op now bearer key) pool = (checkout now bearer key pool).0
  run_operation (release_op key conn) pool = release key conn pool
  run_operation flush_op pool = flush pool

  unfoldable pub run_operations : List (Operation K S) → WsPool K S → WsPool K S
  run_operations [] pool = pool
  run_operations (o ∷ os) pool = run_operations os (run_operation o pool)

  operation-IsPool :
      (o : Operation K S) (pool : WsPool K S) → IsPool pool → IsPool (run_operation o pool)
  unfolding run_operation IsPool flush IsUnique IsInStep Map.get
  operation-IsPool (checkout_op now bearer key) pool h = checkout-IsPool now bearer key pool h
  operation-IsPool (release_op key conn) pool h = release-IsPool key conn pool h
  operation-IsPool flush_op pool (unique, step, small, some_max) =
      (tt, (λ j. refl), omega arith, some_max)

  operations-IsPool :
      (os : List (Operation K S)) (pool : WsPool K S)
      → IsPool pool
      → IsPool (run_operations os pool)
  unfolding run_operations
  operations-IsPool [] pool h = h
  operations-IsPool (o ∷ os) pool h =
      operations-IsPool os (run_operation o pool) (operation-IsPool o pool h)

  -- However it is used, the pool of web sockets never holds more of them than its limit, which is one
  -- at least; its queue has no key twice, and has exactly the keys that have a socket.
  pub run_operations-IsPool :
      (requested : Option ℕ) (os : List (Operation K S))
      → IsPool (run_operations os (empty_pool requested))
  run_operations-IsPool requested os =
      operations-IsPool os (empty_pool requested) (empty-IsPool K S requested)

  get-put_front :
      (key : K) (conn : WsConn S) (pool : WsPool K S)
      → Map.get (put_front key conn pool).conns key ≡ some conn
  unfolding put_front
  get-put_front key conn pool = Map.get-insert_self pool.conns key conn

  get-release :
      (key : K) (conn : WsConn S) (pool : WsPool K S)
      → Map.get (release key conn pool).conns key ≡ some conn
  unfolding release
  get-release key conn pool =
      elim (Bool-cases (leb pool.max (length pool.conns) && not (contains_key pool key))) [
        | inl at_limit ↦ rw at_limit (get-put_front key conn (evict_lru pool))
        | inr room ↦ rw room (get-put_front key conn pool)
      ]

  -- A checkout for a session directly after the release of a socket for it takes that socket, if its
  -- bearer is the current one and it is not too old; and then the pool has it no more.
  pub checkout-release :
      (now : ℕ) (bearer : Str) (key : K) (conn : WsConn S) (pool : WsPool K S)
      → conn.bearer ≡ bearer
      → now - conn.opened_at < max_connection_age
      → ((checkout now bearer key (release key conn pool)).1 ≡ some conn)
        × (Map.get ((checkout now bearer key (release key conn pool)).0).conns key ≡ none)
  unfolding checkout
  checkout-release now bearer key conn pool same young =
      let current : (conn.bearer == bearer) ≡ true = (==_iff conn.bearer bearer).1 same in
      let fresh : leb max_connection_age (now - conn.opened_at) ≡ false = ground arith in
      rw (checkout, get-release key conn pool, current, fresh)
        (
          refl,
          Map.get-remove ((release key conn pool).conns) key key
              ∙ ap (λ b. if b then none else Map.get ((release key conn pool).conns) key)
                  (==_refl key),
        )

  -- In a pool that is in step and at its limit, a new session's socket takes the place of the one used least recently, the
  -- last of the queue; every other session keeps its socket, and the new one is at the front.
  pub release-evicts :
      (key : K) (conn : WsConn S) (pool : WsPool K S)
      → IsPool pool
      → pool.max ≤ length pool.conns
      → Map.get pool.conns key ≡ none
      → (init : List K) × ((oldest : K) × ((pool.lru ≡ init ++ oldest ∷ [])
            × ((release key conn pool).lru ≡ key ∷ without key init)
            × ((j : K)
                → Map.get (release key conn pool).conns j ≡ (
                    if key == j
                    then some conn
                    else if oldest == j
                    then none
                    else Map.get pool.conns j))))
  unfolding release IsPool put_front contains_key
  release-evicts key conn pool h at_limit absent =
      let (init, (k, (same, gone, live, less, unique_init, step_init))) =
        evict_lru-last pool h (omega (arith, h.3)) in
      let busy : (leb pool.max (length pool.conns) && not (contains_key pool key)) ≡ true =
        ground (arith, absent) in
      (
        init,
        (
          k,
          (
            same,
            rw (busy, gone) refl,
            λ j.
                rw (busy, gone)
                  (Map.get-insert (Map.remove pool.conns k) key conn j
                    ∙ ap (λ o. if key == j then some conn else o) (Map.get-remove pool.conns k j)),
          ),
        ),
      )
