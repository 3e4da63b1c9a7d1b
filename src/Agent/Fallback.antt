-- ===== src/Agent/Fallback.antt =====
-- What a turn through the pool of web sockets does when a socket fails
-- (crates/tau-agent/src/responses/pool.rs).
use shlop.Prelude.{
  ℕ, ◌-◌, ◌≡◌, refl, ◌∙◌, inl, inr, Option, none, some, true, false, not, ◌&&◌, Eq, ◌==◌,
  Bool-cases, Option-cases, length, leb,
}
use shlop.Prelude.Map
use shlop.Prelude.Text.{Str, str_eq}
use shlop.Agent.Pool.{
  WsConn, WsPool, checkout, release, contains_key, put_front, evict_lru, purge_key,
  max_connection_age,
}
use shlop.Agent.Recency.{IsPool, checkout-IsPool, release-IsPool}
use shlop.Agent.Turn.{
  Turned, done, broken, is_recoverable_ws_error, PromptPayload, without_previous_response, Sockets,
  is_set, fresh_turn, after_fresh, on_fresh, after_warm, with_checkout, run_turn_through_pool,
  after_fresh_prewarm, on_fresh_prewarm, fresh_prewarm, after_warm_prewarm, prewarm_checkout,
  run_prewarm_through_pool, count_upgrade, count_reconnect,
}

module _ {K S : Type 0} ⦃e : Eq K⦄ where
  abbrev strips : WsPool K S → ℕ
  strips pool = pool.stats.chain_strips_on_fresh

  checkout-strips :
      (now : ℕ) (bearer : Str) (key : K) (pool : WsPool K S)
      → strips ((checkout now bearer key pool).0) ≡ strips pool
  unfolding checkout purge_key
  checkout-strips now bearer key pool = elim (Option-cases (Map.get pool.conns key)) [
    | inl e ↦ rw (checkout, e) refl
    | inr (conn, e) ↦ elim (Bool-cases (conn.bearer == bearer)) [
      | inr rotated ↦ rw (checkout, e, rotated) refl
      | inl same ↦ elim (Bool-cases (leb max_connection_age (now - conn.opened_at))) [
        | inl old ↦ rw (checkout, e, same, old) refl
        | inr young ↦ rw (checkout, e, same, young) refl
      ]
    ]
  ]

  release-strips :
      (key : K) (conn : WsConn S) (pool : WsPool K S) → strips (release key conn pool) ≡ strips pool
  unfolding release put_front evict_lru
  release-strips key conn pool =
      elim (Bool-cases (leb pool.max (length pool.conns) && not (contains_key pool key))) [
        | inl at_limit ↦ rw at_limit refl
        | inr room ↦ rw room refl
      ]

  -- A pool in step, whose count of stripped chain ids is `n`.
  unfoldable pub IsSound : ℕ → WsPool K S → Type 0
  IsSound n pool = IsPool pool × (strips pool ≡ n)

  checkout-IsSound :
      (n now : ℕ) (bearer : Str) (key : K) (pool : WsPool K S)
      → IsSound n pool
      → IsSound n ((checkout now bearer key pool).0)
  unfolding IsSound
  checkout-IsSound n now bearer key pool (h, same) =
      (checkout-IsPool now bearer key pool h, checkout-strips now bearer key pool ∙ same)

  release-IsSound :
      (n : ℕ) (key : K) (conn : WsConn S) (pool : WsPool K S)
      → IsSound n pool
      → IsSound n (release key conn pool)
  unfolding IsSound
  release-IsSound n key conn pool (h, same) =
      (release-IsPool key conn pool h, release-strips key conn pool ∙ same)

module _ {W S P B A : Type 0} (sockets : Sockets W S P B A) where
  -- The same sockets, opened in another way.
  abbrev pub reconnected : (W → W × Turned (WsConn S)) → Sockets W S P B A
  reconnected connect = record sockets { connect = connect }

module _ {K S W P B A : Type 0} ⦃e : Eq K⦄ (sockets : Sockets W S P B A) (key : K) where
  after_fresh-IsSound :
      (n : ℕ) (pool : WsPool K S) (r : W × WsConn S × Turned A)
      → IsSound n pool
      → IsSound n ((after_fresh sockets key pool r).1)
  after_fresh-IsSound n pool (w, conn, done a) h = release-IsSound n key conn pool h
  after_fresh-IsSound n pool (w, conn, broken why) h = h

  on_fresh-IsSound :
      (n : ℕ) (request : PromptPayload P B) (pool : WsPool K S) (r : W × Turned (WsConn S))
      → is_set request.previous_response ≡ false
      → IsSound n pool
      → IsSound n ((on_fresh sockets key request pool r).1)
  unfolding IsSound IsPool
  on_fresh-IsSound n request pool (w, broken why) free h = h
  on_fresh-IsSound n request pool (w, done conn) free h = rw free (
      after_fresh-IsSound n (count_upgrade pool)
        (sockets.run_turn w conn (without_previous_response request)) h)

  fresh_turn-IsSound :
      (n : ℕ) (request : PromptPayload P B) (w : W) (pool : WsPool K S)
      → IsSound n pool
      → IsSound n ((fresh_turn sockets key request w pool).1)
  unfolding fresh_turn
  fresh_turn-IsSound n request w pool h = elim (Bool-cases (is_set request.previous_response)) [
    | inl chained ↦ rw chained h
    | inr free ↦ rw free (on_fresh-IsSound n request pool (sockets.connect w) free h)
  ]

  after_warm-IsSound :
      (n : ℕ) (request : PromptPayload P B) (pool : WsPool K S) (r : W × WsConn S × Turned A)
      → IsSound n pool
      → IsSound n ((after_warm sockets key request pool r).1)
  unfolding IsSound IsPool
  after_warm-IsSound n request pool (w, conn, done a) h = release-IsSound n key conn pool h
  after_warm-IsSound n request pool (w, conn, broken why) h =
      elim (Bool-cases (is_recoverable_ws_error why)) [
        | inr fatal ↦ rw fatal h
        | inl lost ↦ elim (Bool-cases (is_set request.previous_response)) [
          | inl chained ↦ rw (lost, chained) h
          | inr free ↦ rw (lost, free) (fresh_turn-IsSound n request w (count_reconnect pool) h)
        ]
      ]

  with_checkout-IsSound :
      (n : ℕ) (request : PromptPayload P B) (w : W) (r : WsPool K S × Option (WsConn S))
      → IsSound n r.0
      → IsSound n ((with_checkout sockets key request w r).1)
  with_checkout-IsSound n request w (pool, none) h = fresh_turn-IsSound n request w pool h
  with_checkout-IsSound n request w (pool, some conn) h =
      after_warm-IsSound n request pool (sockets.run_turn w conn request) h

  -- Whatever the sockets do, a turn leaves the pool in step and within its limit, and it never counts
  -- a chain id that was stripped from a request.
  pub run_turn_through_pool-IsSound :
      (now : ℕ) (api_key : Str) (request : PromptPayload P B) (w : W) (pool : WsPool K S) (n : ℕ)
      → IsSound n pool
      → IsSound n ((run_turn_through_pool sockets key now api_key request w pool).1)
  unfolding run_turn_through_pool
  run_turn_through_pool-IsSound now api_key request w pool n h =
      with_checkout-IsSound n request w (checkout now api_key key pool)
        (checkout-IsSound n now api_key key pool h)

  fresh-no_socket :
      (connect : W → W × Turned (WsConn S)) (request : PromptPayload P B) (w : W)
      (pool : WsPool K S)
      → is_set request.previous_response ≡ true
      → fresh_turn (reconnected sockets connect) key request w pool
        ≡ fresh_turn sockets key request w pool
  unfolding fresh_turn
  fresh-no_socket connect request w pool chained = rw chained refl

  warm-no_socket :
      (connect : W → W × Turned (WsConn S)) (request : PromptPayload P B) (pool : WsPool K S)
      (r : W × WsConn S × Turned A)
      → is_set request.previous_response ≡ true
      → after_warm (reconnected sockets connect) key request pool r
        ≡ after_warm sockets key request pool r
  warm-no_socket connect request pool (w, conn, done a) chained = refl
  warm-no_socket connect request pool (w, conn, broken why) chained =
      rw (fresh-no_socket connect request w (count_reconnect pool) chained) refl

  checkout-no_socket :
      (connect : W → W × Turned (WsConn S)) (request : PromptPayload P B) (w : W)
      (r : WsPool K S × Option (WsConn S))
      → is_set request.previous_response ≡ true
      → with_checkout (reconnected sockets connect) key request w r
        ≡ with_checkout sockets key request w r
  checkout-no_socket connect request w (pool, none) chained =
      fresh-no_socket connect request w pool chained
  checkout-no_socket connect request w (pool, some conn) chained =
      warm-no_socket connect request pool (sockets.run_turn w conn request) chained

  -- A turn that goes on from a previous response never opens a socket, on which the server would not
  -- know that response: its result and its effects do not depend on how sockets are opened.
  pub run_turn_through_pool-no_socket :
      (connect : W → W × Turned (WsConn S)) (now : ℕ) (api_key : Str) (request : PromptPayload P B)
      (w : W) (pool : WsPool K S)
      → is_set request.previous_response ≡ true
      → run_turn_through_pool (reconnected sockets connect) key now api_key request w pool
        ≡ run_turn_through_pool sockets key now api_key request w pool
  unfolding run_turn_through_pool
  run_turn_through_pool-no_socket connect now api_key request w pool chained =
      checkout-no_socket connect request w (checkout now api_key key pool) chained

  after_fresh_prewarm-IsSound :
      (n : ℕ) (pool : WsPool K S) (r : W × WsConn S × Turned A)
      → IsSound n pool
      → IsSound n ((after_fresh_prewarm sockets key pool r).1)
  after_fresh_prewarm-IsSound n pool (w, conn, done a) h = release-IsSound n key conn pool h
  after_fresh_prewarm-IsSound n pool (w, conn, broken why) h = h

  on_fresh_prewarm-IsSound :
      (n : ℕ) (request : PromptPayload P B) (pool : WsPool K S) (r : W × Turned (WsConn S))
      → IsSound n pool
      → IsSound n ((on_fresh_prewarm sockets key request pool r).1)
  unfolding IsSound IsPool
  on_fresh_prewarm-IsSound n request pool (w, broken why) h = h
  on_fresh_prewarm-IsSound n request pool (w, done conn) h =
      after_fresh_prewarm-IsSound n (count_upgrade pool) (sockets.run_prewarm w conn request) h

  fresh_prewarm-IsSound :
      (n : ℕ) (request : PromptPayload P B) (w : W) (pool : WsPool K S)
      → IsSound n pool
      → IsSound n ((fresh_prewarm sockets key request w pool).1)
  unfolding fresh_prewarm
  fresh_prewarm-IsSound n request w pool h =
      on_fresh_prewarm-IsSound n request pool (sockets.connect w) h

  after_warm_prewarm-IsSound :
      (n : ℕ) (request : PromptPayload P B) (pool : WsPool K S) (r : W × WsConn S × Turned A)
      → IsSound n pool
      → IsSound n ((after_warm_prewarm sockets key request pool r).1)
  unfolding IsSound IsPool
  after_warm_prewarm-IsSound n request pool (w, conn, done a) h = release-IsSound n key conn pool h
  after_warm_prewarm-IsSound n request pool (w, conn, broken why) h =
      elim (Bool-cases (is_recoverable_ws_error why)) [
        | inr fatal ↦ rw fatal h
        | inl lost ↦ rw lost (fresh_prewarm-IsSound n request w (count_reconnect pool) h)
      ]

  prewarm_checkout-IsSound :
      (n : ℕ) (request : PromptPayload P B) (w : W) (r : WsPool K S × Option (WsConn S))
      → IsSound n r.0
      → IsSound n ((prewarm_checkout sockets key request w r).1)
  prewarm_checkout-IsSound n request w (pool, none) h = fresh_prewarm-IsSound n request w pool h
  prewarm_checkout-IsSound n request w (pool, some conn) h =
      after_warm_prewarm-IsSound n request pool (sockets.run_prewarm w conn request) h

  -- Whatever the sockets do, a prewarm leaves the pool in step and within its limit, and it never
  -- counts a chain id that was stripped from a request.
  pub run_prewarm_through_pool-IsSound :
      (now : ℕ) (api_key : Str) (request : PromptPayload P B) (w : W) (pool : WsPool K S) (n : ℕ)
      → IsSound n pool
      → IsSound n ((run_prewarm_through_pool sockets key now api_key request w pool).1)
  unfolding run_prewarm_through_pool
  run_prewarm_through_pool-IsSound now api_key request w pool n h =
      prewarm_checkout-IsSound n request w (checkout now api_key key pool)
        (checkout-IsSound n now api_key key pool h)
