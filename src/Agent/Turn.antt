-- ===== src/Agent/Turn.antt =====
-- A turn through the pool of web sockets (`run_turn_through_pool` and `run_prewarm_through_pool` of
-- crates/tau-agent/src/responses/pool.rs, `is_account_limit_body` of crates/tau-agent/src/common.rs).
-- The socket's own calls are parameters, on a state `W` of the world.
use shlop.Prelude.{
  ℕ, ◌+◌, Option, none, some, Bool, true, false, not, ◌&&◌, ◌||◌, [], ◌∷◌, if◌then◌else◌, Eq, eqb,
}
use shlop.Prelude.Text.{Str, text, starts_with}
use shlop.Agent.Pool.{WsConn, WsPool, checkout, release}

-- The errors that carry no more than their text.
pub data LlmError : Type 0 where
  http_error io_error json_error : Str → LlmError
  http_status : ℕ → Str → LlmError

pub data Turned (A : Type 0) : Type 0 where
  done : A → Turned A
  broken : LlmError → Turned A

-- `Result<StreamState, WsTurnError>`
pub data TurnResult (A : Type 0) : Type 0 where
  answered : A → TurnResult A
  http_fallback_recommended : LlmError → TurnResult A
  other : LlmError → TurnResult A

-- `into_llm_error`, over the result.
unfoldable pub into_llm_error : {A : Type 0} → TurnResult A → Turned A
into_llm_error (answered a) = done a
into_llm_error (http_fallback_recommended e) = broken e
into_llm_error (other e) = broken e

-- `body.contains(part)`
unfoldable pub contains : Str → Str → Bool
contains [] part = starts_with [] part
contains (c ∷ s) part = let later = contains s part in starts_with (c ∷ s) part || later

unfoldable pub is_account_limit_body : Str → Bool
is_account_limit_body body =
    contains body (text "(type=usage_limit_reached)")
    || contains body (text "(type=rate_limit_exceeded)")
    || contains body (text "(type=quota_exceeded)")
    || contains body (text "(type=billing_hard_limit_reached)")
    || contains body (text "(type=insufficient_quota)")

unfoldable pub is_recoverable_ws_error : LlmError → Bool
is_recoverable_ws_error (http_status code body) =
    eqb code 0 && starts_with body (text "stream error:") && not (is_account_limit_body body)
is_recoverable_ws_error e = false

-- `PromptPayload`: `rest` stands for the fields that the pool hands on.
pub record PromptPayload (P B : Type 0) : Type 0 where
  pub previous_response : Option P
  pub rest : B

unfoldable pub without_previous_response : {P B : Type 0} → PromptPayload P B → PromptPayload P B
without_previous_response request = record request { previous_response = none }

-- `WsConn::connect`, `WsConn::run_turn` and `WsConn::run_prewarm`: a call changes the socket.
pub record Sockets (W S P B A : Type 0) : Type 0 where
  pub connect : W → W × Turned (WsConn S)
  pub run_turn : W → WsConn S → PromptPayload P B → W × WsConn S × Turned A
  pub run_prewarm : W → WsConn S → PromptPayload P B → W × WsConn S × Turned A

abbrev pub is_set : {A : Type 0} → Option A → Bool
is_set none = false
is_set (some a) = true

module _ {K S : Type 0} where
  abbrev pub count_upgrade : WsPool K S → WsPool K S
  count_upgrade pool = record pool {
    stats = record pool.stats { upgrades = pool.stats.upgrades + 1 };
  }

  abbrev pub count_reconnect : WsPool K S → WsPool K S
  count_reconnect pool = record pool {
    stats = record pool.stats { silent_reconnects = pool.stats.silent_reconnects + 1 };
  }

  abbrev pub count_strip : WsPool K S → WsPool K S
  count_strip pool = record pool {
    stats = record pool.stats { chain_strips_on_fresh = pool.stats.chain_strips_on_fresh + 1 };
  }

module _ {K S W P B A : Type 0} ⦃e : Eq K⦄ (sockets : Sockets W S P B A) (key : K) where
  abbrev pub after_fresh : WsPool K S → W × WsConn S × Turned A → W × WsPool K S × TurnResult A
  after_fresh pool (w, conn, done a) = (w, release key conn pool, answered a)
  after_fresh pool (w, conn, broken e) = (w, pool, other e)

  abbrev pub on_fresh :
      PromptPayload P B → WsPool K S → W × Turned (WsConn S) → W × WsPool K S × TurnResult A
  on_fresh request pool (w, broken e) = (w, pool, other e)
  on_fresh request pool (w, done conn) =
      let upgraded = count_upgrade pool in
      after_fresh (if is_set request.previous_response then count_strip upgraded else upgraded)
        (sockets.run_turn w conn (without_previous_response request))

  -- The path of the fresh socket.
  unfoldable pub fresh_turn : PromptPayload P B → W → WsPool K S → W × WsPool K S × TurnResult A
  fresh_turn request w pool =
      if is_set request.previous_response
      then (
        w,
        pool,
        http_fallback_recommended (http_status 0 (text "stream error: Codex WS chain unavailable")),
      )
      else on_fresh request pool (sockets.connect w)

  abbrev pub after_warm :
      PromptPayload P B → WsPool K S → W × WsConn S × Turned A → W × WsPool K S × TurnResult A
  after_warm request pool (w, conn, done a) = (w, release key conn pool, answered a)
  after_warm request pool (w, conn, broken e) =
      if not (is_recoverable_ws_error e)
      then (w, pool, other e)
      else if is_set request.previous_response
      then (w, count_reconnect pool, http_fallback_recommended e)
      else fresh_turn request w (count_reconnect pool)

  abbrev pub with_checkout :
      PromptPayload P B → W → WsPool K S × Option (WsConn S) → W × WsPool K S × TurnResult A
  with_checkout request w (pool, none) = fresh_turn request w pool
  with_checkout request w (pool, some conn) =
      after_warm request pool (sockets.run_turn w conn request)

  unfoldable pub run_turn_through_pool :
      ℕ → Str → PromptPayload P B → W → WsPool K S → W × WsPool K S × TurnResult A
  run_turn_through_pool now api_key request w pool =
      with_checkout request w (checkout now api_key key pool)

  abbrev pub after_fresh_prewarm : WsPool K S → W × WsConn S × Turned A → W × WsPool K S × Turned A
  after_fresh_prewarm pool (w, conn, done a) = (w, release key conn pool, done a)
  after_fresh_prewarm pool (w, conn, broken e) = (w, pool, broken e)

  abbrev pub on_fresh_prewarm :
      PromptPayload P B → WsPool K S → W × Turned (WsConn S) → W × WsPool K S × Turned A
  on_fresh_prewarm request pool (w, broken e) = (w, pool, broken e)
  on_fresh_prewarm request pool (w, done conn) =
      after_fresh_prewarm (count_upgrade pool) (sockets.run_prewarm w conn request)

  unfoldable pub fresh_prewarm : PromptPayload P B → W → WsPool K S → W × WsPool K S × Turned A
  fresh_prewarm request w pool = on_fresh_prewarm request pool (sockets.connect w)

  abbrev pub after_warm_prewarm :
      PromptPayload P B → WsPool K S → W × WsConn S × Turned A → W × WsPool K S × Turned A
  after_warm_prewarm request pool (w, conn, done a) = (w, release key conn pool, done a)
  after_warm_prewarm request pool (w, conn, broken e) =
      if is_recoverable_ws_error e
      then fresh_prewarm request w (count_reconnect pool)
      else (w, pool, broken e)

  abbrev pub prewarm_checkout :
      PromptPayload P B → W → WsPool K S × Option (WsConn S) → W × WsPool K S × Turned A
  prewarm_checkout request w (pool, none) = fresh_prewarm request w pool
  prewarm_checkout request w (pool, some conn) =
      after_warm_prewarm request pool (sockets.run_prewarm w conn request)

  unfoldable pub run_prewarm_through_pool :
      ℕ → Str → PromptPayload P B → W → WsPool K S → W × WsPool K S × Turned A
  run_prewarm_through_pool now api_key request w pool =
      prewarm_checkout request w (checkout now api_key key pool)
