-- ===== src/Agent/Pool.antt =====
-- The pool of web sockets (`WsPool` of crates/tau-agent/src/responses/pool.rs). A socket is a
-- parameter, but for its bearer and the second it was opened in.
use shlop.Prelude.{
  ℕ, ◌-◌, ◌*◌, Option, none, some, Bool, true, false, not, ◌&&◌, List, [], ◌∷◌, if◌then◌else◌, leb,
  length, retain, Eq, ◌==◌, option_eq, nat_eq,
}
use shlop.Prelude.Map
use shlop.Prelude.Map.{Map}
use shlop.Prelude.Text.{Str, str_eq}

pub record PoolKey : Type 0 where
  pub base_url : Str
  pub account_id : Option Str
  pub session_id : Str

-- What the pool reads of a socket; `session` stands for the rest of it.
pub record WsConn (S : Type 0) : Type 0 where
  pub bearer : Str
  pub opened_at : ℕ
  pub session : S

pub record WsPoolStats : Type 0 where
  pub upgrades : ℕ
  pub silent_reconnects : ℕ
  pub chain_strips_on_fresh : ℕ

-- `K` is `PoolKey`, with its derived equality.
pub record WsPool (K S : Type 0) : Type 0 where
  pub conns : Map K (WsConn S)
  -- The front is the most recent.
  pub lru : List K
  pub max : ℕ
  pub stats : WsPoolStats

-- `MAX_CONNECTION_AGE`, in seconds, and `DEFAULT_POOL_MAX`
abbrev pub max_connection_age : ℕ
max_connection_age = 55 * 60

abbrev pub default_pool_max : ℕ
default_pool_max = 10

-- `requested` is the number in the environment, where it parses.
unfoldable pub max_of : Option ℕ → ℕ
max_of none = default_pool_max
max_of (some n) = if leb 1 n then n else default_pool_max

abbrev pub without : {K : Type 0} ⦃e : Eq K⦄ → K → List K → List K
without key = retain (λ k. not (k == key))

-- The result of the loop of `evict_lru`: the sockets, the queue, and whether one was dropped.
pub record Evicted (K S : Type 0) : Type 0 where
  pub left : Map K (WsConn S)
  pub queue : List K
  pub dropped : Bool

module _ {K S : Type 0} ⦃e : Eq K⦄ where
  unfoldable pub empty_pool : Option ℕ → WsPool K S
  empty_pool requested = record {
    conns = [];
    lru = [];
    max = max_of requested;
    stats = record { upgrades = 0; silent_reconnects = 0; chain_strips_on_fresh = 0 };
  }

  abbrev pub set_lru : List K → WsPool K S → WsPool K S
  set_lru ks pool = record pool { lru = ks }

  abbrev pub remove_conn : K → WsPool K S → WsPool K S
  remove_conn key pool = record pool { conns = Map.remove pool.conns key }

  unfoldable pub purge_key : K → WsPool K S → WsPool K S
  purge_key key pool = set_lru (without key pool.lru) (remove_conn key pool)

  -- A socket of another bearer, or of an age that the server will close, is dropped.
  unfoldable pub checkout : ℕ → Str → K → WsPool K S → WsPool K S × Option (WsConn S)
  checkout now current_bearer key pool = elim (Map.get pool.conns key) [
    | none ↦ (pool, none)
    | some conn ↦
        if not (conn.bearer == current_bearer)
        then (purge_key key (remove_conn key pool), none)
        else if leb max_connection_age (now - conn.opened_at)
        then (purge_key key (remove_conn key pool), none)
        else (set_lru (without key pool.lru) (remove_conn key pool), some conn)
  ]

  -- A key off the back of the queue, when all keys behind it are gone.
  unfoldable pub evict_key : K → Evicted K S → Evicted K S
  evict_key k ev =
      if ev.dropped then record ev { queue = k ∷ ev.queue } else elim (Map.get ev.left k) [
        | none ↦ ev
        | some conn ↦ record ev { left = Map.remove ev.left k; dropped = true }
      ]

  -- The loop of `evict_lru`: it takes keys off the back until one has a socket.
  unfoldable pub evict_back : Map K (WsConn S) → List K → Evicted K S
  evict_back m [] = record { left = m; queue = []; dropped = false }
  evict_back m (k ∷ ks) = evict_key k (evict_back m ks)

  unfoldable pub evict_lru : WsPool K S → WsPool K S
  evict_lru pool =
      let ev = evict_back pool.conns pool.lru in record pool { conns = ev.left; lru = ev.queue }

  unfoldable pub contains_key : WsPool K S → K → Bool
  contains_key pool key = elim (Map.get pool.conns key) [ none ↦ false | some conn ↦ true ]

  unfoldable pub put_front : K → WsConn S → WsPool K S → WsPool K S
  put_front key conn pool = record pool {
    conns = Map.insert pool.conns key conn;
    lru = key ∷ without key pool.lru;
  }

  unfoldable pub release : K → WsConn S → WsPool K S → WsPool K S
  release key conn pool =
      if leb pool.max (length pool.conns) && not (contains_key pool key)
      then put_front key conn (evict_lru pool)
      else put_front key conn pool

  unfoldable pub flush : WsPool K S → WsPool K S
  flush pool = record pool { conns = []; lru = [] }
