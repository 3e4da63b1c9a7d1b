-- ===== src/Agent/Recency.antt =====
-- The queue of the web sockets' keys and the sockets of the pool go together (`WsPool` of
-- crates/tau-agent/src/responses/pool.rs).
use shlop.Prelude.{
  ℕ, ◌+◌, ◌-◌, ◌≤◌, ◌<◌, ◌≡◌, refl, ap, sym, subst, ◌∙◌, ◌⊎◌, inl, inr, Option, none, some, Bool,
  true, false, not, ◌&&◌, ◌||◌, List, [], ◌∷◌, ◌++◌, if◌then◌else◌, leb, length, any, Eq, ◌==◌,
  ==_refl, option_eq, nat_eq, arith, Bool-cases, Option-cases,
}
use shlop.Prelude.Map
use shlop.Prelude.Map.{Map}
use shlop.Prelude.Text.{Str, str_eq}
use shlop.Agent.Pool.{
  WsConn, WsPool, without, set_lru, remove_conn, purge_key, checkout, evict_key, evict_back,
  evict_lru, contains_key, put_front, release, max_connection_age,
}

abbrev pub is_some : {A : Type 0} → Option A → Bool
is_some none = false
is_some (some a) = true

module _ {K : Type 0} ⦃e : Eq K⦄ where
  abbrev pub has : List K → K → Bool
  has ks key = any (λ k. k == key) ks

  has-without :
      (ks : List K) (key j : K) → has (without key ks) j ≡ (if key == j then false else has ks j)
  has-without [] key j = ground arith
  has-without (k ∷ ks) key j =
      ground (arith, e.decides key j, e.decides k key, e.decides k j, has-without ks key j)

  -- No key twice.
  unfoldable pub IsUnique : List K → Type 0
  IsUnique [] = Unit
  IsUnique (k ∷ ks) = (has ks k ≡ false) × IsUnique ks

  without-IsUnique : (ks : List K) (key : K) → IsUnique ks → IsUnique (without key ks)
  unfolding IsUnique
  without-IsUnique [] key h = tt
  without-IsUnique (k ∷ ks) key (fresh, rest) = elim (Bool-cases (k == key)) [
    | inl same ↦ rw same (without-IsUnique ks key rest)
    | inr other ↦
        rw other (ground (arith, has-without ks key k, fresh), without-IsUnique ks key rest)
  ]

  has-push : (ks : List K) (k j : K) → has (ks ++ k ∷ []) j ≡ (has ks j || (k == j))
  has-push [] k j = ground arith
  has-push (i ∷ ks) k j = ground (arith, has-push ks k j)

  IsUnique-push : (ks : List K) (k : K) → IsUnique (ks ++ k ∷ []) → IsUnique ks × (has ks k ≡ false)
  unfolding IsUnique
  IsUnique-push [] k h = (tt, refl)
  IsUnique-push (j ∷ ks) k (fresh, rest) =
      let (unique, last_fresh) = IsUnique-push ks k rest in
      (
        (ground (arith, has-push ks k j, fresh), unique),
        ground (arith, has-push ks k j, fresh, last_fresh, e.decides j k, e.decides k j),
      )

  last-cases : (ks : List K) → (ks ≡ []) ⊎ ((init : List K) × ((k : K) × (ks ≡ init ++ k ∷ [])))
  last-cases [] = inl refl
  last-cases (k ∷ ks) = elim (last-cases ks) [
    | inl empty ↦ inr ([], (k, ap (◌∷◌ k) empty))
    | inr (init, (l, same)) ↦ inr (k ∷ init, (l, ap (◌∷◌ k) same))
  ]

  last-has : (ks : List K) (k : K) → has (ks ++ k ∷ []) k ≡ true
  last-has ks k = ground (arith, has-push ks k k, ==_refl k)

module _ {K S : Type 0} ⦃e : Eq K⦄ where
  -- A key is queued exactly when it has a socket.
  unfoldable pub IsInStep : Map K (WsConn S) → List K → Type 0
  IsInStep m ks = (j : K) → has ks j ≡ is_some (Map.get m j)

  length-remove : (m : Map K (WsConn S)) (k : K) → length (Map.remove m k) ≤ length m
  unfolding Map.remove
  length-remove [] k = omega arith
  length-remove ((j, c) ∷ m) k = ground (arith, length-remove m k)

  length-remove_some :
      (m : Map K (WsConn S)) (k : K)
      → is_some (Map.get m k) ≡ true
      → length (Map.remove m k) < length m
  unfolding Map.remove Map.get
  length-remove_some [] k h = cc
  length-remove_some ((j, c) ∷ m) k h = elim (Bool-cases (j == k)) [
    | inl same ↦ rw same (omega (arith, length-remove m k))
    | inr other ↦ rw other (omega (arith, length-remove_some m k (ground (arith, h, other))))
  ]

  length-insert :
      (m : Map K (WsConn S)) (k : K) (c : WsConn S) → length (Map.insert m k c) ≤ length m + 1
  unfolding Map.insert
  length-insert [] k c = omega arith
  length-insert ((j, d) ∷ m) k c = ground (arith, length-insert m k c)

  length-insert_some :
      (m : Map K (WsConn S)) (k : K) (c : WsConn S)
      → is_some (Map.get m k) ≡ true
      → length (Map.insert m k c) ≡ length m
  unfolding Map.insert Map.get
  length-insert_some [] k c h = cc
  length-insert_some ((j, d) ∷ m) k c h = elim (Bool-cases (j == k)) [
    | inl same ↦ rw same refl
    | inr other ↦ rw other (omega (arith, length-insert_some m k c (ground (arith, h, other))))
  ]

  -- The pool is in step and within its size.
  unfoldable pub IsPool : WsPool K S → Type 0
  IsPool pool =
      IsUnique pool.lru
      × IsInStep pool.conns pool.lru
      × (length pool.conns ≤ pool.max)
      × (0 < pool.max)

  remove-IsInStep :
      (m : Map K (WsConn S)) (ks : List K) (key : K)
      → IsInStep m ks
      → IsInStep (Map.remove m key) (without key ks)
  unfolding IsInStep
  remove-IsInStep m ks key h j = ground (arith, h j, has-without ks key j, Map.get-remove m key j)

  insert-IsInStep :
      (m : Map K (WsConn S)) (ks : List K) (key : K) (c : WsConn S)
      → IsInStep m ks
      → IsInStep (Map.insert m key c) (key ∷ without key ks)
  unfolding IsInStep
  insert-IsInStep m ks key c h j =
      ground (arith, h j, has-without ks key j, Map.get-insert m key c j)

  -- In a queue in step, the key at the back has a socket, so that it alone goes.
  evict_back-last :
      (m : Map K (WsConn S)) (ks : List K) (k : K)
      → is_some (Map.get m k) ≡ true
      → evict_back m (ks ++ k ∷ []) ≡ record { left = Map.remove m k; queue = ks; dropped = true }
  unfolding evict_back evict_key
  evict_back-last m [] k h = ground (arith, h, Option-cases (Map.get m k))
  evict_back-last m (j ∷ ks) k h = rw (evict_back-last m ks k h) refl

  without_last-IsInStep :
      (m : Map K (WsConn S)) (ks : List K) (k : K)
      → IsUnique (ks ++ k ∷ [])
      → IsInStep m (ks ++ k ∷ [])
      → IsInStep (Map.remove m k) ks
  unfolding IsInStep
  without_last-IsInStep m ks k unique h j = ground (
    arith,
    h j,
    (IsUnique-push ks k unique).1,
    has-push ks k j,
    Map.get-remove m k j,
    e.decides k j,
  )

  busy-some : (m : Map K (WsConn S)) → 0 < length m → (j : K) × (is_some (Map.get m j) ≡ true)
  unfolding Map.get
  busy-some [] h = absurd (omega arith)
  busy-some ((j, c) ∷ m) h = (j, ground (arith, ==_refl j))

  -- What `evict_lru` does to a pool in step that has a socket: the key at the back goes.
  pub evict_lru-last :
      (pool : WsPool K S)
      → IsPool pool
      → 0 < length pool.conns
      → (init : List K) × ((k : K) × ((pool.lru ≡ init ++ k ∷ [])
            × (evict_lru pool ≡ record pool { conns = Map.remove pool.conns k; lru = init })
            × (is_some (Map.get pool.conns k) ≡ true)
            × (length (Map.remove pool.conns k) < length pool.conns)
            × IsUnique init
            × IsInStep (Map.remove pool.conns k) init))
  unfolding IsPool evict_lru IsInStep
  evict_lru-last pool (unique, step, small, some_max) busy = elim (last-cases pool.lru) [
    | inl empty ↦ absurd (
        let (j, live) = busy-some pool.conns busy in
        let queued = sym (ap (λ ks. has ks j) empty) ∙ (step j ∙ live) in cc)
    | inr (init, (k, same)) ↦
        (let live = sym (step k) ∙ (ap (λ ks. has ks k) same ∙ last-has init k) in
          let back = evict_back-last pool.conns init k live in
          (
            init,
            (
              k,
              (
                same,
                ap (λ ev. record pool { conns = ev.left; lru = ev.queue })
                    (ap (evict_back pool.conns) same ∙ back),
                live,
                length-remove_some pool.conns k live,
                (IsUnique-push init k (subst IsUnique same unique)).0,
                without_last-IsInStep pool.conns init k (subst IsUnique same unique)
                    (subst (IsInStep pool.conns) same step),
              ),
            ),
          ))
  ]

  purge-IsPool :
      (pool : WsPool K S) (key : K)
      → IsPool pool
      → IsPool (set_lru (without key pool.lru) (remove_conn key pool))
  unfolding IsPool
  purge-IsPool pool key (unique, step, small, some_max) = (
    without-IsUnique pool.lru key unique,
    remove-IsInStep pool.conns pool.lru key step,
    omega (arith, length-remove pool.conns key),
    some_max,
  )

  -- A second removal of the key changes nothing.
  remove-twice :
      (m : Map K (WsConn S)) (key : K) → Map.remove (Map.remove m key) key ≡ Map.remove m key
  unfolding Map.remove
  remove-twice [] key = refl
  remove-twice ((j, c) ∷ m) key = ground (arith, remove-twice m key)

  pub checkout-IsPool :
      (now : ℕ) (bearer : Str) (key : K) (pool : WsPool K S)
      → IsPool pool
      → IsPool ((checkout now bearer key pool).0)
  unfolding checkout purge_key
  checkout-IsPool now bearer key pool h = elim (Option-cases (Map.get pool.conns key)) [
    | inl e ↦ rw (checkout, e) h
    | inr (conn, e) ↦ elim (Bool-cases (conn.bearer == bearer)) [
      | inr rotated ↦
          rw (checkout, e, rotated, remove-twice pool.conns key) (purge-IsPool pool key h)
      | inl same ↦ elim (Bool-cases (leb max_connection_age (now - conn.opened_at))) [
        | inl old ↦
            rw (checkout, e, same, old, remove-twice pool.conns key) (purge-IsPool pool key h)
        | inr young ↦ rw (checkout, e, same, young) (purge-IsPool pool key h)
      ]
    ]
  ]

  put_front-IsPool :
      (pool : WsPool K S) (key : K) (conn : WsConn S)
      → IsUnique pool.lru
      → IsInStep pool.conns pool.lru
      → length (Map.insert pool.conns key conn) ≤ pool.max
      → 0 < pool.max
      → IsPool (put_front key conn pool)
  unfolding put_front IsPool IsUnique
  put_front-IsPool pool key conn unique step small some_max = (
    (
      ground (arith, has-without pool.lru key key, ==_refl key),
      without-IsUnique pool.lru key unique,
    ),
    insert-IsInStep pool.conns pool.lru key conn step,
    small,
    some_max,
  )

  room-insert :
      (pool : WsPool K S) (key : K) (conn : WsConn S)
      → length pool.conns ≤ pool.max
      → (leb pool.max (length pool.conns) && not (contains_key pool key)) ≡ false
      → length (Map.insert pool.conns key conn) ≤ pool.max
  unfolding contains_key
  room-insert pool key conn small room = elim (Option-cases (Map.get pool.conns key)) [
    | inl e ↦ ground (arith, room, e, length-insert pool.conns key conn)
    | inr (c, e) ↦ omega (arith, length-insert_some pool.conns key conn (ap is_some e))
  ]

  pub release-IsPool :
      (key : K) (conn : WsConn S) (pool : WsPool K S) → IsPool pool → IsPool (release key conn pool)
  unfolding IsPool contains_key release IsUnique IsInStep
  release-IsPool key conn pool (unique, step, small, some_max) =
      elim (Bool-cases (leb pool.max (length pool.conns) && not (contains_key pool key))) [
        | inr room ↦
            rw (release, room)
              (put_front-IsPool pool key conn unique step (room-insert pool key conn small room)
                some_max)
        | inl at_limit ↦
            (let (init, (k, (same, gone, live, less, unique_init, step_init))) =
                evict_lru-last pool (unique, step, small, some_max) (ground arith) in
              rw (release, at_limit, gone)
                (put_front-IsPool (record pool { conns = Map.remove pool.conns k; lru = init }) key
                  conn unique_init step_init
                  (omega (arith, length-insert (Map.remove pool.conns k) key conn)) some_max))
      ]
