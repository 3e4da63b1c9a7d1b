-- ===== src/Agent/Examples.antt =====
-- Runs of the pool of web sockets, and the witnesses.
use shlop.Prelude.{
  ℕ, zero, suc, ◌+◌, ◌≡◌, ◌≤◌, refl, none, some, List, [], ◌∷◌, ◌++◌, arith, if◌then◌else◌, length,
  ◌==◌, nat_eq,
}
use shlop.Prelude.Map
use shlop.Prelude.Text.{text}
use shlop.Agent.Pool.{
  WsConn, WsPool, empty_pool, checkout, release, without, max_of, contains_key, put_front,
}
use shlop.Agent.Recency.{IsPool}
use shlop.Agent.Usage.{
  Operation, checkout_op, release_op, run_operations, run_operation, run_operations-IsPool,
  checkout-release, release-evicts,
}
use shlop.Agent.Turn.{
  PromptPayload, Sockets, Turned, done, broken, http_status, run_turn_through_pool,
  run_prewarm_through_pool,
}
use shlop.Agent.Fallback.{
  reconnected, run_turn_through_pool-no_socket, IsSound, run_prewarm_through_pool-IsSound,
}

-- A socket that is told apart by a number.
abbrev socket : ℕ → WsConn ℕ
socket n = record { bearer = text "k"; opened_at = 100; session = n }

-- Three sessions share a pool of two sockets.
abbrev three_turns : List (Operation ℕ ℕ)
three_turns =
    release_op 1 (socket 1)
    ∷ release_op 2 (socket 2)
    ∷ checkout_op 200 (text "k") 1
    ∷ release_op 1 (socket 1)
    ∷ release_op 3 (socket 3)
    ∷ []

run_operations-IsPool_example : IsPool (run_operations three_turns (empty_pool (some 2)))
run_operations-IsPool_example = run_operations-IsPool (some 2) three_turns

-- The pool of two sockets, full.
abbrev full_pool : WsPool ℕ ℕ
full_pool =
    run_operations (release_op 1 (socket 1) ∷ release_op 2 (socket 2) ∷ []) (empty_pool (some 2))

full_pool-IsPool : IsPool full_pool
full_pool-IsPool =
    run_operations-IsPool (some 2) (release_op 1 (socket 1) ∷ release_op 2 (socket 2) ∷ [])

full_pool-full : full_pool.max ≤ length full_pool.conns
unfolding run_operations run_operation empty_pool max_of release put_front contains_key Map.get
    Map.insert
full_pool-full = omega arith

full_pool-absent : Map.get full_pool.conns 3 ≡ none
unfolding run_operations run_operation empty_pool max_of release put_front contains_key Map.get
    Map.insert
full_pool-absent = refl

release-evicts_example :
    (init : List ℕ) × ((oldest : ℕ) × ((full_pool.lru ≡ init ++ oldest ∷ [])
        × ((release 3 (socket 3) full_pool).lru ≡ 3 ∷ without 3 init)
        × ((j : ℕ)
            → Map.get (release 3 (socket 3) full_pool).conns j ≡ (
                if 3 == j
                then some (socket 3)
                else if oldest == j
                then none
                else Map.get full_pool.conns j))))
release-evicts_example =
    release-evicts 3 (socket 3) full_pool full_pool-IsPool full_pool-full full_pool-absent

checkout-release_example :
    ((checkout 200 (text "k") 3 (release 3 (socket 3) full_pool)).1 ≡ some (socket 3))
    × (Map.get ((checkout 200 (text "k") 3 (release 3 (socket 3) full_pool)).0).conns 3 ≡ none)
checkout-release_example = checkout-release 200 (text "k") 3 (socket 3) full_pool refl (omega arith)

-- Sockets on which every other turn is lost. The world counts the calls.
abbrev answer : ℕ → Turned ℕ
answer zero = broken (http_status 0 (text "stream error: closed"))
answer (suc n) = done n

abbrev flaky : Sockets ℕ ℕ ℕ ℕ ℕ
flaky = record {
  connect = λ w. (w + 1, done (socket w));
  run_turn = λ w c r. (w + 1, c, answer w);
  run_prewarm = λ w c r. (w + 1, c, answer w);
}

abbrev chained : PromptPayload ℕ ℕ
chained = record { previous_response = some 7; rest = 0 }

abbrev unchained : PromptPayload ℕ ℕ
unchained = record { previous_response = none; rest = 0 }

run_turn_through_pool-no_socket_example :
    run_turn_through_pool
      (reconnected flaky (λ w. (w, done (socket 9))))
      1
      200
      (text "k")
      chained
      0
      full_pool
    ≡ run_turn_through_pool flaky 1 200 (text "k") chained 0 full_pool
run_turn_through_pool-no_socket_example =
    run_turn_through_pool-no_socket flaky 1 (λ w. (w, done (socket 9))) 200 (text "k") chained 0
      full_pool refl

full_pool-IsSound : IsSound full_pool.stats.chain_strips_on_fresh full_pool
unfolding IsSound
full_pool-IsSound = (full_pool-IsPool, refl)

run_prewarm_through_pool-IsSound_instance :
    IsSound full_pool.stats.chain_strips_on_fresh
      ((run_prewarm_through_pool flaky 1 200 (text "k") unchained 0 full_pool).1)
run_prewarm_through_pool-IsSound_instance =
    run_prewarm_through_pool-IsSound flaky 1 200 (text "k") unchained 0 full_pool
      full_pool.stats.chain_strips_on_fresh full_pool-IsSound
