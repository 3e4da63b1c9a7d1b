-- ===== src/Notify/Wakeups.antt =====
-- No wake is lost: the channel's invariant (crates/tau-blocking-notify-channel/src/lib.rs).
use shlop.Prelude.{◌≡◌, refl, inl, inr, Bool, true, false, ◌&&◌, ◌||◌, eqb, arith, Bool-cases}
use shlop.Notify.Channel.{
  Channel, Receiver, outside, parked, woken, Event, clone_sender, notify, count_out, close,
  call_recv, wake_for_no_reason, look_again, call_try_recv, channel, wake, clone_step, notify_step,
  count_out_step, close_step, recv_round, try_recv_step, is_parked, is_enabled, perform, step,
  Reaches, here, then_step,
}

-- A parked receiver has nothing to receive; no sender is left exactly when the channel is
-- disconnected or the last one is about to disconnect it, and these two exclude each other.
unfoldable pub IsLive : Channel → Type 0
IsLive c =
    ((is_parked c.receiver && (c.notified || c.disconnected)) ≡ false)
    × (eqb c.sender_count 0 ≡ (c.disconnected || c.is_closing))
    × ((c.disconnected && c.is_closing) ≡ false)

is_parked-wake : (r : Receiver) → is_parked (wake r) ≡ false
unfolding is_parked wake
is_parked-wake outside = refl
is_parked-wake parked = refl
is_parked-wake woken = refl

and_false : (b : Bool) → (b && false) ≡ false
and_false true = refl
and_false false = refl

recv_round-IsLive : (c : Channel) → IsLive c → IsLive (recv_round c)
unfolding IsLive recv_round is_parked
recv_round-IsLive c (quiet, counted, apart) = elim (Bool-cases c.notified) [
  | inl n ↦ rw n (refl, counted, apart)
  | inr n ↦ elim (Bool-cases c.disconnected) [
    | inl d ↦ rw (n, d) (refl, ground (arith, counted, d), ground (arith, apart, d))
    | inr d ↦ rw (n, d) (refl, ground (arith, counted, d), refl)
  ]
]

try_recv-IsLive : (c : Channel) → IsLive c → IsLive (try_recv_step c)
unfolding IsLive try_recv_step is_parked
try_recv-IsLive c (quiet, counted, apart) = elim (Bool-cases c.notified) [
  | inl n ↦ rw n (refl, counted, apart)
  | inr n ↦ elim (Bool-cases c.disconnected) [
    | inl d ↦ rw (n, d) (refl, ground (arith, counted, d), ground (arith, apart, d))
    | inr d ↦ rw (n, d) (refl, ground (arith, counted, d), refl)
  ]
]

pub perform-IsLive :
    (c : Channel) (ev : Event) → is_enabled c ev ≡ true → IsLive c → IsLive (perform c ev)
unfolding perform is_enabled IsLive is_parked clone_step notify_step count_out_step close_step
perform-IsLive c clone_sender on (quiet, counted, apart) = (quiet, ground (arith, counted), apart)
perform-IsLive c notify on (quiet, counted, apart) = elim (Bool-cases c.notified) [
  | inl n ↦ rw n (ground (arith, quiet, n), counted, apart)
  | inr n ↦ rw (n, is_parked-wake c.receiver) (refl, counted, apart)
]
perform-IsLive c count_out on (quiet, counted, apart) =
    (quiet, ground (arith, counted, on), ground (arith, counted, on))
perform-IsLive c close on (quiet, counted, apart) =
    rw (is_parked-wake c.receiver) (refl, ground (arith, counted, on), refl)
perform-IsLive c call_recv on h = recv_round-IsLive c h
perform-IsLive c wake_for_no_reason on (quiet, counted, apart) = (refl, counted, apart)
perform-IsLive c look_again on h = recv_round-IsLive c h
perform-IsLive c call_try_recv on h = try_recv-IsLive c h

-- In every state that the channel can reach, whatever the threads do and whenever they are
-- scheduled: a receiver parked in its wait has nothing to receive, so that no wake was lost; and no
-- sender is left exactly when the channel is disconnected or the last sender is about to do it.
pub Reaches-IsLive : {c : Channel} → Reaches channel c → IsLive c
unfolding IsLive channel is_parked
Reaches-IsLive here = (refl, refl, refl)
Reaches-IsLive (then_step before (step ev on)) = perform-IsLive _ ev on (Reaches-IsLive before)
