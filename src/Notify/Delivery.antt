-- ===== src/Notify/Delivery.antt =====
-- What the receiver gets (crates/tau-blocking-notify-channel/src/lib.rs): a notification goes before
-- the disconnection, the disconnection is final, and a call of `recv` can always end.
use shlop.Prelude.{
  ℕ, zero, suc, ◌≡◌, refl, ap, ◌∙◌, ◌⊎◌, inl, inr, true, false, List, ◌∷◌, length, ltb, arith,
  Bool-cases,
}
use shlop.Notify.Channel.{
  Channel, Receiver, outside, parked, woken, Event, clone_sender, notify, count_out, close,
  call_recv, wake_for_no_reason, look_again, call_try_recv, channel, wake, clone_step, notify_step,
  count_out_step, close_step, recv_round, try_recv_step, is_outside, is_parked, is_woken,
  is_spurious, is_enabled, perform, step, Reaches, here, then_step, Returned, received,
  disconnected_error,
}
use shlop.Notify.Wakeups.{IsLive, perform-IsLive, Reaches-IsLive}

-- No sender is left and no notification waits.
unfoldable pub IsOver : Channel → Type 0
IsOver c = (c.disconnected ≡ true) × (c.notified ≡ false) × (c.sender_count ≡ 0)

-- Once the channel is over it stays so, and every later call returns the disconnection.
perform-IsOver :
    (c : Channel) (ev : Event)
    → is_enabled c ev ≡ true
    → IsLive c
    → IsOver c
    → IsOver (perform c ev)
unfolding IsOver perform is_enabled IsLive clone_step notify_step count_out_step close_step
    recv_round try_recv_step
perform-IsOver c clone_sender on live (d, n, z) = absurd (ground (arith, z))
perform-IsOver c notify on live (d, n, z) = absurd (ground (arith, z))
perform-IsOver c count_out on live (d, n, z) = absurd (ground (arith, z))
perform-IsOver c close on live (d, n, z) = (refl, n, z)
perform-IsOver c call_recv on live (d, n, z) = rw (n, d) (refl, refl, z)
perform-IsOver c wake_for_no_reason on live (d, n, z) = (d, n, z)
perform-IsOver c look_again on live (d, n, z) = rw (n, d) (refl, refl, z)
perform-IsOver c call_try_recv on live (d, n, z) = rw (n, d) (refl, refl, z)

-- The results of the receiver since the channel was over.
unfoldable pub disconnections : ℕ → List Returned → List Returned
disconnections zero rs = rs
disconnections (suc k) rs = disconnected_error ∷ disconnections k rs

over-returns :
    (c : Channel) (ev : Event)
    → is_enabled c ev ≡ true
    → IsOver c
    → ((perform c ev).returns ≡ c.returns)
      ⊎ ((perform c ev).returns ≡ disconnected_error ∷ c.returns)
unfolding IsOver perform is_enabled clone_step notify_step count_out_step close_step recv_round
    try_recv_step
over-returns c clone_sender on (d, n, z) = inl refl
over-returns c notify on (d, n, z) = rw n (inl refl)
over-returns c count_out on (d, n, z) = inl refl
over-returns c close on (d, n, z) = inl refl
over-returns c call_recv on (d, n, z) = rw (n, d) (inr refl)
over-returns c wake_for_no_reason on (d, n, z) = inl refl
over-returns c look_again on (d, n, z) = rw (n, d) (inr refl)
over-returns c call_try_recv on (d, n, z) = rw (n, d) (inr refl)

-- What holds from the moment that the channel is over.
IsOverSince : List Returned → Channel → Type 0
IsOverSince rs d = IsOver d × IsLive d × ((k : ℕ) × (d.returns ≡ disconnections k rs))

Reaches-IsOverSince : {c d : Channel} → IsLive c → IsOver c → Reaches c d → IsOverSince c.returns d
unfolding IsOverSince disconnections
Reaches-IsOverSince live over here = (over, live, (0, refl))
Reaches-IsOverSince {c} live over (then_step {d} before (step ev on)) =
    let (over_d, live_d, (k, same)) = Reaches-IsOverSince live over before in
    (
      perform-IsOver d ev on live_d over_d,
      perform-IsLive d ev on live_d,
      elim (over-returns d ev on over_d) [
        | inl quiet ↦ (k, quiet ∙ same)
        | inr one ↦ (suc k, one ∙ ap (◌∷◌ disconnected_error) same)
      ],
    )

recv_round-IsOver :
    (c : Channel) → IsLive c → (recv_round c).returns ≡ disconnected_error ∷ c.returns → IsOver c
unfolding recv_round IsLive IsOver
recv_round-IsOver c (quiet, counted, apart) h = elim (Bool-cases c.notified) [
  | inl n ↦ absurd (ground (arith, h, n))
  | inr n ↦ elim (Bool-cases c.disconnected) [
    | inl d ↦ (d, n, ground (arith, counted, d))
    | inr d ↦ absurd (
        let same : c.returns ≡ disconnected_error ∷ c.returns = ground (arith, h, n, d) in
        omega (arith, ap length same))
  ]
]

-- `recv` returns the disconnection only when no sender is left and no notification waits; and from
-- then on, whatever happens, every call returns the disconnection again.
pub recv-disconnected :
    {c : Channel}
    → Reaches channel c
    → (recv_round c).returns ≡ disconnected_error ∷ c.returns
    → IsOver c
      × ((d : Channel)
          → Reaches c d
          → IsOver d × ((k : ℕ) × (d.returns ≡ disconnections k c.returns)))
unfolding IsOverSince
recv-disconnected {c} before h =
    let live = Reaches-IsLive before in
    let over : IsOver c = recv_round-IsOver c live h in
    (
      over,
      λ d after.
          let (over_d, live_d, since) = Reaches-IsOverSince live over after in (over_d, since),
    )

woken-of : (r : Receiver) → is_outside r ≡ false → is_parked r ≡ false → is_woken r ≡ true
unfolding is_outside is_parked is_woken
woken-of outside waits free = cc
woken-of parked waits free = cc
woken-of woken waits free = refl

woken-wake : (r : Receiver) → is_outside r ≡ false → is_woken (wake r) ≡ true
unfolding is_outside wake is_woken
woken-wake outside waits = cc
woken-wake parked waits = refl
woken-wake woken waits = refl

outside-wake : (r : Receiver) → is_outside r ≡ false → is_outside (wake r) ≡ false
unfolding is_outside wake
outside-wake outside waits = cc
outside-wake parked waits = refl
outside-wake woken waits = refl

-- In every reachable state, a receiver that waits gets the next notification: once a sender has
-- notified, the receiver can take the lock again, and when it does, its call returns.
pub notify-delivered :
    {c : Channel}
    → Reaches channel c
    → is_outside c.receiver ≡ false
    → (is_enabled (perform c notify) look_again ≡ true)
      × ((perform (perform c notify) look_again).returns ≡ received ∷ c.returns)
unfolding perform is_enabled notify_step recv_round IsLive
notify-delivered {c} before waits =
    let (quiet, counted, apart) = Reaches-IsLive before in
    elim (Bool-cases c.notified) [
      | inl n ↦ rw n (woken-of c.receiver waits (ground (arith, quiet, n)), refl)
      | inr n ↦ rw n (woken-wake c.receiver waits, refl)
    ]

-- The steps of a run in which every wake of the receiver is a sender's.
pub data Runs : Channel → Channel → Type 0 where
  stop : {c : Channel} → Runs c c
  then_run :
      {c d : Channel} (ev : Event)
      → is_enabled c ev ≡ true
      → is_spurious ev ≡ false
      → Runs (perform c ev) d
      → Runs c d

-- A call of `recv` can return from here, woken by a sender if it is to be woken.
unfoldable pub CanReturn : Channel → Type 0
CanReturn c = (d : Channel) × (Runs c d × ((r : Returned) × (d.returns ≡ r ∷ c.returns)))

look_free : (c : Channel) → IsLive c → c.disconnected ≡ true → is_parked c.receiver ≡ false
unfolding IsLive
look_free c (quiet, counted, apart) d = ground (arith, quiet, d)

closing_when :
    (c : Channel) → IsLive c → c.sender_count ≡ 0 → c.disconnected ≡ false → c.is_closing ≡ true
unfolding IsLive
closing_when c (quiet, counted, apart) count alive = ground (arith, counted, count, alive)

look_returns :
    (c : Channel)
    → c.disconnected ≡ true
    → (r : Returned) × ((recv_round c).returns ≡ r ∷ c.returns)
unfolding recv_round
look_returns c d = elim (Bool-cases c.notified) [
  | inl n ↦ (received, rw n refl)
  | inr n ↦ (disconnected_error, rw (n, d) refl)
]

look-CanReturn :
    (c : Channel) → IsLive c → is_outside c.receiver ≡ false → c.disconnected ≡ true → CanReturn c
unfolding CanReturn perform is_enabled is_spurious
look-CanReturn c live waits d =
    let on = woken-of c.receiver waits (look_free c live d) in
    (recv_round c, (then_run look_again on refl stop, look_returns c d))

close-CanReturn :
    (c : Channel) → IsLive c → is_outside c.receiver ≡ false → c.is_closing ≡ true → CanReturn c
unfolding CanReturn perform close_step is_enabled is_spurious
close-CanReturn c live waits closing =
    let (d, (after, result)) =
      look-CanReturn (close_step c) (perform-IsLive c close closing live)
        (outside-wake c.receiver waits) refl in
    (d, (then_run close closing refl after, result))

senders-CanReturn :
    (n : ℕ) (c : Channel)
    → c.sender_count ≡ n
    → IsLive c
    → is_outside c.receiver ≡ false
    → CanReturn c
unfolding CanReturn perform count_out_step is_enabled is_spurious
senders-CanReturn zero c count live waits = elim (Bool-cases c.disconnected) [
  | inl d ↦ look-CanReturn c live waits d
  | inr alive ↦ close-CanReturn c live waits (closing_when c live count alive)
]
senders-CanReturn (suc n) c count live waits =
    let on : ltb 0 c.sender_count ≡ true = ground (arith, count) in
    let (d, (after, result)) =
      senders-CanReturn n (count_out_step c) (omega (arith, count))
        (perform-IsLive c count_out on live) waits in
    (d, (then_run count_out on refl after, result))

-- No call of `recv` is stuck: from every reachable state in which the receiver waits, there are steps,
-- none of them a wake that no sender caused, after which its call has returned.
pub recv-CanReturn : {c : Channel} → Reaches channel c → is_outside c.receiver ≡ false → CanReturn c
recv-CanReturn {c} before waits =
    senders-CanReturn c.sender_count c refl (Reaches-IsLive before) waits
