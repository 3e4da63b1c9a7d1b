-- ===== src/Notify/Examples.antt =====
-- Runs of the notify channel, and the witnesses.
use shlop.Prelude.{ℕ, ◌≡◌, refl, true, false, ◌∷◌}
use shlop.Notify.Channel.{
  Channel, channel, clone_sender, notify, count_out, close, call_recv, look_again, clone_step,
  count_out_step, close_step, recv_round, is_outside, is_enabled, perform, step, Reaches, here,
  then_step, received, disconnected_error,
}
use shlop.Notify.Wakeups.{IsLive, Reaches-IsLive}
use shlop.Notify.Delivery.{
  IsOver, disconnections, CanReturn, recv-disconnected, notify-delivered, recv-CanReturn,
}

-- A receiver that waits while two senders are there.
abbrev waiting : Channel
waiting = perform (perform channel clone_sender) call_recv

waiting-reached : Reaches channel waiting
unfolding channel perform is_enabled is_outside clone_step
waiting-reached = then_step (then_step here (step clone_sender refl)) (step call_recv refl)

waiting-waits : is_outside waiting.receiver ≡ false
unfolding channel perform is_outside clone_step recv_round
waiting-waits = refl

-- The only sender is gone.
abbrev over : Channel
over = perform (perform channel count_out) close

over-reached : Reaches channel over
unfolding channel perform is_enabled count_out_step
over-reached = then_step (then_step here (step count_out refl)) (step close refl)

over-returns : (recv_round over).returns ≡ disconnected_error ∷ over.returns
unfolding channel perform count_out_step close_step recv_round
over-returns = refl

Reaches-IsLive_example : IsLive waiting
Reaches-IsLive_example = Reaches-IsLive waiting-reached

recv-CanReturn_example : CanReturn waiting
recv-CanReturn_example = recv-CanReturn waiting-reached waiting-waits

recv-disconnected_example :
    IsOver over
    × ((d : Channel)
        → Reaches over d
        → IsOver d × ((k : ℕ) × (d.returns ≡ disconnections k over.returns)))
recv-disconnected_example = recv-disconnected over-reached over-returns

notify-delivered_example :
    (is_enabled (perform waiting notify) look_again ≡ true)
    × ((perform (perform waiting notify) look_again).returns ≡ received ∷ waiting.returns)
notify-delivered_example = notify-delivered waiting-reached waiting-waits
