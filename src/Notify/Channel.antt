-- ===== src/Notify/Channel.antt =====
-- The channel's shared state and what its two halves do to it
-- (crates/tau-blocking-notify-channel/src/lib.rs). Each step is what one thread does while it holds
-- the lock, or one atomic operation; the steps of the threads interleave freely.
use shlop.Prelude.{ℕ, ◌+◌, ◌-◌, ◌≡◌, Bool, true, false, List, [], ◌∷◌, if◌then◌else◌, eqb, ltb}

-- Where the one receiver is: outside `recv`, parked in `condvar.wait`, or woken from it and about to
-- take the lock again.
pub data Receiver : Type 0 where
  outside parked woken : Receiver

-- What `recv` and `try_recv` return: `Ok(())` or `Ok(true)`, `Ok(false)`, `Err(Disconnected)`.
pub data Returned : Type 0 where
  received nothing_pending disconnected_error : Returned

pub record Channel : Type 0 where
  pub notified : Bool
  pub disconnected : Bool
  pub sender_count : ℕ
  -- The last sender has counted itself out and has not taken the lock yet.
  pub is_closing : Bool
  pub receiver : Receiver
  -- The results so far, the last one first.
  pub returns : List Returned

-- `channel()`
unfoldable pub channel : Channel
channel = record {
  notified = false;
  disconnected = false;
  sender_count = 1;
  is_closing = false;
  receiver = outside;
  returns = [];
}

pub data Event : Type 0 where
  -- `Sender::clone`, `Sender::notify`, and the two halves of `Sender::drop`.
  clone_sender notify count_out close : Event
  -- `recv` is called, its wait ends after a wake or for no reason, it looks again; `try_recv`.
  call_recv wake_for_no_reason look_again call_try_recv : Event

-- `condvar.notify_one()`: the one thread that may wait is the receiver.
unfoldable pub wake : Receiver → Receiver
wake parked = woken
wake r = r

unfoldable pub clone_step : Channel → Channel
clone_step c = record c { sender_count = c.sender_count + 1 }

unfoldable pub notify_step : Channel → Channel
notify_step c = if c.notified then c else (record c { notified = true; receiver = wake c.receiver })

-- `fetch_sub(1) == 1`
unfoldable pub count_out_step : Channel → Channel
count_out_step c = record c { sender_count = c.sender_count - 1; is_closing = eqb c.sender_count 1 }

unfoldable pub close_step : Channel → Channel
close_step c = record c { disconnected = true; is_closing = false; receiver = wake c.receiver }

abbrev pub return_with : Returned → Channel → Channel
return_with r c = record c { receiver = outside; returns = r ∷ c.returns }

-- One round of the loop of `recv`.
unfoldable pub recv_round : Channel → Channel
recv_round c =
    if c.notified
    then return_with received (record c { notified = false })
    else if c.disconnected
    then return_with disconnected_error c
    else (record c { receiver = parked })

unfoldable pub try_recv_step : Channel → Channel
try_recv_step c =
    if c.notified
    then return_with received (record c { notified = false })
    else if c.disconnected
    then return_with disconnected_error c
    else return_with nothing_pending c

unfoldable pub is_outside : Receiver → Bool
is_outside outside = true
is_outside r = false

unfoldable pub is_parked : Receiver → Bool
is_parked parked = true
is_parked r = false

unfoldable pub is_woken : Receiver → Bool
is_woken woken = true
is_woken r = false

-- An event needs a sender, a drop under way, or the receiver in the right place.
unfoldable pub is_enabled : Channel → Event → Bool
is_enabled c clone_sender = ltb 0 c.sender_count
is_enabled c notify = ltb 0 c.sender_count
is_enabled c count_out = ltb 0 c.sender_count
is_enabled c close = c.is_closing
is_enabled c call_recv = is_outside c.receiver
is_enabled c wake_for_no_reason = is_parked c.receiver
is_enabled c look_again = is_woken c.receiver
is_enabled c call_try_recv = is_outside c.receiver

unfoldable pub perform : Channel → Event → Channel
perform c clone_sender = clone_step c
perform c notify = notify_step c
perform c count_out = count_out_step c
perform c close = close_step c
perform c call_recv = recv_round c
perform c wake_for_no_reason = record c { receiver = woken }
perform c look_again = recv_round c
perform c call_try_recv = try_recv_step c

-- A wake that no sender caused.
unfoldable pub is_spurious : Event → Bool
is_spurious wake_for_no_reason = true
is_spurious ev = false

-- The steps of the channel, and what it can reach.
pub data Step (c : Channel) : Channel → Type 0 where
  step : (ev : Event) → is_enabled c ev ≡ true → Step c (perform c ev)

pub data Reaches (c : Channel) : Channel → Type 0 where
  here : Reaches c c
  then_step : {d f : Channel} → Reaches c d → Step d f → Reaches c f
