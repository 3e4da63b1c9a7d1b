-- ===== src/Interception/Replies.antt =====
-- Replies and disconnects against the abstract queue.
use shlop.Prelude.{List, ◌≡◌, none, map, arith, if◌then◌else◌}
use shlop.Prelude.Text.{Str, str_eq}
use shlop.Proto.Name.{name_eq}
use shlop.Proto.Event.{Event}
use shlop.Interception.Publish.{PendingIntercept, InterceptAction, Harness, handle_intercept_reply}
use shlop.Interception.Order.{Ticket, ticket, queued, drops}

module _ {V C : Type 0} where
  abbrev left : Harness V C → PendingIntercept V C → InterceptAction V → List (Ticket C)
  left h q action = if drops q.publish action then map ticket h.deferred_publishes else queued h

  reply_idle :
      (h : Harness V C) (conn : Str) (action : InterceptAction V)
      → h.pending_intercept ≡ none
      → handle_intercept_reply h conn action ≡ h
  unfolding handle_intercept_reply
  reply_idle h conn action e = ground (arith, e)
