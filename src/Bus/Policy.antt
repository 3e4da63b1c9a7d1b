-- ===== src/Bus/Policy.antt =====
-- crates/tau-core/src/policy.rs: the approvals and the default subscription policy.
-- The file of a `PolicyStore` is its bytes. The CBOR encoding of the approvals never fails and is
-- a parameter; whether a write succeeds is an argument.
use shlop.Prelude.{
  Bool, true, false, not, ◌&&◌, Option, none, some, List, [], ◌∷◌, ◌++◌, if◌then◌else◌, any, ◌==◌,
  list_eq,
}
use shlop.Prelude.Text.{Str, text, str_eq}
use shlop.Proto.Category.{EventCategory, from_wire}
use shlop.Proto.Name.{name_eq, dot, split_once}
use shlop.Proto.Event.{EventSelector, exact, prefix}
use shlop.Bus.Connection.{ConnectionMetadata, ConnectionOrigin, socket, supervised, in_memory}

pub record SubscriptionApproval : Type 0 where
  pub connection_name : Str
  pub connection_origin : ConnectionOrigin
  pub selectors : List EventSelector

pub record PolicyStore : Type 0 where
  pub file : Str
  pub approvals : List SubscriptionApproval

pub record DefaultSubscriptionPolicy : Type 0 where
  pub store : Option PolicyStore

abbrev pub same_origin : ConnectionOrigin → ConnectionOrigin → Bool
same_origin supervised supervised = true
same_origin socket socket = true
same_origin in_memory in_memory = true
same_origin _ _ = false

abbrev pub same_selector : EventSelector → EventSelector → Bool
same_selector (exact m) (exact n) = m == n
same_selector (prefix p) (prefix q) = p == q
same_selector _ _ = false

abbrev pub same_selectors : List EventSelector → List EventSelector → Bool
same_selectors [] [] = true
same_selectors (s ∷ ss) (t ∷ ts) = same_selector s t && same_selectors ss ts
same_selectors _ _ = false

abbrev pub same_approval : SubscriptionApproval → SubscriptionApproval → Bool
same_approval a b =
    a.connection_name == b.connection_name
    && same_origin a.connection_origin b.connection_origin
    && same_selectors a.selectors b.selectors

unfoldable pub holds_approval : PolicyStore → SubscriptionApproval → Bool
holds_approval s a = any (λ existing. same_approval existing a) s.approvals

abbrev pub category_allowed : EventCategory → Bool
category_allowed (EventCategory.other _) = false
category_allowed _ = true

-- The text before the first dot, or all of it.
unfoldable pub category_str : Str → Str
unfolding split_once
category_str p = elim (split_once dot p) [ none ↦ p | some parts ↦ parts.0 ]

unfoldable pub selector_allowed : EventSelector → Bool
unfolding category_str
selector_allowed (exact name) = category_allowed name.category
selector_allowed (prefix p) = category_allowed (from_wire (category_str p))

abbrev pub denial : Str
denial = text "socket clients may only subscribe to allowed event families"

abbrev pub is_socket : ConnectionOrigin → Bool
is_socket socket = true
is_socket _ = false

-- `failure` is the text of the error of a write that fails, and `torn` what it leaves in the file:
-- `fs::write` empties the file first.
module _ (encode : List SubscriptionApproval → Str) (failure torn : Str) where
  unfoldable pub record_new : Bool → PolicyStore → SubscriptionApproval → Option Str × PolicyStore
  unfolding holds_approval
  record_new written s a =
      let approvals = s.approvals ++ a ∷ [] in
      if holds_approval s a
      then (none, s)
      else if written
      then (none, record { file = encode approvals; approvals = approvals })
      else (some failure, record { file = torn; approvals = approvals })

  unfoldable pub record_approval :
      Bool
      → DefaultSubscriptionPolicy
      → ConnectionMetadata
      → List EventSelector
      → Option Str × DefaultSubscriptionPolicy
  unfolding record_new
  record_approval written d connection selectors = elim d.store [
    | none ↦ (none, d)
    | some s ↦
        let (error, s') = record_new written s (record {
          connection_name = connection.name;
          connection_origin = connection.origin;
          selectors = selectors;
        }) in
        if is_socket connection.origin then (error, record { store = some s' }) else (none, d)
  ]

  unfoldable pub evaluate :
      Bool
      → DefaultSubscriptionPolicy
      → ConnectionMetadata
      → List EventSelector
      → Option Str × DefaultSubscriptionPolicy
  unfolding record_approval selector_allowed
  evaluate written d connection selectors =
      if is_socket connection.origin && any (λ s. not (selector_allowed s)) selectors
      then (some denial, d)
      else record_approval written d connection selectors
