-- ===== src/Bus/Approvals.antt =====
-- What `PolicyStore::record` of crates/tau-core/src/policy.rs keeps in its file.
use shlop.Prelude.{
  ◌≡◌, refl, Bool, true, false, Bool-cases, inl, inr, none, some, List, [], ◌∷◌, ◌++◌, arith, any,
  ==_refl,
}
use shlop.Prelude.Text.{Str, str_eq}
use shlop.Proto.Name.{name_eq}
use shlop.Proto.Event.{EventSelector, exact, prefix}
use shlop.Bus.Connection.{ConnectionOrigin, socket, supervised, in_memory}
use shlop.Bus.Policy.{
  SubscriptionApproval, PolicyStore, same_origin, same_selector, same_selectors, same_approval,
  holds_approval, record_new,
}

same_origin_refl : (o : ConnectionOrigin) → same_origin o o ≡ true
same_origin_refl supervised = refl
same_origin_refl socket = refl
same_origin_refl in_memory = refl

same_selector_refl : (s : EventSelector) → same_selector s s ≡ true
same_selector_refl (exact n) = ==_refl n
same_selector_refl (prefix p) = ==_refl p

same_selectors_refl : (ss : List EventSelector) → same_selectors ss ss ≡ true
same_selectors_refl [] = refl
same_selectors_refl (s ∷ ss) = ground (arith, same_selector_refl s, same_selectors_refl ss)

same_approval_refl : (a : SubscriptionApproval) → same_approval a a ≡ true
same_approval_refl a = ground (
  arith,
  ==_refl a.connection_name,
  same_origin_refl a.connection_origin,
  same_selectors_refl a.selectors,
)

any-push :
    (xs : List SubscriptionApproval) (a : SubscriptionApproval)
    → any (λ x. same_approval x a) (xs ++ a ∷ []) ≡ true
any-push [] a = ground (arith, same_approval_refl a)
any-push (x ∷ xs) a = ground (arith, any-push xs a)

module _ (encode : List SubscriptionApproval → Str) (failure torn : Str) where
  -- A store whose file encodes its approvals is such a store after every recording whose write
  -- succeeds, and then holds the approval.
  pub record_new-written :
      (s : PolicyStore) (a : SubscriptionApproval)
      → s.file ≡ encode s.approvals
      → let (error, s') = record_new encode failure torn true s a in
        (error ≡ none) × (s'.file ≡ encode s'.approvals) × (holds_approval s' a ≡ true)
  unfolding record_new holds_approval
  record_new-written s a h = elim (Bool-cases (any (λ x. same_approval x a) s.approvals)) [
    | inl e ↦ ground (arith, e, h)
    | inr e ↦ ground (arith, e, any-push s.approvals a)
  ]

  -- When the write of an approval that the store does not hold fails, recording the approval again
  -- succeeds, however a write would go, while the file stays what the failed write left.
  pub record_new_unwritten :
      (s : PolicyStore) (a : SubscriptionApproval) (written : Bool)
      → holds_approval s a ≡ false
      → let (error, s') = record_new encode failure torn false s a in
        (error ≡ some failure)
        × (record_new encode failure torn written s' a ≡ (none, s'))
        × (s'.file ≡ torn)
  unfolding record_new holds_approval
  record_new_unwritten s a written h = ground (arith, h, any-push s.approvals a)
