-- ===== src/Tools/Lifetime.antt =====
-- What the registry's operations keep, and what is left of a connection that is unregistered.
use mathlib.Core.Option
use shlop.Prelude.{
  ◌≡◌, inl, inr, refl, sym, ap, ◌∙◌, false, not, ◌&&◌, ◌||◌, none, some, List, [], arith,
  Bool-cases, Option-cases, ◌==◌, ==_iff, if◌then◌else◌,
}
use shlop.Prelude.Text.{Str, str_eq}
use shlop.Prelude.Map
use shlop.Prelude.Map.{Map, get-remove}
use shlop.Tools.Registry.{
  ToolSpec, ToolRegistry, new, provides, providers_for, tools_of, register, unregister, remove_all,
  unregister_connection,
}
use shlop.Tools.Agreement.{offers, lists, Agrees, offers-register, lists-register}
use shlop.Tools.Removal.{offers-unregister, lists-unregister, provides-remove_all}

module _ {D : Type 0} where
  -- In a registry whose indexes agree, registering a tool keeps them in agreement.
  pub register-Agrees :
      (r : ToolRegistry D) (c : Str) (tool : ToolSpec D) → Agrees r → Agrees (register r c tool).1
  register-Agrees r c tool a = record {
    at = λ j n.
        offers-register r c tool j n
        ∙ ap (λ b. b || (tool.name == n && c == j)) (a.at j n)
        ∙ sym (lists-register r c tool j n);
  }

  -- In a registry whose indexes agree, unregistering a tool, present or not, keeps them in
  -- agreement.
  pub unregister-Agrees :
      (r : ToolRegistry D) (c name : Str) → Agrees r → Agrees (unregister r c name).1
  unregister-Agrees r c name a = record {
    at = λ j n. offers-unregister r c name j n ∙ agree j n ∙ sym (lists-unregister r c name j n);
  }
    where
      agree :
          (j n : Str)
          → (offers r j n && not (name == n && c == j))
            ≡ (lists r j n && not (offers r c name && (name == n && c == j)))
      agree j n = elim (Bool-cases (name == n)) [
        | inr g ↦ ground (arith, g, a.at j n)
        | inl g ↦ elim (Bool-cases (c == j)) [
          | inr h ↦ ground (arith, h, a.at j n)
          | inl h ↦ ground (
            arith,
            g,
            h,
            a.at j n,
            ap (offers r c) ((==_iff name n).0 g),
            ap (λ k. offers r k n) ((==_iff c j).0 h),
          )
        ]
      ]

  lists-unregister_connection :
      (r : ToolRegistry D) (c j n : Str)
      → lists (unregister_connection r c).1 j n ≡ (lists r j n && not (c == j))
  unfolding unregister_connection tools_of
  lists-unregister_connection r c j n = elim (Option-cases (Map.get r.tools_by_connection c)) [
    | inl e ↦ elim (Bool-cases (c == j)) [
      | inl h ↦ ground (arith, e, h, ap (Map.get r.tools_by_connection) ((==_iff c j).0 h))
      | inr h ↦ ground (arith, e, h)
    ]
    | inr (names, e) ↦ ground (arith, e, get-remove r.tools_by_connection c j)
  ]

  unregister_connection-unknown :
      (r : ToolRegistry D) (c : Str)
      → Map.get r.tools_by_connection c ≡ none
      → (unregister_connection r c).1 ≡ r
  unfolding unregister_connection
  unregister_connection-unknown r c e = rw (unregister_connection, e)

  providers-unregister_connection :
      (r : ToolRegistry D) (c : Str) (names : List Str)
      → Map.get r.tools_by_connection c ≡ some names
      → (unregister_connection r c).1.providers_by_tool ≡ remove_all c names r.providers_by_tool
  unfolding unregister_connection
  providers-unregister_connection r c names e = rw (unregister_connection, e)

  offers-unregister_connection :
      (r : ToolRegistry D) (c j n : Str)
      → offers (unregister_connection r c).1 j n ≡ (offers r j n && not (lists r c n && c == j))
  unfolding providers_for tools_of
  offers-unregister_connection r c j n = elim (Option-cases (Map.get r.tools_by_connection c)) [
    | inl e ↦ ground (arith, e, ap (λ t. offers t j n) (unregister_connection-unknown r c e))
    | inr (names, e) ↦
        ap (λ m. provides j (Option.get_or (Map.get m n) []))
          (providers-unregister_connection r c names e)
        ∙ ground (arith, e, provides-remove_all c names r.providers_by_tool j n)
  ]

  -- In a registry whose indexes agree, unregistering a connection keeps them in agreement.
  pub unregister_connection-Agrees :
      (r : ToolRegistry D) (c : Str) → Agrees r → Agrees (unregister_connection r c).1
  unregister_connection-Agrees r c a = record {
    at = λ j n.
        offers-unregister_connection r c j n
        ∙ agree j n
        ∙ sym (lists-unregister_connection r c j n);
  }
    where
      agree :
          (j n : Str)
          → (offers r j n && not (lists r c n && c == j)) ≡ (lists r j n && not (c == j))
      agree j n = elim (Bool-cases (c == j)) [
        | inr h ↦ ground (arith, h, a.at j n)
        | inl h ↦ ground (arith, h, a.at j n, ap (λ k. lists r k n) ((==_iff c j).0 h))
      ]

  -- In a registry whose indexes agree, unregistering connection `c` leaves no tool that `c`
  -- provides, and what every other connection provides is unchanged.
  pub unregister_connection_lem :
      (r : ToolRegistry D) (c j n : Str)
      → Agrees r
      → offers (unregister_connection r c).1 j n ≡ (if c == j then false else offers r j n)
  unregister_connection_lem r c j n a = elim (Bool-cases (c == j)) [
    | inr h ↦ ground (arith, h, offers-unregister_connection r c j n)
    | inl h ↦ ground (
      arith,
      h,
      offers-unregister_connection r c j n,
      a.at j n,
      ap (λ k. lists r k n) ((==_iff c j).0 h),
    )
  ]

pub new-Agrees : {D : Type 0} → Agrees {D = D} new
unfolding providers_for tools_of Map.get
new-Agrees = record { at = λ c n. refl }
