-- ===== src/Tools/Removal.antt =====
-- `unregister` and `unregister_connection` keep the two indexes in agreement.
use mathlib.Core.Option
use shlop.Prelude.{
  ◌≡◌, suc, inl, inr, refl, ap, ◌∙◌, not, ◌&&◌, none, some, List, [], ◌∷◌, arith, if◌then◌else◌,
  retain, length, Bool-cases, Option-cases, ◌==◌, ==_iff, nat_eq, ◌≤◌,
}
use shlop.Prelude.Text.{Str, str_eq}
use shlop.Prelude.Map
use shlop.Prelude.Map.{Map, get-insert, get-remove}
use shlop.Tools.Registry.{
  ToolProvider, ToolRegistry, contains, provides, providers_for, tools_of, put_back,
  remove_provider, remove_tool_from_connection, unregister, remove_all,
}
use shlop.Tools.Agreement.{offers, lists, get_or-put_back, provides-retain, contains-retain}

module _ {D : Type 0} where
  -- `removed` of `unregister` is told from the lengths: they differ exactly if the connection
  -- was among the providers.
  length-retain_le :
      (c : Str) (ps : List (ToolProvider D))
      → length (retain (λ (p : ToolProvider D). not (p.connection_id == c)) ps) ≤ length ps
  length-retain_le c [] = ground arith
  length-retain_le c (p ∷ ps) = ground (arith, length-retain_le c ps)

  removed-provides :
      (c : Str) (ps : List (ToolProvider D))
      → not (length (retain (λ (p : ToolProvider D). not (p.connection_id == c)) ps) == length ps)
        ≡ provides c ps
  removed-provides c [] = refl
  removed-provides c (p ∷ ps) = elim (Bool-cases (p.connection_id == c)) [
    | inl e ↦ ground (
      arith,
      e,
      length-retain_le c ps,
      ==_iff (length (retain (λ (q : ToolProvider D). not (q.connection_id == c)) ps))
          (suc (length ps)),
    )
    | inr e ↦ ground (
      arith,
      e,
      removed-provides c ps,
      ==_iff (length (retain (λ (q : ToolProvider D). not (q.connection_id == c)) ps)) (length ps),
      ==_iff (suc (length (retain (λ (q : ToolProvider D). not (q.connection_id == c)) ps)))
          (suc (length ps)),
    )
  ]

  get_or-remove_provider :
      (c : Str) (m : Map Str (List (ToolProvider D))) (name n : Str)
      → Option.get_or (Map.get (remove_provider c m name) n) [] ≡ (
          if name == n
          then retain
              (λ (p : ToolProvider D). not (p.connection_id == c))
              (Option.get_or (Map.get m n) [])
          else Option.get_or (Map.get m n) [])
  unfolding remove_provider
  get_or-remove_provider c m name n = elim (Option-cases (Map.get m name)) [
    | inl e ↦ elim (Bool-cases (name == n)) [
      | inl h ↦ ground (arith, e, h, ap (Map.get m) ((==_iff name n).0 h))
      | inr h ↦ ground (arith, e, h)
    ]
    | inr (ps, e) ↦ elim (Bool-cases (name == n)) [
      | inl h ↦ ground (
        arith,
        e,
        h,
        ap (Map.get m) ((==_iff name n).0 h),
        get_or-put_back m name (retain (λ (p : ToolProvider D). not (p.connection_id == c)) ps) n,
      )
      | inr h ↦ ground (
        arith,
        e,
        h,
        get_or-put_back m name (retain (λ (p : ToolProvider D). not (p.connection_id == c)) ps) n,
      )
    ]
  ]

  -- The providers of a tool after `remove_all`: the connection is gone from the named ones.
  pub provides-remove_all :
      (c : Str) (names : List Str) (m : Map Str (List (ToolProvider D))) (j n : Str)
      → provides j (Option.get_or (Map.get (remove_all c names m) n) [])
        ≡ (provides j (Option.get_or (Map.get m n) []) && not (contains names n && c == j))
  unfolding remove_all
  provides-remove_all c [] m j n = ground arith
  provides-remove_all c (x ∷ names) m j n = elim (Bool-cases (x == n)) [
    | inl h ↦ ground (
      arith,
      h,
      provides-remove_all c names (remove_provider c m x) j n,
      get_or-remove_provider c m x n,
      provides-retain c j (Option.get_or (Map.get m n) []),
    )
    | inr h ↦ ground (
      arith,
      h,
      provides-remove_all c names (remove_provider c m x) j n,
      get_or-remove_provider c m x n,
    )
  ]

  providers-remove_tool_from_connection :
      (r : ToolRegistry D) (c name : Str)
      → (remove_tool_from_connection r c name).providers_by_tool ≡ r.providers_by_tool
  unfolding remove_tool_from_connection
  providers-remove_tool_from_connection r c name =
      elim (Option-cases (Map.get r.tools_by_connection c)) [
        | inl e ↦ ground (arith, e)
        | inr (names, e) ↦ ground (arith, e)
      ]

  lists-remove_tool_from_connection :
      (r : ToolRegistry D) (c name j n : Str)
      → lists (remove_tool_from_connection r c name) j n
        ≡ (lists r j n && not (name == n && c == j))
  unfolding remove_tool_from_connection tools_of
  lists-remove_tool_from_connection r c name j n =
      elim (Option-cases (Map.get r.tools_by_connection c)) [
        | inl e ↦ elim (Bool-cases (c == j)) [
          | inl h ↦ ground (arith, e, h, ap (Map.get r.tools_by_connection) ((==_iff c j).0 h))
          | inr h ↦ ground (arith, e, h)
        ]
        | inr (names, e) ↦ elim (Bool-cases (c == j)) [
          | inl h ↦ ground (
            arith,
            e,
            h,
            ap (Map.get r.tools_by_connection) ((==_iff c j).0 h),
            get_or-put_back r.tools_by_connection c (retain (λ y. not (y == name)) names) j,
            contains-retain name names n,
          )
          | inr h ↦ ground (
            arith,
            e,
            h,
            get_or-put_back r.tools_by_connection c (retain (λ y. not (y == name)) names) j,
          )
        ]
      ]

  -- The registry with the connection taken from the providers of a tool.
  abbrev without : ToolRegistry D → Str → Str → List (ToolProvider D) → ToolRegistry D
  without r c name ps = record r {
    providers_by_tool =
        put_back r.providers_by_tool name
          (retain (λ (p : ToolProvider D). not (p.connection_id == c)) ps);
  }

  unregister-found :
      (r : ToolRegistry D) (c name : Str) (ps : List (ToolProvider D))
      → Map.get r.providers_by_tool name ≡ some ps
      → (unregister r c name).1 ≡ (
          if provides c ps
          then remove_tool_from_connection (without r c name ps) c name
          else without r c name ps)
  unfolding unregister
  unregister-found r c name ps e = rw (unregister, e, removed-provides c ps)

  unregister-missing :
      (r : ToolRegistry D) (c name : Str)
      → Map.get r.providers_by_tool name ≡ none
      → (unregister r c name).1 ≡ r
  unfolding unregister
  unregister-missing r c name e = rw (unregister, e)

  provides-without :
      (r : ToolRegistry D) (c name : Str) (ps : List (ToolProvider D)) (j n : Str)
      → Map.get r.providers_by_tool name ≡ some ps
      → offers (without r c name ps) j n ≡ (offers r j n && not (name == n && c == j))
  unfolding providers_for
  provides-without r c name ps j n e = elim (Bool-cases (name == n)) [
    | inl h ↦ ground (
      arith,
      e,
      h,
      ap (Map.get r.providers_by_tool) ((==_iff name n).0 h),
      get_or-put_back r.providers_by_tool name
          (retain (λ (p : ToolProvider D). not (p.connection_id == c)) ps) n,
      provides-retain c j ps,
    )
    | inr h ↦ ground (
      arith,
      e,
      h,
      get_or-put_back r.providers_by_tool name
          (retain (λ (p : ToolProvider D). not (p.connection_id == c)) ps) n,
    )
  ]

  offers-remove_tool_from_connection :
      (r : ToolRegistry D) (c name j n : Str)
      → offers (remove_tool_from_connection r c name) j n ≡ offers r j n
  unfolding providers_for
  offers-remove_tool_from_connection r c name j n =
      ap (λ m. provides j (Option.get_or (Map.get m n) []))
        (providers-remove_tool_from_connection r c name)

  lists-without :
      (r : ToolRegistry D) (c name : Str) (ps : List (ToolProvider D)) (j n : Str)
      → lists (without r c name ps) j n ≡ lists r j n
  unfolding tools_of
  lists-without r c name ps j n = refl

  pub offers-unregister :
      (r : ToolRegistry D) (c name j n : Str)
      → offers (unregister r c name).1 j n ≡ (offers r j n && not (name == n && c == j))
  unfolding providers_for
  offers-unregister r c name j n = elim (Option-cases (Map.get r.providers_by_tool name)) [
    | inl e ↦ elim (Bool-cases (name == n)) [
      | inl h ↦ ground (
        arith,
        e,
        h,
        unregister-missing r c name e,
        ap (Map.get r.providers_by_tool) ((==_iff name n).0 h),
      )
      | inr h ↦ ground (arith, e, h, unregister-missing r c name e)
    ]
    | inr (ps, e) ↦
        ap (λ t. offers t j n) (unregister-found r c name ps e)
        ∙ elim (Bool-cases (provides c ps)) [
          | inl h ↦ ground (
            arith,
            h,
            offers-remove_tool_from_connection (without r c name ps) c name j n,
            provides-without r c name ps j n e,
          )
          | inr h ↦ ground (arith, h, provides-without r c name ps j n e)
        ]
  ]

  pub lists-unregister :
      (r : ToolRegistry D) (c name j n : Str)
      → lists (unregister r c name).1 j n
        ≡ (lists r j n && not (offers r c name && (name == n && c == j)))
  unfolding providers_for
  lists-unregister r c name j n = elim (Option-cases (Map.get r.providers_by_tool name)) [
    | inl e ↦ ground (arith, e, ap (λ t. lists t j n) (unregister-missing r c name e))
    | inr (ps, e) ↦
        ap (λ t. lists t j n) (unregister-found r c name ps e) ∙ elim (Bool-cases (provides c ps)) [
          | inl h ↦ ground (
            arith,
            h,
            e,
            lists-without r c name ps j n,
            lists-remove_tool_from_connection (without r c name ps) c name j n,
          )
          | inr h ↦ ground (arith, h, e, lists-without r c name ps j n)
        ]
  ]
