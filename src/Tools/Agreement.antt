-- ===== src/Tools/Agreement.antt =====
-- The two indexes of the registry agree: a connection provides a tool exactly when the tool is
-- recorded for the connection.
use mathlib.Core.Option
use shlop.Prelude.{
  ◌≡◌, inl, inr, refl, ap, Bool, not, ◌&&◌, ◌||◌, List, [], ◌∷◌, ◌++◌, arith, if◌then◌else◌, retain,
  Bool-cases, ◌==◌, ==_iff, nat_eq,
}
use shlop.Prelude.Text.{Str, str_eq}
use shlop.Prelude.Map
use shlop.Prelude.Map.{Map, get-insert, get-remove}
use shlop.Tools.Registry.{
  ToolSpec, ToolProvider, ToolRegistry, contains, provides, update_first, add_provider, add_name,
  providers_for, tools_of, register, put_back,
}

abbrev pub offers : {D : Type 0} → ToolRegistry D → Str → Str → Bool
offers r c name = provides c (providers_for r name)

abbrev pub lists : {D : Type 0} → ToolRegistry D → Str → Str → Bool
lists r c name = contains (tools_of r c) name

pub record Agrees {D : Type 0} (r : ToolRegistry D) : Type 0 where
  pub at : (c name : Str) → offers r c name ≡ lists r c name

contains-append :
    (xs : List Str) (y n : Str) → contains (xs ++ y ∷ []) n ≡ (contains xs n || y == n)
contains-append [] y n = ground arith
contains-append (x ∷ xs) y n = ground (arith, contains-append xs y n)

contains-add_name :
    (x : Str) (xs : List Str) (n : Str) → contains (add_name x xs) n ≡ (contains xs n || x == n)
contains-add_name x xs n = elim (Bool-cases (x == n)) [
  | inl e ↦ ground (arith, contains-append xs x n, ap (contains xs) ((==_iff x n).0 e))
  | inr e ↦ ground (arith, contains-append xs x n)
]

pub contains-retain :
    (x : Str) (xs : List Str) (n : Str)
    → contains (retain (λ y. not (y == x)) xs) n ≡ (contains xs n && not (x == n))
contains-retain x [] n = refl
contains-retain x (y ∷ xs) n =
    ground (arith, contains-retain x xs n, ==_iff y x, ==_iff y n, ==_iff x n)

-- What is stored for a key after the list under `k` was put back.
pub get_or-put_back {ℓ} :
    {A : Type ℓ} (m : Map Str (List A)) (k : Str) (xs : List A) (j : Str)
    → Option.get_or (Map.get (put_back m k xs) j) []
      ≡ (if k == j then xs else Option.get_or (Map.get m j) [])
get_or-put_back m k [] j = ground (arith, get-remove m k j)
get_or-put_back m k (x ∷ xs) j = ground (arith, get-insert m k (x ∷ xs) j)

module _ {D : Type 0} where
  provides-append :
      (c : Str) (ps : List (ToolProvider D)) (p : ToolProvider D)
      → provides c (ps ++ p ∷ []) ≡ (provides c ps || p.connection_id == c)
  provides-append c [] p = ground arith
  provides-append c (q ∷ ps) p = ground (arith, provides-append c ps p)

  provides-update_first :
      (c j : Str) (tool : ToolSpec D) (ps : List (ToolProvider D))
      → provides j (update_first c tool ps) ≡ provides j ps
  unfolding update_first
  provides-update_first c j tool [] = refl
  provides-update_first c j tool (p ∷ ps) = ground (arith, provides-update_first c j tool ps)

  provides-add_provider :
      (c j : Str) (tool : ToolSpec D) (ps : List (ToolProvider D))
      → provides j (add_provider c tool ps) ≡ (provides j ps || c == j)
  unfolding add_provider
  provides-add_provider c j tool ps = elim (Bool-cases (c == j)) [
    | inl e ↦ ground (
      arith,
      provides-append j ps (record { connection_id = c; tool = tool }),
      provides-update_first c j tool ps,
      ap (λ k. provides k ps) ((==_iff c j).0 e),
    )
    | inr e ↦ ground (
      arith,
      provides-append j ps (record { connection_id = c; tool = tool }),
      provides-update_first c j tool ps,
    )
  ]

  pub provides-retain :
      (c j : Str) (ps : List (ToolProvider D))
      → provides j (retain (λ (p : ToolProvider D). not (p.connection_id == c)) ps)
        ≡ (provides j ps && not (c == j))
  provides-retain c j [] = refl
  provides-retain c j (p ∷ ps) = ground (
    arith,
    provides-retain c j ps,
    ==_iff p.connection_id c,
    ==_iff p.connection_id j,
    ==_iff c j,
  )

  -- What each operation does to what is offered and to what is listed.
  pub offers-register :
      (r : ToolRegistry D) (c : Str) (tool : ToolSpec D) (j n : Str)
      → offers (register r c tool).1 j n ≡ (offers r j n || (tool.name == n && c == j))
  unfolding register
  offers-register r c tool j n = elim (Bool-cases (tool.name == n)) [
    | inl e ↦ ground (
      arith,
      e,
      get-insert r.providers_by_tool tool.name (add_provider c tool (providers_for r tool.name)) n,
      provides-add_provider c j tool (providers_for r tool.name),
      ap (providers_for r) ((==_iff tool.name n).0 e),
    )
    | inr e ↦ ground (
      arith,
      e,
      get-insert r.providers_by_tool tool.name (add_provider c tool (providers_for r tool.name)) n,
    )
  ]

  pub lists-register :
      (r : ToolRegistry D) (c : Str) (tool : ToolSpec D) (j n : Str)
      → lists (register r c tool).1 j n ≡ (lists r j n || (tool.name == n && c == j))
  unfolding register
  lists-register r c tool j n = elim (Bool-cases (c == j)) [
    | inl e ↦ ground (
      arith,
      e,
      get-insert r.tools_by_connection c (add_name tool.name (tools_of r c)) j,
      contains-add_name tool.name (tools_of r c) n,
      ap (tools_of r) ((==_iff c j).0 e),
    )
    | inr e ↦
        ground (arith, e, get-insert r.tools_by_connection c (add_name tool.name (tools_of r c)) j)
  ]
