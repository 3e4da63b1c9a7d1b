-- ===== src/Tools/Registry.antt =====
-- `ToolRegistry` (crates/tau-core/src/tool_registry.rs). `D` stands for the fields of a `ToolSpec`
-- that the registry only carries.
use mathlib.Core.Option
use shlop.Prelude.{
  Bool, false, not, Option, none, some, List, [], ◌∷◌, ◌++◌, map, if◌then◌else◌, any, retain,
  is_empty, head?, length, ◌==◌, nat_eq,
}
use shlop.Prelude.Text.{Str, str_eq}
use shlop.Prelude.Map
use shlop.Prelude.Map.{Map}

pub record ToolSpec (D : Type 0) : Type 0 where
  pub name : Str
  pub details : D

pub record ToolProvider (D : Type 0) : Type 0 where
  pub connection_id : Str
  pub tool : ToolSpec D

-- The one constructor is `DuplicateRegistration`: the tool, and who provided it already.
pub data ToolRegistryWarning : Type 0 where
  duplicate_registration : Str → List Str → ToolRegistryWarning

pub record ToolRegistry (D : Type 0) : Type 0 where
  pub providers_by_tool : Map Str (List (ToolProvider D))
  pub tools_by_connection : Map Str (List Str)

abbrev pub new : {D : Type 0} → ToolRegistry D
new = record { providers_by_tool = []; tools_by_connection = [] }

abbrev pub contains : List Str → Str → Bool
contains names name = any (λ n. n == name) names

abbrev pub add_name : Str → List Str → List Str
add_name name names = if contains names name then names else names ++ name ∷ []

-- A list is put back under its key, or the key removed when the list is empty.
abbrev pub put_back {ℓ} : {A : Type ℓ} → Map Str (List A) → Str → List A → Map Str (List A)
put_back m k xs = if is_empty xs then Map.remove m k else Map.insert m k xs

module _ {D : Type 0} where
  abbrev pub provides : Str → List (ToolProvider D) → Bool
  provides c ps = any (λ (p : ToolProvider D). p.connection_id == c) ps

  -- `providers.iter_mut().find(..)`, with the tool of what is found replaced.
  unfoldable pub update_first : Str → ToolSpec D → List (ToolProvider D) → List (ToolProvider D)
  update_first c tool [] = []
  update_first c tool (p ∷ ps) =
      let rest = p ∷ update_first c tool ps in
      if p.connection_id == c then record p { tool = tool } ∷ ps else rest

  unfoldable pub add_provider : Str → ToolSpec D → List (ToolProvider D) → List (ToolProvider D)
  unfolding update_first
  add_provider c tool ps =
      if provides c ps
      then update_first c tool ps
      else ps ++ record { connection_id = c; tool = tool } ∷ []

  unfoldable pub providers_for : ToolRegistry D → Str → List (ToolProvider D)
  providers_for r name = Option.get_or (Map.get r.providers_by_tool name) []

  -- The tools recorded for a connection.
  unfoldable pub tools_of : ToolRegistry D → Str → List Str
  tools_of r c = Option.get_or (Map.get r.tools_by_connection c) []

  unfoldable pub register :
      ToolRegistry D → Str → ToolSpec D → List ToolRegistryWarning × ToolRegistry D
  unfolding add_provider providers_for tools_of
  register r c tool =
      let providers = providers_for r tool.name in
      let existing = map (λ (p : ToolProvider D). p.connection_id) providers in
      (
        if is_empty existing then [] else duplicate_registration tool.name existing ∷ [],
        record {
          providers_by_tool =
              Map.insert r.providers_by_tool tool.name (add_provider c tool providers);
          tools_by_connection =
              Map.insert r.tools_by_connection c (add_name tool.name (tools_of r c));
        },
      )

  unfoldable pub remove_provider :
      Str → Map Str (List (ToolProvider D)) → Str → Map Str (List (ToolProvider D))
  remove_provider c m name = elim (Map.get m name) [
    | none ↦ m
    | some ps ↦ put_back m name (retain (λ (p : ToolProvider D). not (p.connection_id == c)) ps)
  ]

  unfoldable pub remove_tool_from_connection : ToolRegistry D → Str → Str → ToolRegistry D
  remove_tool_from_connection r c name = elim (Map.get r.tools_by_connection c) [
    | none ↦ r
    | some names ↦ record r {
      tools_by_connection = put_back r.tools_by_connection c (retain (λ n. not (n == name)) names);
    }
  ]

  -- `removed` is told by the length of the list.
  unfoldable pub unregister : ToolRegistry D → Str → Str → Bool × ToolRegistry D
  unfolding remove_provider remove_tool_from_connection
  unregister r c name = elim (Map.get r.providers_by_tool name) [
    | none ↦ (false, r)
    | some ps ↦
        let kept = retain (λ (p : ToolProvider D). not (p.connection_id == c)) ps in
        let removed = not (length kept == length ps) in
        let r' = record r { providers_by_tool = put_back r.providers_by_tool name kept } in
        (removed, if removed then remove_tool_from_connection r' c name else r')
  ]

  unfoldable pub remove_all :
      Str → List Str → Map Str (List (ToolProvider D)) → Map Str (List (ToolProvider D))
  unfolding remove_provider
  remove_all c [] m = m
  remove_all c (name ∷ names) m = remove_all c names (remove_provider c m name)

  unfoldable pub unregister_connection : ToolRegistry D → Str → List Str × ToolRegistry D
  unfolding remove_all
  unregister_connection r c = elim (Map.get r.tools_by_connection c) [
    | none ↦ ([], r)
    | some names ↦ (
      names,
      record {
        providers_by_tool = remove_all c names r.providers_by_tool;
        tools_by_connection = Map.remove r.tools_by_connection c;
      },
    )
  ]

  unfoldable pub resolve_provider : ToolRegistry D → Str → Option (ToolProvider D)
  resolve_provider r name = elim (Map.get r.providers_by_tool name) [
    | none ↦ none
    | some ps ↦ head? ps
  ]

  unfoldable pub all_tool_names : ToolRegistry D → List Str
  all_tool_names r = map (λ (e : Str × List (ToolProvider D)). e.0) r.providers_by_tool
