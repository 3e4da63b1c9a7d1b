-- ===== src/Interception/Registry.antt =====
-- `InterceptorRegistry` (crates/tau-harness/src/harness/interception.rs). A `BTreeSet` of
-- registrations is its elements in ascending order. A priority, an `i64` that is only compared,
-- is kept as its distance from the least `i64`. The `BTreeMap`s stand in one order; no operation
-- depends on it.
use mathlib.Core.Option
use shlop.Prelude.{
  ℕ, Bool, true, false, not, ◌&&◌, ◌||◌, Option, none, some, List, [], ◌∷◌, map, if◌then◌else◌, ltb,
  eqb, retain, is_empty, ◌==◌, Eq,
}
use shlop.Prelude.Text.{Str, str_eq}
use shlop.Prelude.Map
use shlop.Prelude.Map.{Map}
use shlop.Proto.Name.{EventName, name_eq}
use shlop.Proto.Prefix.{matches_prefix}
use shlop.Proto.Event.{Event, event_name, EventSelector, exact, prefix}

-- The order of strings: by their bytes, from the left.
unfoldable pub str_ltb : Str → Str → Bool
str_ltb xs [] = false
str_ltb [] (y ∷ ys) = true
str_ltb (x ∷ xs) (y ∷ ys) = ltb x y || (eqb x y && str_ltb xs ys)

pub record InterceptorRegistration : Type 0 where
  pub priority : ℕ
  pub component_name : Str
  pub connection_id : Str

-- `Ord::cmp(a, b) == Less`
unfoldable pub before : InterceptorRegistration → InterceptorRegistration → Bool
unfolding str_ltb
before a b =
    ltb a.priority b.priority
    || (eqb a.priority b.priority
        && (str_ltb a.component_name b.component_name
            || (a.component_name == b.component_name && str_ltb a.connection_id b.connection_id)))

-- `BTreeSet::insert`
unfoldable pub set_insert :
    InterceptorRegistration → List InterceptorRegistration → List InterceptorRegistration
unfolding before
set_insert r [] = r ∷ []
set_insert r (x ∷ xs) =
    let rest = x ∷ set_insert r xs in
    if before r x then r ∷ x ∷ xs else if before x r then rest else x ∷ xs

pub record InterceptorRegistry : Type 0 where
  pub exacts : Map EventName (List InterceptorRegistration)
  pub prefixes : Map Str (List InterceptorRegistration)

-- `map.entry(key).or_default().insert(r)`
abbrev pub insert_under :
    {K : Type 0} ⦃e : Eq K⦄
    → Map K (List InterceptorRegistration)
    → K
    → InterceptorRegistration
    → Map K (List InterceptorRegistration)
insert_under m k r = Map.insert m k (set_insert r (Option.get_or (Map.get m k) []))

-- Every set without the registrations of a connection, and then the sets that are left.
abbrev pub without_connection :
    {K : Type 0} → Str → Map K (List InterceptorRegistration) → Map K (List InterceptorRegistration)
without_connection {K} c m =
    retain (λ (e : K × List InterceptorRegistration). not (is_empty e.1))
      (map
        (λ (e : K × List InterceptorRegistration).
          (e.0, retain (λ (r : InterceptorRegistration). not (r.connection_id == c)) e.1))
        m)

unfoldable pub remove_connection : InterceptorRegistry → Str → InterceptorRegistry
remove_connection g c = record {
  exacts = without_connection c g.exacts;
  prefixes = without_connection c g.prefixes;
}

unfoldable pub add_selectors :
    InterceptorRegistration → List EventSelector → InterceptorRegistry → InterceptorRegistry
unfolding set_insert
add_selectors r [] g = g
add_selectors r (exact name ∷ ss) g =
    add_selectors r ss (record g { exacts = insert_under g.exacts name r })
add_selectors r (prefix p ∷ ss) g =
    add_selectors r ss (record g { prefixes = insert_under g.prefixes p r })

unfoldable pub replace_for_connection :
    InterceptorRegistry → Str → Str → List EventSelector → ℕ → InterceptorRegistry
unfolding remove_connection add_selectors
replace_for_connection g connection_id component_name selectors priority =
    add_selectors
      (record {
        priority = priority;
        component_name = component_name;
        connection_id = connection_id;
      })
      selectors (remove_connection g connection_id)

-- What the cursor lets through.
unfoldable pub past : Option (ℕ × Str) → InterceptorRegistration → Bool
unfolding str_ltb
past none r = true
past (some (priority, connection_id)) r =
    ltb priority r.priority || (eqb priority r.priority && str_ltb connection_id r.connection_id)

-- The search of `next_in_set`
unfoldable pub find_past :
    Option (ℕ × Str) → List InterceptorRegistration → Option InterceptorRegistration
find_past cursor [] = none
find_past cursor (r ∷ rs) = let rest = find_past cursor rs in if past cursor r then some r else rest

unfoldable pub next_in_set :
    Option (List InterceptorRegistration) → Option (ℕ × Str) → Option InterceptorRegistration
unfolding find_past
next_in_set none cursor = none
next_in_set (some rs) cursor = find_past cursor rs

-- One step of `Iterator::min`, from the right: of two that are equal the first is taken.
unfoldable pub least :
    Option InterceptorRegistration → Option InterceptorRegistration → Option InterceptorRegistration
least none b = b
least (some a) none = some a
least (some a) (some b) = if before b a then some b else some a

-- The last chain of `next_for`.
unfoldable pub next_of_prefixes :
    EventName
    → Option (ℕ × Str)
    → Map Str (List InterceptorRegistration)
    → Option InterceptorRegistration
unfolding least find_past
next_of_prefixes name cursor [] = none
next_of_prefixes name cursor ((p, rs) ∷ m) =
    let rest = next_of_prefixes name cursor m in
    if matches_prefix name p then least (find_past cursor rs) rest else rest

unfoldable pub next_for :
    {V : Type 0} → InterceptorRegistry → Event V → Option (ℕ × Str) → Option InterceptorRegistration
unfolding next_in_set next_of_prefixes
next_for g e cursor =
    let name = event_name e in
    elim (next_in_set (Map.get g.exacts name) cursor) [
      | some r ↦ some r
      | none ↦ next_of_prefixes name cursor g.prefixes
    ]
