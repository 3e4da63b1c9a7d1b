-- ===== src/Interception/Chain.antt =====
-- Which interceptor is asked next: always one past the cursor, never one of a connection that is gone.
use shlop.Prelude.{
  ◌≡◌, refl, ℕ, Bool, true, false, not, Bool-cases, Option-cases, inl, inr, Option, none, some,
  List, [], ◌∷◌, arith, if◌then◌else◌, retain, is_empty, All, subst, ◌==◌, Eq,
}
use shlop.Prelude.Text.{Str, str_eq}
use shlop.Prelude.Map
use shlop.Prelude.Map.{Map}
use shlop.Proto.Name.{EventName, name_eq}
use shlop.Proto.Prefix.{matches_prefix}
use shlop.Proto.Event.{Event, event_name}
use shlop.Interception.Registry.{
  InterceptorRegistration, InterceptorRegistry, before, past, find_past, next_in_set, least,
  next_of_prefixes, next_for, without_connection, remove_connection,
}

-- A test that every registration found passes.
abbrev Finds : (InterceptorRegistration → Bool) → Option InterceptorRegistration → Type 0
Finds p o = (r : InterceptorRegistration) → o ≡ some r → p r ≡ true

find_past-past :
    (cursor : Option (ℕ × Str)) (rs : List InterceptorRegistration)
    → Finds (past cursor) (find_past cursor rs)
unfolding find_past
find_past-past cursor [] r h = ground arith
find_past-past cursor (x ∷ rs) r h = elim (Bool-cases (past cursor x)) [
  | inl e ↦ ground (arith, e)
  | inr e ↦ ground (arith, e, find_past-past cursor rs r)
]

least-one :
    (p : InterceptorRegistration → Bool) (a b : Option InterceptorRegistration)
    → Finds p a
    → Finds p b
    → Finds p (least a b)
unfolding least
least-one p none b fa fb r h = fb r h
least-one p (some a) none fa fb r h = fa r h
least-one p (some a) (some b) fa fb r h = elim (Bool-cases (before b a)) [
  | inl e ↦ fb r (ground (arith, e))
  | inr e ↦ fa r (ground (arith, e))
]

next_of_prefixes-past :
    (name : EventName) (cursor : Option (ℕ × Str)) (m : Map Str (List InterceptorRegistration))
    → Finds (past cursor) (next_of_prefixes name cursor m)
unfolding next_of_prefixes
next_of_prefixes-past name cursor [] r h = ground arith
next_of_prefixes-past name cursor ((p, rs) ∷ m) r h = elim (Bool-cases (matches_prefix name p)) [
  | inl e ↦
      least-one (past cursor) (find_past cursor rs) (next_of_prefixes name cursor m)
        (find_past-past cursor rs) (next_of_prefixes-past name cursor m) r (ground (arith, e))
  | inr e ↦ next_of_prefixes-past name cursor m r (ground (arith, e))
]

-- A test that every registration of a map's sets passes.
abbrev Passing : (InterceptorRegistration → Bool) → List InterceptorRegistration → Type 0
Passing q rs = All (λ (r : InterceptorRegistration). q r ≡ true) rs

abbrev AllSets :
    {K : Type 0} → (InterceptorRegistration → Bool) → Map K (List InterceptorRegistration) → Type 0
AllSets {K} q m = All (λ (e : K × List InterceptorRegistration). Passing q e.1) m

get-AllSets :
    {K : Type 0} ⦃eq : Eq K⦄ (q : InterceptorRegistration → Bool)
    (m : Map K (List InterceptorRegistration)) (k : K) (rs : List InterceptorRegistration)
    → AllSets q m
    → Map.get m k ≡ some rs
    → Passing q rs
unfolding Map.get
get-AllSets q [] k rs a h = ground arith
get-AllSets {K} q ((j, xs) ∷ m) k rs a h = elim (Bool-cases (j == k)) [
  | inl e ↦ subst (Passing q) (ground (arith, e)) a.0
  | inr e ↦ get-AllSets q m k rs a.1 (ground (arith, e))
]

All-kept :
    {A : Type 0} (P : A → Type 0) (b : Bool) (x : A) (xs : List A)
    → (b ≡ true → P x)
    → All P xs
    → All P (if b then x ∷ xs else xs)
All-kept P true x xs h a = (h refl, a)
All-kept P false x xs h a = a

retain-Passing :
    (q : InterceptorRegistration → Bool) (rs : List InterceptorRegistration)
    → Passing q (retain q rs)
retain-Passing q [] = tt
retain-Passing q (r ∷ rs) =
    All-kept (λ x. q x ≡ true) (q r) r (retain q rs) (λ h. h) (retain-Passing q rs)

without-AllSets :
    {K : Type 0} (c : Str) (m : Map K (List InterceptorRegistration))
    → AllSets (λ (x : InterceptorRegistration). not (x.connection_id == c)) (without_connection c m)
without-AllSets c [] = tt
without-AllSets {K} c ((k, rs) ∷ m) =
    let q = (λ (x : InterceptorRegistration). not (x.connection_id == c)) in
    let kept = retain (λ (r : InterceptorRegistration). not (r.connection_id == c)) rs in
    All-kept (λ (e : K × List InterceptorRegistration). Passing q e.1) (not (is_empty kept))
      (k, kept) (without_connection c m) (λ h. retain-Passing q rs) (without-AllSets c m)

find_past-Finds :
    (q : InterceptorRegistration → Bool) (cursor : Option (ℕ × Str))
    (rs : List InterceptorRegistration)
    → Passing q rs
    → Finds q (find_past cursor rs)
unfolding find_past
find_past-Finds q cursor [] a r h = ground arith
find_past-Finds q cursor (x ∷ rs) a r h = elim (Bool-cases (past cursor x)) [
  | inl e ↦ ground (arith, e, a.0)
  | inr e ↦ find_past-Finds q cursor rs a.1 r (ground (arith, e))
]

next_of_prefixes-Finds :
    (q : InterceptorRegistration → Bool) (name : EventName) (cursor : Option (ℕ × Str))
    (m : Map Str (List InterceptorRegistration))
    → AllSets q m
    → Finds q (next_of_prefixes name cursor m)
unfolding next_of_prefixes
next_of_prefixes-Finds q name cursor [] a r h = ground arith
next_of_prefixes-Finds q name cursor ((p, rs) ∷ m) a r h =
    elim (Bool-cases (matches_prefix name p)) [
      | inl e ↦
          least-one q (find_past cursor rs) (next_of_prefixes name cursor m)
            (find_past-Finds q cursor rs a.0) (next_of_prefixes-Finds q name cursor m a.1) r
            (ground (arith, e))
      | inr e ↦ next_of_prefixes-Finds q name cursor m a.1 r (ground (arith, e))
    ]

module _ {V : Type 0} where
  -- The interceptor that is asked after a reply is past the cursor, in the order of priority and
  -- then connection id.
  pub next_for-past :
      (g : InterceptorRegistry) (e : Event V) (cursor : Option (ℕ × Str))
      (r : InterceptorRegistration)
      → next_for g e cursor ≡ some r
      → past cursor r ≡ true
  unfolding next_for next_in_set
  next_for-past g e cursor r h = elim (Option-cases (Map.get g.exacts (event_name e))) [
    | inl o ↦ next_of_prefixes-past (event_name e) cursor g.prefixes r (ground (arith, o))
    | inr (rs, o) ↦ elim (Option-cases (find_past cursor rs)) [
      | inl f ↦ next_of_prefixes-past (event_name e) cursor g.prefixes r (ground (arith, o, f))
      | inr (x, f) ↦ ground (arith, o, f, find_past-past cursor rs x f)
    ]
  ]

  next_for-Finds :
      (q : InterceptorRegistration → Bool) (g : InterceptorRegistry) (e : Event V)
      (cursor : Option (ℕ × Str))
      → AllSets q g.exacts
      → AllSets q g.prefixes
      → Finds q (next_for g e cursor)
  unfolding next_for next_in_set
  next_for-Finds q g e cursor xs ps r h = elim (Option-cases (Map.get g.exacts (event_name e))) [
    | inl o ↦ next_of_prefixes-Finds q (event_name e) cursor g.prefixes ps r (ground (arith, o))
    | inr (rs, o) ↦ elim (Option-cases (find_past cursor rs)) [
      | inl f ↦
          next_of_prefixes-Finds q (event_name e) cursor g.prefixes ps r (ground (arith, o, f))
      | inr (x, f) ↦ ground (
        arith,
        o,
        f,
        find_past-Finds q cursor rs (get-AllSets q g.exacts (event_name e) rs xs o) x f,
      )
    ]
  ]

  -- Once a connection's registrations are removed, it is asked about no event.
  pub next_for-remove_connection :
      (g : InterceptorRegistry) (c : Str) (e : Event V) (cursor : Option (ℕ × Str))
      (r : InterceptorRegistration)
      → next_for (remove_connection g c) e cursor ≡ some r
      → not (r.connection_id == c) ≡ true
  unfolding remove_connection
  next_for-remove_connection g c e cursor r h =
      next_for-Finds (λ (x : InterceptorRegistration). not (x.connection_id == c))
        (remove_connection g c) e cursor (without-AllSets c g.exacts) (without-AllSets c g.prefixes)
        r h
