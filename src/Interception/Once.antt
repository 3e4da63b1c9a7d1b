-- ===== src/Interception/Once.antt =====
-- The chain of interceptors of one publish: who is asked after each reply.
use shlop.Prelude.{
  ◌≡◌, refl, ap, ℕ, ◌≤◌, true, false, ◌&&◌, Bool-cases, inl, inr, Option, some, List, [], ◌∷◌,
  arith, All, eqb, ◌==◌, ==_iff,
}
use shlop.Prelude.Text.{Str, str_eq}
use shlop.Proto.Event.{Event}
use shlop.Interception.Registry.{
  InterceptorRegistration, InterceptorRegistry, str_ltb, past, next_for,
}

str_ltb_irrefl : (s : Str) → str_ltb s s ≡ false
unfolding str_ltb
str_ltb_irrefl [] = refl
str_ltb_irrefl (x ∷ s) = ground (arith, str_ltb_irrefl s)

-- The place of an interceptor in the chain, which the cursor holds after its reply.
abbrev pub place : InterceptorRegistration → Option (ℕ × Str)
place r = some (r.priority, r.connection_id)

-- The interceptors that are asked about one publish from a cursor on, one after another's reply; the
-- registry and the event may be others each time.
pub data Asked (V : Type 0) : Option (ℕ × Str) → List InterceptorRegistration → Type 0 where
  no_more : {cursor : Option (ℕ × Str)} → Asked V cursor []
  ask :
      {cursor : Option (ℕ × Str)} {rs : List InterceptorRegistration} (g : InterceptorRegistry)
      (e : Event V) (r : InterceptorRegistration)
      → next_for g e cursor ≡ some r
      → Asked V (place r) rs
      → Asked V cursor (r ∷ rs)

-- No later one has a lower priority, nor the same priority and connection.
unfoldable pub Comes : InterceptorRegistration → InterceptorRegistration → Type 0
Comes r x =
    (r.priority ≤ x.priority)
    × ((eqb r.priority x.priority && r.connection_id == x.connection_id) ≡ false)

unfoldable pub InOrder : List InterceptorRegistration → Type 0
InOrder [] = Unit
InOrder (r ∷ rs) = All (Comes r) rs × InOrder rs

pub past-Comes : (r x : InterceptorRegistration) → past (place r) x ≡ true → Comes r x
unfolding past Comes
past-Comes r x h = (
  ground (arith, h),
  elim (Bool-cases (r.connection_id == x.connection_id)) [
    | inl same ↦ ground (
      arith,
      h,
      same,
      ap (str_ltb r.connection_id) ((==_iff r.connection_id x.connection_id).0 same),
      str_ltb_irrefl r.connection_id,
    )
    | inr other ↦ ground (arith, other)
  ],
)
