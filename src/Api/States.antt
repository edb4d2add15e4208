-- ===== src/Api/States.antt =====
-- api/v1/ciresource_types.go: `==` on states.
use ofcir.Prelude.{◌≡◌, refl, true, arith, eq_iff}
use ofcir.Api.{CiResourceState, state_none, other, state_eq}

pub state_eq_self : (a : CiResourceState) → state_eq a a ≡ true
unfolding state_eq
state_eq_self (other s) = (eq_iff s s).1 refl
state_eq_self state_none = refl
state_eq_self _ = refl

pub state_eq_of_eq : (a b : CiResourceState) → a ≡ b → state_eq a b ≡ true
state_eq_of_eq a b h = rw h (state_eq_self b)

pub eq_of_state_eq : (a b : CiResourceState) → state_eq a b ≡ true → a ≡ b
unfolding state_eq
eq_of_state_eq (other s) (other t) h = ground (arith, eq_iff s t)
eq_of_state_eq state_none state_none h = refl
eq_of_state_eq _ _ h = ground arith
