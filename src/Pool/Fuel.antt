-- ===== src/Pool/Fuel.antt =====
-- controllers/cipool_controller.go: how often the loop of `manageCIResourcesFor` runs.
use ofcir.Prelude.{
  ℕ, zero, suc, ◌+◌, ◌^◌, ◌<◌, ◌≤◌, ℤ, pos, pos_part, neg_part, ltb_ℤ, ◌+ℤ◌, ◌<ℤ◌, ◌≡◌, refl, false,
  Outcome, ok, err, panic, Exec, Bool-cases, inl, inr, lt_of_ltb_ℤ, arith,
}
use ofcir.Api.{CiPool}
use ofcir.Kube.{Client}
use ofcir.Pool.{new_cir, on_create, create_loop}

-- an `int`
abbrev pub IsInt : ℤ → Type 0
IsInt z = (pos_part z < 2 ^ 63) × (neg_part z ≤ 2 ^ 63)

-- `b` is at most `n` above `a`
abbrev Within : ℕ → ℤ → ℤ → Type 0
Within n a b = pos_part b + neg_part a ≤ pos_part a + neg_part b + n

-- a sum of an `int` and a number is an `int`, at most that number above it
sum-Within : (a : ℤ) (m : ℕ) → IsInt a → m < 2 ^ 63 → IsInt (a +ℤ pos m) × Within m a (a +ℤ pos m)
unfolding ◌+ℤ◌
sum-Within a m h l = ground arith

-- the step of the counter does not wrap below an `int`
step_exact :
    (i limit : ℤ)
    → IsInt i
    → IsInt limit
    → i <ℤ limit
    → IsInt (i +ℤ pos 1)
      × (pos_part (i +ℤ pos 1) + neg_part i ≡ pos_part i + neg_part (i +ℤ pos 1) + 1)
unfolding ◌+ℤ◌
step_exact i limit h k l = ground arith

module _ {C : Type 0} (client : Client C) (pool : CiPool) where
  -- a loop whose counter is not below the limit
  loop_over :
      (fuel : ℕ) (i limit : ℤ) (n : ℕ) (c : C)
      → ltb_ℤ i limit ≡ false
      → create_loop client fuel pool i limit n c ≡ (ok n, c)
  unfolding create_loop
  loop_over zero i limit n c h = refl
  loop_over (suc fuel) i limit n c h = rw h

  on_create_same :
      (rest rest' : ℕ → Exec C ℕ)
      → ((n : ℕ) (c : C) → rest n c ≡ rest' n c)
      → (n : ℕ) (r : Outcome (Unit {0})) (c : C)
      → on_create client rest n r c ≡ on_create client rest' n r c
  unfolding on_create
  on_create_same rest rest' k n (ok x) c = k (suc n) c
  on_create_same rest rest' k n (err e) c = k n c
  on_create_same rest rest' k n panic c = refl

  not_below : (i limit : ℤ) → Within 0 i limit → ltb_ℤ i limit ≡ false
  unfolding ltb_ℤ
  not_below i limit w = ground arith

  loop_enough :
      (fuel more : ℕ) (i limit : ℤ) (n : ℕ) (c : C)
      → IsInt i
      → IsInt limit
      → Within fuel i limit
      → fuel ≤ more
      → create_loop client more pool i limit n c ≡ create_loop client fuel pool i limit n c
  unfolding create_loop
  loop_enough zero more i limit n c h k w m = loop_over more i limit n c (not_below i limit w)
  loop_enough (suc fuel) zero i limit n c h k w m = absurd (omega arith)
  loop_enough (suc fuel) (suc more) i limit n c h k w m = elim (Bool-cases (ltb_ℤ i limit)) [
    | inl l ↦
        let (h', e) = step_exact i limit h k (lt_of_ltb_ℤ i limit l) in
        let next = i +ℤ pos 1 in
        let r = client.create_cir (new_cir pool i) c in
        rw l (
          on_create_same (create_loop client more pool next limit)
            (create_loop client fuel pool next limit)
            (λ n' d. loop_enough fuel more next limit n' d h' k (omega arith) (omega arith)) n r.0
            r.1)
    | inr l ↦ rw l
  ]

  -- The loop that makes `missing` resources, fewer than 2^63, ends within that number of rounds:
  -- more fuel changes nothing. The numbers of the resources start at any `int`, also where the
  -- limit wraps.
  pub create_loop_enough :
      (base : ℤ) (missing more n : ℕ) (c : C)
      → IsInt base
      → missing < 2 ^ 63
      → missing ≤ more
      → create_loop client more pool base (base +ℤ pos missing) n c
        ≡ create_loop client missing pool base (base +ℤ pos missing) n c
  create_loop_enough base missing more n c h l m =
      let (k, w) = sum-Within base missing h l in
      loop_enough missing more base (base +ℤ pos missing) n c h k w m
