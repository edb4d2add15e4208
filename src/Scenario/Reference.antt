-- ===== src/Scenario/Reference.antt =====
-- pkg/reconcilertest/scenario.go: `Test` as a sequence of steps, without fuel and counters.
use ofcir.Prelude.{
  ℕ, zero, suc, ◌+◌, ◌*◌, ◌≤◌, length, Bool, true, false, List, [], ◌∷◌, Option, some, Exec,
  Outcome, ok, err, panic, pure, crash, modify, ◌≡◌, refl, ◌>>=◌, ◌>>◌, if◌then◌else◌, leb, arith,
}
use ofcir.Scenario.{Run, NamespacedName, Handler, Scenario, Bench}
use ofcir.Scenario.Start.{fail_now, set_start_obj}
use ofcir.Scenario.Loop.{
  max_reconciles, round, too_many, count_round, loop, run_handlers, add_schemes, objects_of, test,
}

-- to end with the value that stands for the end of the loop
abbrev pub complete : {S : Type 0} → Exec S (Unit {0}) → Exec S (Option (Unit {0}))
complete m = m >>= λ u. pure (some u)

-- two actions that go on in the same way
bind-complete :
    {S A : Type 0} (m : Exec S A) (f : A → Exec S (Option (Unit {0}))) (g : A → Exec S (Unit {0}))
    → ((a : A) (s : S) → f a s ≡ complete (g a) s)
    → (s : S) → (m >>= f) s ≡ complete (m >>= g) s
bind-complete {S} {A} m f g h s = go (m s).0 (m s).1
  where
    go : (r : Outcome A) (t : S) → ◌>>=◌ (λ _. (r, t)) f s ≡ complete (◌>>=◌ (λ _. (r, t)) g) s
    go (ok a) t = h a t
    go (err e) t = refl
    go panic t = refl

branch-complete :
    {S : Type 0} (m : Exec S Bool) (f f' : Exec S (Option (Unit {0}))) (g g' : Exec S (Unit {0}))
    → ((s : S) → f s ≡ complete g s)
    → ((s : S) → f' s ≡ complete g' s)
    → (s : S) → (m >>= λ b. if b then f else f') s ≡ complete (m >>= λ b. if b then g else g') s
branch-complete {S} m f f' g g' h h' =
    bind-complete m (λ b. if b then f else f') (λ b. if b then g else g') go
  where
    go : (b : Bool) (t : S) → (if b then f else f') t ≡ complete (if b then g else g') t
    go true = h
    go false = h'

module _ {K O C T : Type 0} (bench : Bench K O C T) (zero_value : T) where
  module _ (start : NamespacedName) where
    -- at most `tries` rounds, up to one with the condition, and then `next`
    abbrev pub attempt : ℕ → ℕ → Handler C T → Exec (Run C) (Unit {0}) → Exec (Run C) (Unit {0})
    attempt zero i h next = fail_now bench (too_many bench zero_value start i h)
    attempt (suc tries) i h next = do
      is_met ← round bench zero_value start h
      if is_met then next else attempt tries i h next

    -- the handlers one after the other: `tries` rounds for the first, and 19 for each other one
    abbrev pub steps : ℕ → ℕ → Handler C T → List (Handler C T) → Exec (Run C) (Unit {0})
    steps tries i h [] = attempt tries i h (pure tt)
    steps tries i h (k ∷ ks) = attempt tries i h (steps 19 (suc i) k ks)

    abbrev pub run_steps : List (Handler C T) → Exec (Run C) (Unit {0})
    run_steps [] = crash
    run_steps (h ∷ hs) = steps max_reconciles 0 h hs

    -- the end of a round without the condition, where the loop goes on as the steps do
    count_round-attempt :
        (i tries counter : ℕ) (h : Handler C T) (again : Exec (Run C) (Option (Unit {0})))
        (next : Exec (Run C) (Unit {0})) (s : Run C)
        → counter + suc tries ≡ max_reconciles
        → ((left : ℕ) → tries ≡ suc left → again s ≡ complete (attempt tries i h next) s)
        → count_round bench zero_value start again i h counter s
          ≡ complete (attempt tries i h next) s
    count_round-attempt i zero counter h again next s e k =
        let over : leb max_reconciles (suc counter) ≡ true = ground arith in rw over refl
    count_round-attempt i (suc left) counter h again next s e k =
        let under : leb max_reconciles (suc counter) ≡ false = ground arith in
        rw under (k left refl)

    loop-steps :
        (fuel i tries counter : ℕ) (h : Handler C T) (hs : List (Handler C T)) (s : Run C)
        → counter + suc tries ≡ max_reconciles
        → suc tries + 19 * length hs ≤ fuel
        → loop bench zero_value start fuel i h hs counter s ≡ complete (steps (suc tries) i h hs) s
    unfolding loop
    loop-steps zero i tries counter h hs s e l = absurd (omega arith)
    loop-steps (suc fuel) i tries counter h [] s e l =
        let again = loop bench zero_value start fuel i h [] (suc counter) in
        branch-complete (round bench zero_value start h) (pure (some tt))
          (count_round bench zero_value start again i h counter) (pure tt)
          (attempt tries i h (pure tt)) (λ t. refl)
          (λ t. count_round-attempt i tries counter h again (pure tt) t e (λ left d.
            rw d (loop-steps fuel i left (suc counter) h [] t (omega arith) (omega arith))))
          s
    loop-steps (suc fuel) i tries counter h (k ∷ ks) s e l =
        let again = loop bench zero_value start fuel i h (k ∷ ks) (suc counter) in
        let first = loop bench zero_value start fuel (suc i) k ks 1 in
        let next = steps 19 (suc i) k ks in
        branch-complete (round bench zero_value start h)
          (count_round bench zero_value start first (suc i) k 0)
          (count_round bench zero_value start again i h counter) next (attempt tries i h next)
          (λ t. loop-steps fuel (suc i) 18 1 k ks t (omega arith) (omega arith))
          (λ t. count_round-attempt i tries counter h again next t e (λ left d.
            rw d (loop-steps fuel i left (suc counter) h (k ∷ ks) t (omega arith) (omega arith))))
          s

    run_handlers-run_steps :
        (hs : List (Handler C T)) (s : Run C)
        → run_handlers bench zero_value start hs s ≡ complete (run_steps hs) s
    run_handlers-run_steps [] s = refl
    run_handlers-run_steps (h ∷ hs) s =
        loop-steps (20 * suc (length hs)) 0 19 0 h hs s (omega arith) (omega arith)

  -- `Test` with the steps in the place of the loop
  unfoldable pub reference : Scenario K O C T → Exec (Run C) (Unit {0})
  reference sc = do
    scheme ← add_schemes bench sc.schemes bench.new_scheme
    objs ← objects_of bench sc.setup_handler
    modify (λ s. record s { client = bench.build scheme objs })
    start ← set_start_obj bench sc.start_obj objs
    run_steps start sc.handlers

  -- A test of whatever scenario ends, within 20 rounds for each of its handlers, as its steps do:
  -- the first handler has 20 reconciliations to meet its condition, but each later one 19.
  pub test-reference :
      (sc : Scenario K O C T) (s : Run C) → test bench zero_value sc s ≡ complete (reference sc) s
  unfolding test reference
  test-reference sc = bind-complete (add_schemes bench sc.schemes bench.new_scheme) _ _ λ scheme.
      bind-complete (objects_of bench sc.setup_handler) _ _ λ objs t.
        bind-complete (set_start_obj bench sc.start_obj objs) _ _
          (λ start. run_handlers-run_steps start sc.handlers)
          (record t { client = bench.build scheme objs })
