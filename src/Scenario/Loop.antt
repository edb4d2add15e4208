-- ===== src/Scenario/Loop.antt =====
-- pkg/reconcilertest/scenario.go: `Test`.
use ofcir.Prelude.{
  ℕ, zero, suc, ◌*◌, leb, length, String, str_eq, Bool, true, false, List, [], ◌∷◌, Option, none,
  some, Exec, Error, errorf, Outcome, ok, err, panic, pure, crash, modify, ◌>>=◌, ◌>>◌, catch,
  if◌then◌else◌,
}
use ofcir.Prelude.Texts.{decimal, concat}
use ofcir.Scenario.{Run, NamespacedName, Handler, Scenario, Bench}
use ofcir.Scenario.Start.{mark_failed, fail_now, set_start_obj}

abbrev pub max_reconciles : ℕ
max_reconciles = 20

module _ {K O C T : Type 0} (bench : Bench K O C T) where
  abbrev pub on_client : {A : Type 0} → Exec C A → Exec (Run C) A
  on_client m s = let (r, c) = m s.client in (r, record s { client = c })

  -- `assert.NoError`, on a call whose value is not read
  abbrev pub assert_no_error : Exec (Run C) ℕ → Exec (Run C) ℕ
  assert_no_error m = catch m (λ e. modify (mark_failed bench) >> pure 0)

  -- the object after `Get`: nil where it is not found, and a zero value where another error marks
  -- the test as failed
  abbrev pub latest : T → Exec C T → Exec (Run C) (Option T)
  latest zero_value get = catch (on_client get >>= λ o. pure (some o)) (λ e.
      if bench.is_not_found e
      then pure none
      else modify (mark_failed bench) >> pure (some zero_value))

  abbrev pub run_action :
      Option (Option T → Exec (Run C) (Unit {0})) → Option T → Exec (Run C) (Unit {0})
  run_action none o = pure tt
  run_action (some action) o = action o

  module _ (zero_value : T) (start : NamespacedName) where
    -- A round of the loop, up to the condition: a reconciliation, and the object after it. The
    -- action follows where the condition holds.
    unfoldable pub round : Handler C T → Exec (Run C) Bool
    round h = do
      assert_no_error (on_client (bench.reconcile start))
      o ← latest zero_value (bench.get start)
      is_met ← h.wait_for o
      if is_met then run_action h.action o >> pure true else pure false

    abbrev pub label_of : ℕ → Handler C T → String
    label_of i h =
        if str_eq h.wait_for_label ""
        then concat "waiting condition #" (decimal i)
        else h.wait_for_label

    abbrev pub too_many : ℕ → Handler C T → Error
    too_many i h = errorf "`%s` not satisfied, too many reconcile loops" (label_of i h ∷ [])

    -- the end of a round, where `h` is the handler number `i` now
    abbrev pub count_round :
        (Exec (Run C) (Option (Unit {0}))) → ℕ → Handler C T → ℕ → Exec (Run C) (Option (Unit {0}))
    count_round again i h counter =
        if leb max_reconciles (suc counter) then fail_now bench (too_many i h) else again

    -- The loop, with the handlers from number `i` on and the counter of its rounds. Without fuel
    -- it stops with none.
    unfoldable pub loop :
        ℕ → ℕ → Handler C T → List (Handler C T) → ℕ → Exec (Run C) (Option (Unit {0}))
    unfolding round
    loop zero i h hs counter s = (ok none, s)
    loop (suc fuel) i h [] counter s =
        let again = count_round (loop fuel i h [] (suc counter)) i h counter in
        (do is_met ← round h; if is_met then pure (some tt) else again) s
    loop (suc fuel) i h (k ∷ ks) counter s =
        let again = count_round (loop fuel i h (k ∷ ks) (suc counter)) i h counter in
        let next = count_round (loop fuel (suc i) k ks 1) (suc i) k 0 in
        (do is_met ← round h; if is_met then next else again) s

    -- fuel for the loop over `n` handlers
    abbrev pub enough : ℕ → ℕ
    enough n = max_reconciles * n

    abbrev pub run_handlers : List (Handler C T) → Exec (Run C) (Option (Unit {0}))
    run_handlers [] = crash
    run_handlers (h ∷ hs) = loop (enough (suc (length hs))) 0 h hs 0

  -- the loop over the schemes
  unfoldable pub add_schemes : List (K → Outcome K) → K → Exec (Run C) K
  add_schemes [] scheme s = pure scheme s
  add_schemes (add ∷ adds) scheme s = elim (add scheme) [
    | ok scheme' ↦ add_schemes adds scheme' s
    | err e ↦ fail_now bench e s
    | panic ↦ (panic, s)
  ]

  abbrev pub objects_of : Option (List O) → Exec (Run C) (List O)
  objects_of none = crash
  objects_of (some objs) = pure objs

  -- `Test`, where `zero_value` is `new(T)`; there is no client before it is built
  unfoldable pub test : T → Scenario K O C T → Exec (Run C) (Option (Unit {0}))
  unfolding loop add_schemes
  test zero_value sc = do
    scheme ← add_schemes sc.schemes bench.new_scheme
    objs ← objects_of sc.setup_handler
    modify (λ s. record s { client = bench.build scheme objs })
    start ← set_start_obj bench sc.start_obj objs
    run_handlers zero_value start sc.handlers
