-- ===== src/Examples/Scenarios.antt =====
-- A reconciler that counts its calls, and scenarios that wait for the count.
use ofcir.Prelude.{
  ◌≡◌, refl, ℕ, suc, ltb, String, Bool, true, false, [], ◌∷◌, Option, none, some, Exec, errorf, ok,
  err, pure,
}
use ofcir.Scenario.{Run, Scenario, Bench, new, setup, reconcile_until}
use ofcir.Scenario.Start.{set_start_obj}
use ofcir.Scenario.Loop.{test}
use ofcir.Scenario.Reference.{complete, reference, test-reference}

abbrev bench : Bench (Unit {0}) String ℕ ℕ
bench = record {
  new_scheme = tt;
  build = λ scheme objs. 0;
  reconcile = λ start c. (ok 0, suc c);
  get = λ start c. (ok c, c);
  is_not_found = λ e. false;
  accessor = λ o. ok (record { name = o; namespace = "ofcir-system" });
  is_target = λ o. true;
}

-- the count is past `n`
abbrev past : ℕ → Option ℕ → Exec (Run ℕ) Bool
past n none = pure false
past n (some c) = pure (ltb n c)

abbrev waiting : ℕ → ℕ → Scenario (Unit {0}) String ℕ ℕ
unfolding setup reconcile_until
waiting first second =
    reconcile_until (past second) ("done" ∷ [])
      (reconcile_until (past first) [] (setup ("pool" ∷ []) new))

abbrev fresh : Run ℕ
fresh = record { client = 0; failed = false }

-- the first condition is met in the 20th round, the second one in the 19th after it
both_met :
    test bench 0 (waiting 19 38) fresh ≡ (ok (some tt), record { client = 39; failed = false })
unfolding setup reconcile_until test set_start_obj
both_met = refl

-- a second condition that needs 20 rounds, as the first one may
second_starved : test bench 0 (waiting 0 20) fresh ≡ (
  err (errorf "`%s` not satisfied, too many reconcile loops" ("done" ∷ [])),
  record { client = 20; failed = true },
)
unfolding setup reconcile_until test set_start_obj
second_starved = refl

test-reference_example :
    test bench 0 (waiting 19 38) fresh ≡ complete (reference bench 0 (waiting 19 38)) fresh
test-reference_example = test-reference bench 0 (waiting 19 38) fresh
