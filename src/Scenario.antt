-- ===== src/Scenario.antt =====
-- pkg/reconcilertest/scenario.go: a test of a reconciler, step by step, against a fake client.
pub mod Start
pub mod Loop
pub mod Reference
use ofcir.Prelude.{
  ℕ, zero, suc, ◌+◌, leb, String, str_eq, Bool, true, false, List, [], ◌∷◌, ◌++◌, Option, none,
  some, Exec, Error, errorf, Outcome, ok, err, panic, pure, crash, modify, ◌>>=◌, ◌>>◌,
  if◌then◌else◌,
}
use ofcir.Prelude.Texts.{decimal, concat}

-- A running test: the fake client, and whether the test is marked as failed. A test that stops
-- early, by `t.Fatal` or `assert.FailNow`, has an error as its outcome.
pub record Run (C : Type 0) : Type 0 where
  pub client : C
  pub failed : Bool

pub record NamespacedName : Type 0 where
  pub name : String
  pub namespace : String

-- `reconcileHandler`. An object is none where the code passes nil.
pub record Handler (C T : Type 0) : Type 0 where
  pub wait_for : Option T → Exec (Run C) Bool
  pub wait_for_label : String
  pub action : Option (Option T → Exec (Run C) (Unit {0}))
  pub action_label : String

-- `scenario`, where `K` is a scheme and `O` an object; the function of `Setup`, which has no
-- arguments, is the list that it returns.
pub record Scenario (K O C T : Type 0) : Type 0 where
  pub schemes : List (K → Outcome K)
  pub setup_handler : Option (List O)
  pub start_obj : NamespacedName
  pub handlers : List (Handler C T)

-- What the test uses of the fake client, of its builder and of the reconciler under test, which
-- has the client in its field.
pub record Bench (K O C T : Type 0) : Type 0 where
  pub new_scheme : K
  pub build : K → List O → C
  pub reconcile : NamespacedName → Exec C ℕ
  pub get : NamespacedName → Exec C T
  pub is_not_found : Error → Bool
  -- `meta.Accessor`, and the assertion to the type of the reconciled objects
  pub accessor : O → Outcome NamespacedName
  pub is_target : O → Bool

-- `strings.Join(labels, ", ")`
unfoldable pub join_labels : List String → String
join_labels [] = ""
join_labels (l ∷ []) = l
join_labels (l ∷ m ∷ ls) = concat l (concat ", " (join_labels (m ∷ ls)))

abbrev first_or : String → List String → String
first_or d [] = d
first_or d (n ∷ ns) = n

-- the last handler gets the action; there is a panic where there is none
unfoldable pub set_last :
    {C T : Type 0}
    → (Option T → Exec (Run C) (Unit {0}))
    → String
    → List (Handler C T)
    → Outcome (List (Handler C T))
set_last action label [] = panic
set_last action label (h ∷ []) = ok (record h { action = some action; action_label = label } ∷ [])
set_last action label (h ∷ k ∷ hs) = elim (set_last action label (k ∷ hs)) [
  | ok ks ↦ ok (h ∷ ks)
  | err e ↦ err e
  | panic ↦ panic
]

module _ {K O C T : Type 0} where
  -- `New`
  abbrev pub new : Scenario K O C T
  new = record {
    schemes = [];
    setup_handler = none;
    start_obj = record { name = ""; namespace = "" };
    handlers = [];
  }

  -- `WithSchemes`
  unfoldable pub with_schemes : List (K → Outcome K) → Scenario K O C T → Scenario K O C T
  with_schemes schemes s = record s { schemes = s.schemes ++ schemes }

  -- `Setup`
  unfoldable pub setup : List O → Scenario K O C T → Scenario K O C T
  setup objs s = record s { setup_handler = some objs }

  -- `StartReconcileFor`
  unfoldable pub start_reconcile_for : String → List String → Scenario K O C T → Scenario K O C T
  start_reconcile_for name namespace s = record s {
    start_obj = record { name = name; namespace = first_or s.start_obj.namespace namespace };
  }

  -- `ReconcileUntil`
  unfoldable pub reconcile_until :
      (Option T → Exec (Run C) Bool) → List String → Scenario K O C T → Scenario K O C T
  unfolding join_labels
  reconcile_until wait_for labels s = record s {
    handlers =
        s.handlers
        ++ record {
          wait_for = wait_for;
          wait_for_label = join_labels labels;
          action = none;
          action_label = "";
        }
          ∷ [];
  }

  -- `Then`
  unfoldable pub then_do :
      (Option T → Exec (Run C) (Unit {0}))
      → List String
      → Scenario K O C T
      → Outcome (Scenario K O C T)
  unfolding set_last join_labels
  then_do action labels s = elim (set_last action (join_labels labels) s.handlers) [
    | ok hs ↦ ok (record s { handlers = hs })
    | err e ↦ err e
    | panic ↦ panic
  ]
