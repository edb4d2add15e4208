-- ===== src/Scenario/Start.antt =====
-- pkg/reconcilertest/scenario.go: `setStartObj`, and the preparation of a test.
use ofcir.Prelude.{
  String, str_eq, true, List, [], ◌∷◌, Exec, Error, errorf, ok, err, panic, pure, raise, modify,
  ◌>>=◌, ◌>>◌, if◌then◌else◌,
}
use ofcir.Scenario.{Run, NamespacedName, Bench}

module _ {K O C T : Type 0} (bench : Bench K O C T) where
  abbrev pub mark_failed : Run C → Run C
  mark_failed s = record s { failed = true }

  -- `assert.FailNow`, and `t.Fatal` and `t.Fatalf`
  abbrev pub fail_now : {A : Type 0} → Error → Exec (Run C) A
  fail_now e = modify mark_failed >> raise e

  -- `meta.Accessor(o)` with the assertion on its error; after a failed one the code reads the name
  -- of a nil interface
  unfoldable pub accessed : O → Exec (Run C) NamespacedName
  accessed o s = elim (bench.accessor o) [
    | ok n ↦ (ok n, s)
    | err e ↦ (panic, mark_failed s)
    | panic ↦ (panic, s)
  ]

  abbrev pub no_start : Error
  no_start = errorf "No eligible starting object found for the reconciler" []

  -- the search for the first object of the reconciled type
  unfoldable pub first_target : List O → Exec (Run C) NamespacedName
  unfolding accessed
  first_target [] = fail_now no_start
  first_target (o ∷ os) =
      let rest = first_target os in if bench.is_target o then accessed o else rest

  abbrev pub not_found : NamespacedName → Error
  not_found start =
      if str_eq start.namespace ""
      then errorf "Object %s not found in the current cache" (start.name ∷ [])
      else errorf "Object %s:%s not found in the current cache" (start.namespace ∷ start.name ∷ [])

  -- the start with the namespace of a match, where it has none
  abbrev pub with_namespace : String → NamespacedName → NamespacedName
  with_namespace ns start =
      if str_eq start.namespace "" then record start { namespace = ns } else start

  -- The search for the named object. A namespace that the loop has filled in stays.
  unfoldable pub find_named : NamespacedName → List O → Exec (Run C) NamespacedName
  unfolding accessed
  find_named start [] s = fail_now (not_found start) s
  find_named start (o ∷ os) s =
      let rest = λ (t : NamespacedName). find_named t os in
      (do
        n ← accessed o
        if str_eq start.name n.name
            then (if str_eq (with_namespace n.namespace start).namespace n.namespace
                then pure (with_namespace n.namespace start)
                else rest (with_namespace n.namespace start))
            else rest start)
        s

  -- `setStartObj`: the object that the test follows
  unfoldable pub set_start_obj : NamespacedName → List O → Exec (Run C) NamespacedName
  unfolding first_target find_named
  set_start_obj start objs =
      if str_eq start.name "" then first_target objs else find_named start objs
