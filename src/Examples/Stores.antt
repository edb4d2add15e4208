-- ===== src/Examples/Stores.antt =====
-- A cluster that holds one resource, and the theorem on its reconciliation.
use ofcir.Prelude.{
  ◌≡◌, refl, ◌⊎◌, ℕ, pos, eq_ℤ, ltb_ℤ, false, [], ◌∷◌, Option, none, some, Exec, ok, err, foreign,
  pure, arith,
}
use ofcir.Api.{CiResource, available, in_use, state_eq, set_spec_state, is_fallback_pool}
use ofcir.Fsm.Handlers.{
  new_ciresource_fsm, handle_state_available, handle_state_in_use, check_timeout, time_sub,
}
use ofcir.Kube.{Client, Env}
use ofcir.Resource.{no_secret, reconcile_cir, get_pool, run_fsm, save}
use ofcir.Resource.Asked.{SpecLaws, IsInt64, Released, reconcile-Released}
use ofcir.Resource.Stored.{StoreLaws, Lawful, reconcile-Lawful}
use ofcir.Fsm.Process.{process}
use ofcir.Examples.Fixtures.{cir_in, small, util, factories}

abbrev write_spec : CiResource → Exec (Option CiResource) CiResource
write_spec cir none = (err (foreign "not found"), none)
write_spec cir (some old) = (ok cir, some (record cir { status = old.status }))

abbrev write_status : CiResource → Exec (Option CiResource) CiResource
write_status cir none = (err (foreign "not found"), none)
write_status cir (some old) = (ok cir, some (record old { status = cir.status }))

abbrev client : Client (Option CiResource)
client = record {
  get_cir = λ ns name c. elim c [
    | none ↦ (err (foreign "not found"), none)
    | some cir ↦ (ok cir, some cir)
  ];
  get_pool = λ ns name. pure small;
  get_secret = λ ns name. pure no_secret;
  list_cirs = λ ns c. elim c [ none ↦ (ok [], none) | some cir ↦ (ok (cir ∷ []), some cir) ];
  create_cir = λ cir c. (ok tt, some cir);
  update_cir = write_spec;
  update_cir_status = write_status;
  update_pool = λ pool. pure pool;
  update_pool_status = λ pool. pure pool;
  delete_all_cirs = λ ns label c. (ok tt, none);
  is_not_found = λ e. false;
  clock = λ c. pos 5000;
}

client-StoreLaws : StoreLaws client (λ c. c)
client-StoreLaws = record {
  pool_read = λ ns n c. refl;
  secret_read = λ ns n c. refl;
  spec_write = λ cir c old new e h. spec_kept cir c old new e h;
  status_write = λ cir c old new e h. status_written cir c old new e h;
}
  where
    spec_kept :
        (cir : CiResource) (c : Option CiResource) (old new : CiResource)
        → c ≡ some old
        → (write_spec cir c).1 ≡ some new
        → new.status ≡ old.status
    spec_kept cir none old new e h = cc
    spec_kept cir (some x) old new e h = ground arith

    status_written :
        (cir : CiResource) (c : Option CiResource) (old new : CiResource)
        → c ≡ some old
        → (write_status cir c).1 ≡ some new
        → (new.status ≡ old.status) ⊎ (new.status ≡ cir.status)
    status_written cir none old new e h = absurd (cc)
    status_written cir (some x) old new e h = ground arith

abbrev env : Env (Option CiResource) ℕ
env = record { client = client; factories = factories; util = util }

abbrev wanted : CiResource
wanted = cir_in "cir-0001" "small" in_use available

-- the stored resource after its acquisition was seen
abbrev taken : CiResource
taken = record wanted {
  status = record wanted.status { state = in_use; last_updated = some (pos 5000) };
}

reconcile-Lawful_example : Lawful wanted taken
unfolding reconcile_cir get_pool run_fsm save process new_ciresource_fsm state_eq
    handle_state_available
reconcile-Lawful_example =
    reconcile-Lawful env (λ c. c) client-StoreLaws wanted taken
      (record { cluster = some wanted; outside = 0 }) refl refl

client-SpecLaws : SpecLaws client (λ c. c)
client-SpecLaws = record {
  spec_written = λ cir c old new e h. written cir c old new e h;
  spec_kept = λ cir c old new e h. kept cir c old new e h;
}
  where
    written :
        (cir : CiResource) (c : Option CiResource) (old new : CiResource)
        → c ≡ some old
        → (write_spec cir c).1 ≡ some new
        → (new.spec ≡ old.spec) ⊎ (new.spec ≡ cir.spec)
    written cir none old new e h = absurd (cc)
    written cir (some x) old new e h = ground arith

    kept :
        (cir : CiResource) (c : Option CiResource) (old new : CiResource)
        → c ≡ some old
        → (write_status cir c).1 ≡ some new
        → new.spec ≡ old.spec
    kept cir none old new e h = absurd (cc)
    kept cir (some x) old new e h = ground arith

-- in use since 100, with a timeout of 1000, at 5000
abbrev kept_long : CiResource
kept_long = cir_in "cir-0001" "small" in_use in_use

abbrev ended : CiResource
ended = set_spec_state available kept_long

small_timeout :
    IsInt64 env
      (λ c. c)
      client-StoreLaws
      client-SpecLaws
      kept_long
      ended
      (record { cluster = some kept_long; outside = 0 })
unfolding get_pool
small_timeout pool secret behind g = ground arith

reconcile-Released_example :
    (ended.spec ≡ kept_long.spec)
    ⊎ Released env
        (λ c. c)
        client-StoreLaws
        client-SpecLaws
        kept_long
        ended
        (record { cluster = some kept_long; outside = 0 })
unfolding reconcile_cir get_pool run_fsm save process new_ciresource_fsm state_eq
    handle_state_in_use check_timeout is_fallback_pool eq_ℤ ltb_ℤ time_sub
reconcile-Released_example =
    reconcile-Released env (λ c. c) client-StoreLaws client-SpecLaws kept_long ended
      (record { cluster = some kept_long; outside = 0 }) small_timeout refl refl
