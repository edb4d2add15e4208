-- ===== src/Examples/Runs.antt =====
-- The theorems on the state machine, at concrete resources.
use ofcir.Prelude.{◌≡◌, refl, pos, true, false, ◌*◌, eq_ℤ, ◌||◌}
use ofcir.Api.{available, in_use, provisioning, cleaning, delete, state_eq, is_fallback_pool}
use ofcir.Resource.{no_secret}
use ofcir.Fsm.Machine.{second, fallback_resource_id}
use ofcir.Fsm.Handlers.{new_ciresource_fsm, handle_state_available, drop_finalizer}
use ofcir.Fsm.Process.{Processed, start, process}
use ofcir.Fsm.Table.{run, visit}
use ofcir.Fsm.Flags.{Effect, process-Effect}
use ofcir.Fsm.Diagram.{Follows, process-Follows}
use ofcir.Fsm.Release.{is_ok, is_placeholder, is_released, delete_exact, cleaning_fallback}
use ofcir.Fsm.Safety.{IsCalm}
use ofcir.Fsm.Live.{provisioning_live}
use ofcir.Examples.Fixtures.{cir_in, small, spare, util, ready, always_ready, factories, in_pool}

abbrev moved : Processed
moved = record { resource_dirty = false; status_dirty = true; retry_after = 60 * second }

process-Effect_example :
    Effect
      (cir_in "cir-0001" "small" in_use available)
      (run factories util
        (pos 5000)
        small
        no_secret
        (cir_in "cir-0001" "small" in_use available)
        0).1.cir
      moved
unfolding process new_ciresource_fsm state_eq handle_state_available
process-Effect_example =
    process-Effect factories util (pos 5000) small no_secret
      (cir_in "cir-0001" "small" in_use available) 0 moved refl

process-Follows_example :
    Follows
      (cir_in "cir-0001" "small" in_use available)
      (run factories util
        (pos 5000)
        small
        no_secret
        (cir_in "cir-0001" "small" in_use available)
        0).1.cir
      moved
unfolding process new_ciresource_fsm state_eq handle_state_available
process-Follows_example =
    process-Follows factories util (pos 5000) small no_secret
      (cir_in "cir-0001" "small" in_use available) 0 moved refl

provisioning_live_example :
    let m =
      (visit provisioning
        (in_pool small)
        (start (cir_in "cir-0001" "small" available provisioning) 0)).1 in
    let c = (visit m.cir.status.state (in_pool small) (start m.cir m.world)).1.cir in
    (c.status.state ≡ available)
    × (c.status.resource_id ≡ "m-1")
    × (c.status.address ≡ "10.0.0.1")
    × (c.status.extra ≡ "{}")
    × (c.status.provider_info ≡ "info")
    × (c.spec ≡ (cir_in "cir-0001" "small" available provisioning).spec)
unfolding is_fallback_pool eq_ℤ
provisioning_live_example =
    provisioning_live (in_pool small) (cir_in "cir-0001" "small" available provisioning) 0 1 2 ready
      ready refl refl refl

delete_exact_example :
    let cir = cir_in "cir-0001" "spare" available delete in
    (is_ok (visit delete (in_pool spare) (start cir 0)).0
      ≡ (is_placeholder (in_pool spare) cir 0 || is_released (in_pool spare) cir 0))
    × ((is_placeholder (in_pool spare) cir 0 || is_released (in_pool spare) cir 0) ≡ true
        → ((visit delete (in_pool spare) (start cir 0)).1.cir ≡ drop_finalizer util cir)
          × ((visit delete (in_pool spare) (start cir 0)).1.resource_dirty ≡ true))
    × ((is_placeholder (in_pool spare) cir 0 || is_released (in_pool spare) cir 0) ≡ false
        → ((visit delete (in_pool spare) (start cir 0)).1.cir ≡ cir)
          × ((visit delete (in_pool spare) (start cir 0)).1.resource_dirty ≡ false))
delete_exact_example =
    delete_exact (in_pool spare) (cir_in "cir-0001" "spare" available delete) 0 refl

cleaning_fallback_example :
    let cir = cir_in "cir-0001" "spare" available cleaning in
    (is_ok (visit cleaning (in_pool spare) (start cir 0)).0
      ≡ (is_placeholder (in_pool spare) cir 0 || is_released (in_pool spare) cir 0))
    × ((is_placeholder (in_pool spare) cir 0 || is_released (in_pool spare) cir 0) ≡ true
        → ((visit cleaning (in_pool spare) (start cir 0)).1.cir.status.resource_id
            ≡ fallback_resource_id)
          × ((visit cleaning (in_pool spare) (start cir 0)).1.cir.status.address ≡ ""))
    × ((is_placeholder (in_pool spare) cir 0 || is_released (in_pool spare) cir 0) ≡ false
        → (visit cleaning (in_pool spare) (start cir 0)).1.cir ≡ cir)
    × ((visit cleaning (in_pool spare) (start cir 0)).1.world ≡ 1)
unfolding is_fallback_pool eq_ℤ
cleaning_fallback_example =
    cleaning_fallback (in_pool spare) (cir_in "cir-0001" "spare" available cleaning) 0 refl

always_ready-IsCalm : IsCalm always_ready
always_ready-IsCalm = record {
  acquire = λ n a b w. refl;
  acquire_completed = λ id w. refl;
  clean = λ id w. refl;
  clean_completed = λ id w. refl;
  release = λ id w. refl;
}
