-- ===== src/Fsm/Live.antt =====
-- controllers/ciresource_fsm.go: what a provider that succeeds leads to, over several runs.
use ofcir.Prelude.{◌≡◌, true, false, ok, arith}
use ofcir.Api.{CiResource, provisioning, available, in_use, is_fallback_pool}
use ofcir.Api.States.{state_eq_of_eq}
use ofcir.Provider.{Resource}
use ofcir.Fsm.Machine.{Context, Machine}
use ofcir.Fsm.Handlers.{
  new_ciresource_fsm, handle_state_provisioning, handle_state_provisioning_wait,
  handle_state_in_use, handle_state_cleaning, handle_state_cleaning_wait,
}
use ofcir.Fsm.Process.{start, select}
use ofcir.Fsm.Table.{visit}

module _ {W : Type 0} (ctx : Context W) (cir : CiResource) (w w' w'' : W) where
  -- the machine of the run that follows one that ended in `m`
  abbrev pub again : Machine W → Machine W
  again m = start m.cir m.world

  -- In a pool that is no fallback pool: where the provider accepts the request with an id and
  -- reports that id as ready, two runs lead from `provisioning` to `available`, with the id, the
  -- address and the metadata that the provider gave and the provider info of the pool.
  pub provisioning_live :
      (res ready : Resource)
      → is_fallback_pool ctx.pool ≡ false
      → ctx.provider.acquire ctx.pool.spec.size ctx.pool.meta.name ctx.pool.spec.type_ w
        ≡ (ok res, w')
      → ctx.provider.acquire_completed res.id w' ≡ (ok (true, ready), w'')
      → let m = (visit provisioning ctx (start cir w)).1 in
        let c = (visit m.cir.status.state ctx (again m)).1.cir in
        (c.status.state ≡ available)
        × (c.status.resource_id ≡ res.id)
        × (c.status.address ≡ ready.address)
        × (c.status.extra ≡ ready.metadata)
        × (c.status.provider_info ≡ ctx.pool.spec.provider_info)
        × (c.spec ≡ cir.spec)
  unfolding select new_ciresource_fsm handle_state_provisioning handle_state_provisioning_wait
  provisioning_live res ready f a b = ground arith

  -- In a pool that is no fallback pool: where the provider cleans the resource and reports it as
  -- clean, a release leads in three runs from `in use` back to `available`, with the same id
  -- and address.
  pub release_live :
      is_fallback_pool ctx.pool ≡ false
      → cir.spec.state ≡ available
      → ctx.provider.clean cir.status.resource_id w ≡ (ok tt, w')
      → ctx.provider.clean_completed cir.status.resource_id w' ≡ (ok true, w'')
      → let m = (visit in_use ctx (start cir w)).1 in
        let n = (visit m.cir.status.state ctx (again m)).1 in
        let c = (visit n.cir.status.state ctx (again n)).1.cir in
        (c.status.state ≡ available)
        × (c.status.resource_id ≡ cir.status.resource_id)
        × (c.status.address ≡ cir.status.address)
        × (c.spec ≡ cir.spec)
  unfolding select new_ciresource_fsm handle_state_in_use handle_state_cleaning
      handle_state_cleaning_wait
  release_live f s a b = ground (arith, state_eq_of_eq cir.spec.state available s)
