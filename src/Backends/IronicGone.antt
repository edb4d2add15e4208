-- ===== src/Backends/IronicGone.antt =====
-- pkg/providers/ironic.go with controllers/ciresource_fsm.go: what a deletion does where Ironic
-- returns errors.
use ofcir.Prelude.{
  String, ◌≡◌, refl, true, false, some, none, Error, ok, err, panic, arith, [], ◌∷◌, List,
}
use ofcir.Api.{CiResource, delete, ofcir_finalizer, is_fallback_pool}
use ofcir.Fsm.Machine.{Context}
use ofcir.Fsm.Handlers.{drop_finalizer, new_ciresource_fsm, handle_state_delete}
use ofcir.Fsm.Process.{start, select}
use ofcir.Fsm.Table.{visit}
use ofcir.Fsm.Release.{is_ok, is_placeholder}
use ofcir.Fsm.Safety.{panics}
use ofcir.Backends.Ironic.{
  Value, text, Node, write, IronicProviderConfig, IronicApi, IronicState, mentions,
}
use ofcir.Backends.IronicNodes.{cir_name, get_node, update_node}
use ofcir.Backends.IronicProvider.{release, ironic_provider}

module _ {K W : Type 0} (api : IronicApi K W) (config : IronicProviderConfig) (id : String)
    (s : IronicState K W) (e : Error) (expected : mentions "Authentication failed" e ≡ false) where
  release-panics :
      (w : W)
      → api.get s.client id s.outside ≡ (err e, w)
      → api.extra_beside e ≡ none
      → (release api config id s).0 ≡ panic
  unfolding release get_node
  release-panics w g x = rw (g, expected, x) refl

  release_unchecked :
      (w w' : W) (n : Node) (m : List (String × Value))
      → api.get s.client id s.outside ≡ (ok n, w)
      → n.extra ≡ some m
      → api.replace s.client id (("/extra", write cir_name (text "") m) ∷ []) w ≡ (err e, w')
      → release api config id s ≡ (ok tt, record s { outside = w' })
  unfolding release get_node update_node
  release_unchecked w w' n m g x u = rw (g, x, u, expected) refl

-- a provider whose release panics
visit_delete-panics :
    {V : Type 0} (ctx : Context V) (cir : CiResource) (v : V)
    → (is_placeholder ctx cir v) ≡ false
    → ctx.util.contains_finalizer cir.meta ofcir_finalizer ≡ true
    → (ctx.provider.release cir.status.resource_id v).0 ≡ panic
    → panics (visit delete ctx (start cir v)).0 ≡ true
unfolding select new_ciresource_fsm handle_state_delete
visit_delete-panics ctx cir v p f h = ground arith

module _ {K W : Type 0} (api : IronicApi K W) (config : IronicProviderConfig)
    (ctx : Context (IronicState K W)) (cir : CiResource) (s : IronicState K W) where
  -- A deleted resource in a pool of Ironic that is no fallback pool and holds the finalizer, where
  -- its node cannot be read, by an error that is not about the login and has no map beside it: the
  -- run panics.
  pub deletion_panics :
      (e : Error) (w : W)
      → ctx.provider ≡ ironic_provider api config
      → is_fallback_pool ctx.pool ≡ false
      → ctx.util.contains_finalizer cir.meta ofcir_finalizer ≡ true
      → mentions "Authentication failed" e ≡ false
      → api.get s.client cir.status.resource_id s.outside ≡ (err e, w)
      → api.extra_beside e ≡ none
      → panics (visit delete ctx (start cir s)).0 ≡ true
  deletion_panics e w p f k x g none_beside =
      visit_delete-panics ctx cir s (rw f refl) k
        (rw p (release-panics api config cir.status.resource_id s e x w g none_beside))

  -- A deleted resource in a pool of Ironic that is no fallback pool and holds the finalizer, where
  -- its node is read, but the write that takes the mark off it fails with an error that is not
  -- about the login. The run returns no error, drops the finalizer and asks for its update, and
  -- leaves Ironic as that one failed write left it: the write is not tried again.
  pub deletion_unchecked :
      (e : Error) (w w' : W) (n : Node) (m : List (String × Value))
      → ctx.provider ≡ ironic_provider api config
      → is_fallback_pool ctx.pool ≡ false
      → ctx.util.contains_finalizer cir.meta ofcir_finalizer ≡ true
      → mentions "Authentication failed" e ≡ false
      → api.get s.client cir.status.resource_id s.outside ≡ (ok n, w)
      → n.extra ≡ some m
      → api.replace s.client cir.status.resource_id (("/extra", write cir_name (text "") m) ∷ []) w
        ≡ (err e, w')
      → (is_ok (visit delete ctx (start cir s)).0 ≡ true)
        × ((visit delete ctx (start cir s)).1.cir ≡ drop_finalizer ctx.util cir)
        × ((visit delete ctx (start cir s)).1.resource_dirty ≡ true)
        × ((visit delete ctx (start cir s)).1.world ≡ record s { outside = w' })
  unfolding select new_ciresource_fsm handle_state_delete
  deletion_unchecked e w w' n m p f k x g has_map u =
      let freed : ctx.provider.release cir.status.resource_id s
          ≡ (ok tt, record s { outside = w' }) =
        rw p (release_unchecked api config cir.status.resource_id s e x w w' n m g has_map u) in
      (rw (k, f, freed) refl, rw (k, f, freed) refl, rw (k, f, freed) refl, rw (k, f, freed) refl)
