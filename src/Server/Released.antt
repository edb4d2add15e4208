-- ===== src/Server/Released.antt =====
-- pkg/server/commands/release.go: what a release requires and writes.
use ofcir.Prelude.{
  String, ◌≡◌, Bool, true, false, ◌&&◌, Option, Outcome, ok, err, panic, [], ◌==◌, arith,
}
use ofcir.Api.{CiResource, available, in_use, state_eq, set_spec_state}
use ofcir.Fsm.Release.{is_ok}
use ofcir.Server.{Response, text}
use ofcir.Server.Clientset.{Rest, get_cir, update_cir}
use ofcir.Server.Access.{can_use_pool}
use ofcir.Server.Lookup.{release_found, release}

-- an answer with the status 200
abbrev pub is_200 : Outcome Response → Bool
is_200 (ok a) = a.status == 200
is_200 (err e) = false
is_200 panic = false

module _ {C : Type 0} (rest : Rest C) (ns : String) (validpools : Option String)
    (name : String) where
  -- the token opens the resource's pool, and the resource is in use
  abbrev pub may_release : CiResource → Bool
  may_release r = can_use_pool validpools r.spec.pool_ref && state_eq r.status.state in_use

  -- Where the resource is read, the status of the answer is 200 exactly when the token opens the
  -- resource's pool, the resource is in use, and its update, which asks for the state `available`,
  -- returns no error; the answer is then the name of the resource, and the update is the only
  -- write. Where the token does not open the pool or the resource is not in use, nothing is
  -- written.
  pub release_exact :
      (r : CiResource) (c c' : C)
      → get_cir rest ns name c ≡ (ok r, c')
      → let update = update_cir rest r.meta.namespace (set_spec_state available r) c' in
        (is_200 (release rest ns validpools name c).0 ≡ (may_release r && is_ok update.0))
        × ((may_release r && is_ok update.0) ≡ true
            → release rest ns validpools name c
              ≡ (ok (record { status = 200; body = text r.meta.name [] }), update.1))
        × (may_release r ≡ false → (release rest ns validpools name c).1 ≡ c')
  unfolding release release_found
  release_exact r c c' h = rw h (ground arith)
