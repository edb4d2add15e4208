-- ===== src/Server/Lookup.antt =====
-- pkg/server/commands/release.go and status.go: commands on one named resource.
use ofcir.Prelude.{
  String, [], ◌∷◌, Option, Exec, Outcome, ok, err, panic, pure, ◌>>◌, if◌then◌else◌,
}
use ofcir.Api.{CiResource, CiPool, available, in_use, state_eq, state_string, set_spec_state}
use ofcir.Server.{msg, text, fields, Response, status_ok, status_bad_request}
use ofcir.Server.Clientset.{Rest, get_cir, get_cipool, update_cir}
use ofcir.Server.Access.{can_use_pool, unauthorized}

abbrev pub missing_cir : String → String → Response
missing_cir name ns = record {
  status = status_bad_request;
  body = msg "%s does not exist in namespace %s" (name ∷ ns ∷ []);
}

abbrev pub missing_pool : String → String → String → Response
missing_pool pool name ns = record {
  status = status_bad_request;
  body = msg "Cannot find cipool %s for %s in namespace %s" (pool ∷ name ∷ ns ∷ []);
}

abbrev pub released : CiResource → Response
released r = record { status = status_ok; body = text r.meta.name [] }

abbrev pub wrong_state : String → CiResource → Response
wrong_state name r = record {
  status = status_bad_request;
  body =
      msg "%s state must be `%s`, but it is `%s`"
        (name ∷ state_string in_use ∷ state_string r.status.state ∷ []);
}

abbrev pub status_answer : CiResource → CiPool → Response
status_answer r pool = record {
  status = status_ok;
  body = fields (
      ("name", r.meta.name)
      ∷ ("pool", pool.meta.name)
      ∷ ("provider", pool.spec.provider)
      ∷ ("providerInfo", r.status.provider_info)
      ∷ ("type", r.spec.type_)
      ∷ ("ip", r.status.address)
      ∷ ("extra", r.status.extra)
      ∷ ("status", state_string r.status.state)
      ∷ []);
}

module _ {C : Type 0} (rest : Rest C) where
  -- `Get`, where an object that is not found is answered and any other error is returned
  abbrev pub or_answer :
      {A : Type 0} → Outcome A → Response → (A → Exec C Response) → Exec C Response
  or_answer (ok a) missing next s = next a s
  or_answer (err e) missing next s = if rest.is_not_found e then (ok missing, s) else (err e, s)
  or_answer panic missing next s = (panic, s)

  -- `releaseCmd.Run` after the resource was read
  unfoldable pub release_found : Option String → String → CiResource → Exec C Response
  release_found validpools name r =
      if can_use_pool validpools r.spec.pool_ref
      then (if state_eq r.status.state in_use
          then update_cir rest r.meta.namespace (set_spec_state available r) >> pure (released r)
          else pure (wrong_state name r))
      else pure unauthorized

  -- `releaseCmd.Run`
  unfoldable pub release : String → Option String → String → Exec C Response
  release ns validpools name s =
      let (r, s') = get_cir rest ns name s in
      or_answer r (missing_cir name ns) (release_found validpools name) s'

  -- `statusCmd.Run` after the resource was read
  unfoldable pub status_found : String → Option String → String → CiResource → Exec C Response
  status_found ns validpools name r s =
      let (p, s') = get_cipool rest ns r.spec.pool_ref s in
      let answer =
        or_answer p (missing_pool r.spec.pool_ref name ns) (λ pool. pure (status_answer r pool))
          s' in
      if can_use_pool validpools r.spec.pool_ref then answer else (ok unauthorized, s)

  -- `statusCmd.Run`
  unfoldable pub status : String → Option String → String → Exec C Response
  status ns validpools name s =
      let (r, s') = get_cir rest ns name s in
      or_answer r (missing_cir name ns) (status_found ns validpools name) s'
