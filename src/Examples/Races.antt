-- ===== src/Examples/Races.antt =====
-- An API server with one resource, whose versions grow by a digit, and two requests for it.
use ofcir.Prelude.{
  ◌≡◌, refl, sym, ◌+◌, ◌≤◌, ap, inl, inr, str_eq, eq_iff, Bool-cases, [], ◌∷◌, false, none, some,
  Exec, ok, err, foreign, pure, arith, if◌then◌else◌,
}
use ofcir.Prelude.Texts.{size, concat}
use ofcir.Api.{CiResource, available, in_use, set_spec_state, state_eq}
use ofcir.Server.Clientset.{Rest, update_cir}
use ofcir.Server.Acquire.{try_resource, acquired, on_update, is_free}
use ofcir.Server.Races.{TakesCurrent, Run, start, acquires, frees, held, one_holder}
use ofcir.Examples.Fixtures.{cir_in, small}

abbrev stored : CiResource → CiResource
stored c = c

-- the resource with the spec of `r`, and the next version
abbrev written : CiResource → CiResource → CiResource
written r c = record c {
  meta = record c.meta { resource_version = concat "0" c.meta.resource_version };
  spec = r.spec;
}

abbrev put : CiResource → Exec CiResource CiResource
put r c =
    if str_eq r.meta.resource_version c.meta.resource_version
    then (ok (written r c), written r c)
    else (err (foreign "conflict"), c)

abbrev rest : Rest CiResource
rest = record {
  get_cipool_list = λ ns kind. pure (small ∷ []);
  get_cipool = λ ns kind name. pure small;
  get_cir_list = λ ns kind c. (ok (c ∷ []), c);
  get_cir = λ ns kind name c. (ok c, c);
  put_cir = λ ns kind name r. put r;
  get_secret = λ ns name. pure (λ t. none);
  expired = pure false;
  is_not_found = λ e. false;
}

put_taken :
    (r new c c' : CiResource)
    → put r c ≡ (ok new, c')
    → (r.meta.resource_version ≡ c.meta.resource_version) × (c' ≡ written r c)
put_taken r new c c' u =
    elim (Bool-cases (str_eq r.meta.resource_version c.meta.resource_version)) [
      | inl e ↦ (
        (eq_iff r.meta.resource_version c.meta.resource_version).0 e,
        ap (λ x. x.1) (sym (rw e at u)),
      )
      | inr e ↦ absurd (let k = ap (λ x. x.0) (rw e at u) in ground arith)
    ]

rest-TakesCurrent : TakesCurrent rest stored size
unfolding update_cir
rest-TakesCurrent = record {
  version_current = λ ns r new c c' same u. (put_taken r new c c' u).0;
  spec_stored = λ ns r new c c' same u. ap (λ x. x.spec) (put_taken r new c c' u).1;
  later = λ ns r new c c' same u.
      let e = (put_taken r new c c' u).1 in
      record { same_name = ap (λ x. x.meta.name) e; newer = inr (rw e (omega arith)) };
}

abbrev idle : CiResource
idle = cir_in "cir-0001" "small" available available

abbrev used : CiResource
used = written (set_spec_state in_use idle) idle

abbrev back : CiResource
back = written (set_spec_state available used) used

-- the second request has the copy that the first one had, and gets nothing
second_refused : try_resource rest (λ n. some small) idle (pure none) used ≡ (ok none, used)
unfolding try_resource on_update is_free state_eq update_cir
second_refused = refl

first_gets :
    try_resource rest (λ n. some small) idle (pure none) idle
    ≡ (ok (some (acquired (λ n. some small) idle)), used)
unfolding try_resource on_update is_free state_eq update_cir
first_gets = refl

next_gets :
    try_resource rest (λ n. some small) back (pure none) back
    ≡ (ok (some (acquired (λ n. some small) back)), written (set_spec_state in_use back) back)
unfolding try_resource on_update is_free state_eq update_cir
next_gets = refl

-- the first request, the release, and a request that lists the resource after it
abbrev two_requests : Run rest stored size idle (written (set_spec_state in_use back) back) 2 1
two_requests =
    acquires (λ n. some small) (acquired (λ n. some small) back)
      (frees {e = back}
        (acquires (λ n. some small) (acquired (λ n. some small) idle) start start first_gets)
        (record { same_name = refl; newer = inr (omega arith) }))
      start next_gets

one_holder_example :
    2 + held rest stored size idle
    ≤ 1 + held rest stored size (written (set_spec_state in_use back) back)
one_holder_example = one_holder rest stored size rest-TakesCurrent two_requests
