-- ===== src/Server/Races.antt =====
-- pkg/server/commands/acquire.go: requests that run at the same time, on one resource.
use ofcir.Prelude.{
  ℕ, suc, ◌+◌, ◌<◌, ◌≤◌, true, ◌≡◌, refl, sym, ap, ◌∙◌, ◌⊎◌, String, none, some, Outcome, ok, err,
  panic, pure, arith, if◌then◌else◌, Bool-cases, inl, inr,
}
use ofcir.Api.{CiResource, in_use, state_eq, set_spec_state}
use ofcir.Server.{Response}
use ofcir.Server.Clientset.{Rest, update_cir}
use ofcir.Server.Acquire.{PoolsByName, is_free, on_update, try_resource}

-- `stored` is the resource as the API server has it, and `rank` the order in which versions are
-- given out.
module _ {C : Type 0} (rest : Rest C) (stored : C → CiResource) (rank : String → ℕ) where
  -- 1 while the resource is asked for
  unfoldable pub held : C → ℕ
  held c = if state_eq (stored c).spec.state in_use then 1 else 0

  abbrev pub age : C → ℕ
  age c = rank (stored c).meta.resource_version

  -- What writes do to the resource: its name stays, and it has a later version or is the same.
  pub record Later (c d : C) : Type 0 where
    pub same_name : (stored d).meta.name ≡ (stored c).meta.name
    pub newer : (stored c ≡ stored d) ⊎ (age c < age d)

  -- What the API server does with an update: it takes one of the version that is stored only, and
  -- stores its spec.
  pub record TakesCurrent : Type 0 where
    pub version_current :
        (ns : String) (r new : CiResource) (c c' : C)
        → r.meta.name ≡ (stored c).meta.name
        → update_cir rest ns r c ≡ (ok new, c')
        → r.meta.resource_version ≡ (stored c).meta.resource_version
    pub spec_stored :
        (ns : String) (r new : CiResource) (c c' : C)
        → r.meta.name ≡ (stored c).meta.name
        → update_cir rest ns r c ≡ (ok new, c')
        → (stored c').spec ≡ r.spec
    pub later :
        (ns : String) (r new : CiResource) (c c' : C)
        → r.meta.name ≡ (stored c).meta.name
        → update_cir rest ns r c ≡ (ok new, c')
        → Later c c'

  -- What happens to the resource from one state of the cluster to another, with two counts: of the
  -- acquisitions that hand it out, and of the writes that may end a use. `acquires` is the round
  -- of an acquisition with a copy of the resource that was listed at any earlier state `d`;
  -- `keeps` is a write, here or elsewhere, that ends no use; `frees` is any other write.
  pub data Run : C → C → ℕ → ℕ → Type 0 where
    start : {c : C} → Run c c 0 0
    acquires :
        {c d e e' : C} {w f w' f' : ℕ} (pools : PoolsByName) (answer : Response)
        → Run c d w' f'
        → Run d e w f
        → try_resource rest pools (stored d) (pure none) e ≡ (ok (some answer), e')
        → Run c e' (suc (w' + w)) (f' + f)
    keeps : {c d e : C} {w f : ℕ} → Run c d w f → Later d e → held d ≤ held e → Run c e w f
    frees : {c d e : C} {w f : ℕ} → Run c d w f → Later d e → Run c e w (suc f)

  Later-refl : (c : C) → Later c c
  Later-refl c = record { same_name = refl; newer = inl refl }

  abbrev age_of : CiResource → ℕ
  age_of r = rank r.meta.resource_version

  Later-trans : {c d e : C} → Later c d → Later d e → Later c e
  Later-trans {c} {d} {e} p q = record {
    same_name = q.same_name ∙ p.same_name;
    newer = elim p.newer [
      | inl same ↦ elim q.newer [
        | inl same' ↦ inl (same ∙ same')
        | inr l ↦ inr (let a = ap age_of same in omega arith)
      ]
      | inr l ↦ elim q.newer [
        | inl same' ↦ inr (let a = ap age_of same' in omega arith)
        | inr l' ↦ inr (omega arith)
      ]
    ];
  }

  -- A version names one content of the resource.
  same_version :
      {c d : C}
      → Later c d
      → (stored c).meta.resource_version ≡ (stored d).meta.resource_version
      → stored c ≡ stored d
  same_version {c} {d} p e = elim p.newer [
    | inl same ↦ same
    | inr l ↦ absurd (let same_age = ap rank e in omega arith)
  ]

  -- A round answers where the resource was free in the copy and the update is taken.
  round_taken :
      (pools : PoolsByName) (r : CiResource) (answer : Response) (c c' : C)
      → try_resource rest pools r (pure none) c ≡ (ok (some answer), c')
      → (is_free r ≡ true)
        × ((new : CiResource) × (update_cir rest r.meta.namespace (set_spec_state in_use r) c
              ≡ (ok new, c')))
  unfolding try_resource on_update
  round_taken pools r answer c c' h =
      let m = update_cir rest r.meta.namespace (set_spec_state in_use r) in
      elim (Bool-cases (is_free r)) [
        | inl f ↦ (f, updated (m c).0 (m c).1 refl refl (rw f at h))
        | inr f ↦ absurd (let k = ap (λ x. x.0) (rw f at h) in ground arith)
      ]
    where
      updated :
          (u : Outcome CiResource) (d : C)
          → (update_cir rest r.meta.namespace (set_spec_state in_use r) c).0 ≡ u
          → (update_cir rest r.meta.namespace (set_spec_state in_use r) c).1 ≡ d
          → on_update rest pools r (pure none) u d ≡ (ok (some answer), c')
          → (new : CiResource) × (update_cir rest r.meta.namespace (set_spec_state in_use r) c
              ≡ (ok new, c'))
      updated (ok x) d e f k = (x, λ i. (e i, (f ∙ ap (λ x. x.1) k) i))
      updated (err x) d e f k = absurd (let j = ap (λ x. x.0) k in ground arith)
      updated panic d e f k = absurd (let j = ap (λ x. x.0) k in ground arith)

  module _ (law : TakesCurrent) where
    -- What a round does that hands the resource out with an earlier copy: nothing was written
    -- since the copy was listed, the resource was not asked for, and now it is.
    handed_out :
        (pools : PoolsByName) (answer : Response) (d e e' : C)
        → Later d e
        → try_resource rest pools (stored d) (pure none) e ≡ (ok (some answer), e')
        → (held e ≡ 0) × (held e' ≡ 1) × Later e e'
    unfolding held is_free
    handed_out pools answer d e e' l h =
        let (f, (new, u)) = round_taken pools (stored d) answer e e' h in
        let ns = (stored d).meta.namespace in
        let copy = set_spec_state in_use (stored d) in
        let same_name = sym l.same_name in
        let v = law.version_current ns copy new e e' same_name u in
        let same = same_version l v in
        let s = law.spec_stored ns copy new e e' same_name u in
        (
          rw (sym same) (ground arith),
          rw s (unfold state_eq in refl),
          law.later ns copy new e e' same_name u,
        )

    Run-Later : {c d : C} {w f : ℕ} → Run c d w f → Later c d
    Run-Later (start {c}) = Later-refl c
    Run-Later (acquires {c} {d} {e} {e'} pools answer p q h) =
        let l = Run-Later q in
        Later-trans (Run-Later p) (Later-trans l (handed_out pools answer d e e' l h).2)
    Run-Later (keeps p l k) = Later-trans (Run-Later p) l
    Run-Later (frees p l) = Later-trans (Run-Later p) l

    held-le : (c : C) → held c ≤ 1
    unfolding held
    held-le c = ground arith

    -- Where the API server takes an update only of the version that is stored, and stores its spec
    -- then: in every run the acquisitions that hand the resource out are at most as many as the
    -- writes that may end a use, and one more where it was not asked for at the start and is at
    -- the end. So between two acquisitions that hand it out lies a write that may end a use.
    pub one_holder : {c d : C} {w f : ℕ} → Run c d w f → w + held c ≤ f + held d
    one_holder start = omega arith
    one_holder (acquires {c} {d} {e} {e'} pools answer p q h) =
        let (free, used, l) = handed_out pools answer d e e' (Run-Later q) h in
        let a = one_holder p in let b = one_holder q in omega arith
    one_holder (keeps p l k) = let a = one_holder p in omega arith
    one_holder (frees {c} {d} {e} p l) = let a = one_holder p in let b = held-le d in omega arith
