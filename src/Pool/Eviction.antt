-- ===== src/Pool/Eviction.antt =====
-- controllers/cipool_controller.go: which resources `deleteCIResources` selects.
use ofcir.Prelude.{
  ℕ, suc, ◌<◌, ◌≤◌, ℤ, pos, ltb_ℤ, ◌≡◌, refl, some, inl, inr, true, false, Outcome, ok, err, panic,
  List, [], ◌∷◌, Bool-cases, Exec, ◌⊎◌, continue, state-continue-pure, pure, length, ◌>>◌, ◌-ℤ◌,
  String, arith,
}
use mathlib.Core.List.{reverse, Memᴰ}
use ofcir.Api.{CiResource, CiResourceState, available, maintenance, error, eviction_label}
use ofcir.Kube.{Client}
use ofcir.Pool.{
  label_list, is_evictable, is_labelled, add_label, select_evicted, on_update, delete_ciresources,
}

-- the states of which a resource may be evicted
pub data IsEvictable : CiResourceState → Type 0 where
  of_available : IsEvictable available
  of_maintenance : IsEvictable maintenance
  of_error : IsEvictable error

evictable : (st : CiResourceState) → is_evictable st ≡ true → IsEvictable st
evictable available e = of_available
evictable maintenance e = of_maintenance
evictable error e = of_error
evictable _ e = absurd (ground arith)

evictable_test : (st : CiResourceState) → IsEvictable st → is_evictable st ≡ true
evictable_test st of_available = refl
evictable_test st of_maintenance = refl
evictable_test st of_error = refl

-- the resource with the label for the eviction, and no other change
abbrev pub labelled : CiResource → CiResource
labelled c = record c {
  meta = record c.meta { labels = some (("ofcir/eviction", "true") ∷ label_list c.meta.labels) };
}

module _ {C : Type 0} (client : Client C) where
  module _ (Inv : C → Type 0) (quota : ℤ) where
    on_update-keeps :
        (rest : ℕ → Exec C ℕ)
        → ((n : ℕ) (c : C) → Inv c → Inv (rest n c).1)
        → (n : ℕ) (r : Outcome CiResource) (c : C) → Inv c
        → Inv (on_update client quota rest n r c).1
    unfolding on_update
    on_update-keeps rest k n (ok _) c h = elim (Bool-cases (ltb_ℤ (pos (suc n)) quota)) [
      | inl e ↦ rw e (k (suc n) c h)
      | inr e ↦ rw e h
    ]
    on_update-keeps rest k n (err e) c h = k n c h
    on_update-keeps rest k n panic c h = h

    -- Every property of the cluster that no labelling of a resource of the list, which is in one of
    -- the three states `available`, `maintenance` and `error` and has no label, can break is kept by
    -- the selection: it writes no other resource and nothing else, and of these only the labels.
    pub select_evicted-keeps :
        (cirs : List CiResource)
        → ((cir : CiResource) (c : C)
            → Memᴰ cir cirs
            → IsEvictable cir.status.state
            → is_labelled cir ≡ false
            → Inv c
            → Inv (client.update_cir (labelled cir) c).1)
        → (n : ℕ) (c : C) → Inv c
        → Inv (select_evicted client quota cirs n c).1
    unfolding select_evicted add_label
    select_evicted-keeps [] k n c h = h
    select_evicted-keeps (cir ∷ cirs) k n c h =
        let ih = select_evicted-keeps cirs (λ x d m. k x d (Memᴰ.tail m)) in
        let (r, c') = client.update_cir (add_label cir) c in
        elim (Bool-cases (is_evictable cir.status.state)) [
          | inl e ↦ elim (Bool-cases (is_labelled cir)) [
            | inl l ↦ rw (e, l) (ih n c h)
            | inr l ↦
                rw (e, l)
                  (on_update-keeps (select_evicted client quota cirs) ih n r c'
                    (k cir c (Memᴰ.head refl) (evictable cir.status.state e) l h))
          ]
          | inr e ↦ elim (Bool-cases (ltb_ℤ (pos n) quota)) [
            | inl l ↦ rw (e, l) (ih n c h)
            | inr l ↦ rw (e, l) h
          ]
        ]

  -- the same of `deleteCIResources`, which deletes what has the label besides
  pub delete_ciresources-keeps :
      (Inv : C → Type 0)
      → ((cir : CiResource) (c : C)
          → is_evictable cir.status.state ≡ true
          → is_labelled cir ≡ false
          → Inv c
          → Inv (client.update_cir (add_label cir) c).1)
      → ((ns : String) (c : C) → Inv c → Inv (client.delete_all_cirs ns eviction_label c).1)
      → (target : ℤ) (cirs : List CiResource) (ns : String) (c : C) → Inv c
      → Inv (delete_ciresources client target cirs ns c).1
  unfolding delete_ciresources add_label
  delete_ciresources-keeps Inv label remove target cirs ns c h =
      let quota = pos (length cirs) -ℤ target in
      let (r, c') = select_evicted client quota (reverse cirs) 0 c in
      let h' =
        select_evicted-keeps Inv quota (reverse cirs)
          (λ x d m e l. label x d (evictable_test x.status.state e) l) 0 c h in
      deleted r c' h'
    where
      deleted :
          (r : Outcome ℕ) (c : C)
          → Inv c
          → Inv (continue r (λ n. client.delete_all_cirs ns eviction_label >> pure n) c).1
      deleted (ok n) c h =
          let (r, c') = client.delete_all_cirs ns eviction_label c in
          rw (state-continue-pure r n c') (remove ns c h)
      deleted (err e) c h = h
      deleted panic c h = h

  abbrev Within : ℕ → ℕ → Outcome ℕ → Type 0
  Within n q (ok m) = (n ≤ m) × (m ≤ q)
  Within n q (err e) = Unit
  Within n q panic = Unit

  select_evicted-Within :
      (q : ℕ) (cirs : List CiResource) (n : ℕ) (c : C)
      → n < q
      → Within n q (select_evicted client (pos q) cirs n c).0
  unfolding select_evicted ltb_ℤ
  select_evicted-Within q [] n c h = omega arith
  select_evicted-Within q (cir ∷ cirs) n c h =
      let c' = (client.update_cir (add_label cir) c).1 in
      grind (
        arith,
        select_evicted-Within q cirs n c,
        select_evicted-Within q cirs (suc n) c',
        select_evicted-Within q cirs n c',
      )

  -- With a positive quota the selection returns a number that is at most the quota: it counts no
  -- more resources than the pool has too many.
  pub select_evicted-le :
      (q : ℕ) (cirs : List CiResource) (c : C) (m : ℕ)
      → 0 < q
      → (select_evicted client (pos q) cirs 0 c).0 ≡ ok m
      → m ≤ q
  select_evicted-le q cirs c m h e = ground (arith, select_evicted-Within q cirs 0 c h)

  -- A resource that is already on its way out does not count: where the newest resource of a pool
  -- has the label, or is past the three states with fewer selected than the quota, the selection
  -- goes on as if the pool did not hold it, with the same quota.
  pub leaving_not_counted :
      (q : ℕ) (leaving : CiResource) (cirs : List CiResource) (n : ℕ) (c : C)
      → n < q
      → (is_evictable leaving.status.state ≡ false) ⊎ (is_labelled leaving ≡ true)
      → select_evicted client (pos q) (leaving ∷ cirs) n c ≡ select_evicted client (pos q) cirs n c
  unfolding select_evicted ltb_ℤ
  leaving_not_counted q leaving cirs n c h e = ground arith

  -- Where the newest resource has the label, or is past the three states, and the next one is
  -- evictable, without the label, and its update succeeds, the run for a quota of one labels that
  -- one too.
  pub evicts_one_more :
      (leaving next written : CiResource) (cirs : List CiResource) (c c' : C)
      → (is_evictable leaving.status.state ≡ false) ⊎ (is_labelled leaving ≡ true)
      → is_evictable next.status.state ≡ true
      → is_labelled next ≡ false
      → client.update_cir (add_label next) c ≡ (ok written, c')
      → select_evicted client (pos 1) (leaving ∷ next ∷ cirs) 0 c ≡ (ok 1, c')
  unfolding select_evicted ltb_ℤ
  evicts_one_more leaving next written cirs c c' l e u w = ground arith
