-- ===== src/Backends/IbmCloudHosts.antt =====
-- pkg/providers/ibmcloud.go: the hosts that are marked by hand.
use ofcir.Prelude.{
  ℤ, String, str_eq, Bool, true, false, ◌≡◌, refl, List, [], ◌∷◌, Option, none, some, any, Exec,
  Outcome, ok, err, panic, All, Bool-cases, inl, inr, arith, if◌then◌else◌, ap, ◌∙◌, catch, handle,
  continue, ◌>>=◌, ◌>>◌, pure,
}
use ofcir.Prelude.Keeps.{Keeps}
use ofcir.Provider.{resource_at}
use ofcir.Fsm.Safety.{panics}
use ofcir.Backends.IbmCloud.{IbmcloudProviderConfig, Hardware, SoftLayer, manual_tag, deref}
use ofcir.Backends.IbmCloudProvider.{
  find_node, get_node_by_name, clean, read_tags, is_up, take_host, find_available,
  get_available_host, acquire, release_manual_host, has_manual_tag, cancel, release,
}

abbrev is_tag : String → Option String → Bool
is_tag tag none = false
is_tag tag (some t) = str_eq t tag

abbrev pub is_manual : Hardware → Bool
is_manual n = any (is_tag manual_tag) n.tags

module _ {W : Type 0} (sl : SoftLayer W) (config : IbmcloudProviderConfig) where
  -- A value has the property, and whatever is returned, nothing was changed.
  abbrev Reads : {A : Type 0} → (A → Type 0) → W → Outcome A × W → Type 0
  Reads P w (ok a, v) = P a × (v ≡ w)
  Reads P w (err e, v) = v ≡ w
  Reads P w (panic, v) = v ≡ w

  has_manual_tag-Reads :
      (tags : List (Option String)) (w : W)
      → any (is_tag manual_tag) tags ≡ true
      → Reads (λ b. b ≡ true) w (has_manual_tag sl config tags w)
  unfolding has_manual_tag
  has_manual_tag-Reads [] w h = ground arith
  has_manual_tag-Reads (none ∷ ts) w h = refl
  has_manual_tag-Reads (some t ∷ ts) w h = elim (Bool-cases (str_eq t manual_tag)) [
    | inl e ↦ rw e (refl, refl)
    | inr e ↦ rw e (has_manual_tag-Reads ts w (ground arith))
  ]

  node_or-Reads :
      (name : String) (o : Option String) (n : Hardware) (rest : Exec W Hardware) (w : W)
      → (is_tag name o ≡ true → is_manual n ≡ true)
      → Reads (λ n. is_manual n ≡ true) w (rest w)
      → Reads
          (λ n. is_manual n ≡ true)
          w
          ((deref sl config o >>= (λ h. if str_eq h name then pure n else rest)) w)
  node_or-Reads name none n rest w h k = refl
  node_or-Reads name (some t) n rest w h k = elim (Bool-cases (str_eq t name)) [
    | inl e ↦ rw e (h e, refl)
    | inr e ↦ rw e k
  ]

  find_node-Reads :
      (name : String) (ns : List Hardware) (w : W)
      → All (λ n. is_tag name n.hostname ≡ true → is_manual n ≡ true) ns
      → Reads (λ n. is_manual n ≡ true) w (find_node sl config name ns w)
  unfolding find_node
  find_node-Reads name [] w h = refl
  find_node-Reads name (n ∷ ns) w h =
      node_or-Reads name n.hostname n (find_node sl config name ns) w h.0
        (find_node-Reads name ns w h.1)

  module _ (Inv : W → Type 0) (tags_keep : (id : ℤ) → Keeps Inv (sl.set_tags id manual_tag)) where
    release_manual_host-Keeps : (n : Hardware) → Keeps Inv (release_manual_host sl config n)
    unfolding release_manual_host
    release_manual_host-Keeps n w i = go n.id
      where
        go : (o : Option ℤ) → Inv ((deref sl config o >>= (λ id. sl.set_tags id manual_tag)) w).1
        go none = i
        go (some id) = tags_keep id w i

    after_tags-Keeps :
        (n : Hardware) (w : W) (r : Outcome Bool × W)
        → Reads (λ b. b ≡ true) w r
        → Inv w
        → Inv
            (continue r.0
              (λ b. if b then release_manual_host sl config n else cancel sl config n)
              r.1).1
    after_tags-Keeps n w (ok b, v) h i = rw (h.0, h.1) (release_manual_host-Keeps n w i)
    after_tags-Keeps n w (err e, v) h i = rw h i
    after_tags-Keeps n w (panic, v) h i = rw h i

    after_find-Keeps :
        (w : W) (r : Outcome Hardware × W)
        → Reads (λ n. is_manual n ≡ true) w r
        → Inv w
        → Inv
            (continue r.0
              (λ n.
                has_manual_tag sl config n.tags
                >>= (λ b. if b then release_manual_host sl config n else cancel sl config n))
              r.1).1
    after_find-Keeps w (ok n, v) h i =
        after_tags-Keeps n v (has_manual_tag sl config n.tags v) (has_manual_tag-Reads n.tags v h.0)
          (rw h.1 i)
    after_find-Keeps w (err e, v) h i = rw h i
    after_find-Keeps w (panic, v) h i = rw h i

    -- Where the hosts are listed, and each with that name has the tag "ofcir-manual": a release,
    -- however it ends, keeps every property that no setting of a host's tags to "ofcir-manual" alone
    -- can break. It cancels no host.
    pub release_manual-Keeps :
        (name : String) (nodes : List Hardware) (w w' : W)
        → sl.get_hardware w ≡ (ok nodes, w')
        → All (λ n. is_tag name n.hostname ≡ true → is_manual n ≡ true) nodes
        → Inv w'
        → Inv (release sl config name w).1
    unfolding release get_node_by_name
    release_manual-Keeps name nodes w w' g h i = rw g (
        after_find-Keeps w' (find_node sl config name nodes w') (find_node-Reads name nodes w' h) i)

  -- a list whose first host is free
  pub record Offers (n : Hardware) (id : ℤ) (name : String) : Type 0 where
    pub has_id : n.id ≡ some id
    pub has_name : n.hostname ≡ some name
    pub is_active : n.status ≡ some "ACTIVE"
    pub is_free : (w : W) → read_tags sl config n.tags false false w ≡ (ok (false, true), w)

  ignored :
      {B : Type 0} (m : Exec W (Unit {0})) (next : Exec W B) (w : W)
      → panics (m w).0 ≡ false
      → (catch m (λ e. pure tt) >> next) w ≡ next (m w).1
  ignored {B} m next w h = go (m w) h
    where
      go :
          (r : Outcome (Unit {0}) × W)
          → panics r.0 ≡ false
          → (let (q, v) = handle (λ e. pure tt) r.0 r.1 in continue q (λ _. next) v) ≡ next r.1
      go (ok u, v) e = refl
      go (err x, v) e = refl
      go (panic, v) e = absurd (ground arith)

  caught-ok :
      (m : Exec W (Unit {0})) (w : W)
      → panics (m w).0 ≡ false
      → (catch m (λ e. pure tt) w).0 ≡ ok tt
  caught-ok m w h = go (m w) h
    where
      go :
          (r : Outcome (Unit {0}) × W)
          → panics r.0 ≡ false
          → (handle (λ e. pure tt) r.0 r.1).0 ≡ ok tt
      go (ok u, v) e = refl
      go (err x, v) e = refl
      go (panic, v) e = absurd (ground arith)

  module _ (n : Hardware) (id : ℤ) (name : String) (offers : Offers n id name)
      (tags_calm : (w : W) → panics (sl.set_tags id "ofcir-manual,ofcir-taken" w).0 ≡ false)
      (clean_calm : (w : W) → panics (clean sl config name w).0 ≡ false) where
    take_host-ok : (w : W) → (take_host sl config n w).0 ≡ ok tt
    unfolding take_host
    take_host-ok w =
        let v = (sl.set_tags id "ofcir-manual,ofcir-taken" w).1 in
        let marked =
          ignored (sl.set_tags id "ofcir-manual,ofcir-taken")
            (deref sl config (some name) >>= (λ name. catch (clean sl config name) (λ e. pure tt)))
            w (tags_calm w) in
        rw (offers.has_id, offers.has_name)
          (ap (λ (r : Outcome (Unit {0}) × W). r.0) marked
            ∙ caught-ok (clean sl config name) v (clean_calm v))

    find_available-ok :
        (ns : List Hardware) (w : W) → (find_available sl config (n ∷ ns) w).0 ≡ ok (some n)
    unfolding find_available
    find_available-ok ns w =
        let up : is_up sl config n false true w ≡ (ok true, w) = rw offers.is_active refl in
        rw (offers.is_free w) (rw up (rw (take_host-ok w) refl))

    acquire-ok :
        (pool : String) (ns : List Hardware) (w w' : W)
        → sl.get_tagged_hardware ("ofcir-manual" ∷ "ofcir-taken" ∷ []) w ≡ (ok (n ∷ ns), w')
        → (acquire sl config pool w).0 ≡ ok (resource_at name "")
    unfolding acquire get_available_host
    acquire-ok pool ns w w' g = rw g (rw (find_available-ok ns w') (rw offers.has_name refl))

    -- The setting of a host's tags and its cleaning may fail, but do not panic. Where the list shows
    -- the same host first to two acquisitions, one after the other and for any two pools, marked
    -- by hand, active and not taken, both hand it out.
    pub acquire-acquire_shared :
        (pool pool' : String) (ns ns' : List Hardware) (w v w' v' : W)
        → sl.get_tagged_hardware ("ofcir-manual" ∷ "ofcir-taken" ∷ []) w ≡ (ok (n ∷ ns), v)
        → (acquire sl config pool w).1 ≡ w'
        → sl.get_tagged_hardware ("ofcir-manual" ∷ "ofcir-taken" ∷ []) w' ≡ (ok (n ∷ ns'), v')
        → ((acquire sl config pool w).0 ≡ ok (resource_at name ""))
          × ((acquire sl config pool' (acquire sl config pool w).1).0 ≡ ok (resource_at name ""))
    acquire-acquire_shared pool pool' ns ns' w v w' v' g e g' =
        (acquire-ok pool ns w v g, rw e (acquire-ok pool' ns' w' v' g'))
