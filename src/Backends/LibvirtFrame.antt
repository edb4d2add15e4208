-- ===== src/Backends/LibvirtFrame.antt =====
-- pkg/providers/libvirt.go: what the methods change on the host.
use ofcir.Prelude.{
  String, Outcome, ok, err, panic, Exec, Error, continue, wrap_outcome, wrapping, List, [], ◌∷◌,
  ◌≡◌, refl, arith,
}
use ofcir.Prelude.Keeps.{Keeps, Kept, bind-Keeps, ◌>>=◌, ◌>>◌, step, idle, attempt, branch}
use ofcir.Backends.Libvirt.{
  LibvirtProviderConfig, Interface, Libvirt, volume_path, volume_config, domain_config,
}
use ofcir.Backends.LibvirtProvider.{
  connected, return, first_mac, mac_address, check_name, free_name, create_disk, create_domain,
  create_vm, missing_domain, delete_found, delete_disk, destroy_vm, clean,
}

module _ {W : Type 0} (lv : Libvirt W) (config : LibvirtProviderConfig) (Inv : W → Type 0) where
  -- A property of the host that connections and questions keep.
  pub record QuestionsKeep : Type 0 where
    pub connect : Keeps Inv lv.connect
    pub close : (w : W) → Inv w → Inv (lv.close w)
    pub lookup_domain : (name : String) → Keeps Inv (lv.lookup_domain_by_name name)
    pub lookup_pool : (name : String) → Keeps Inv (lv.lookup_storage_pool_by_name name)
    pub lookup_volume : (key : String) → Keeps Inv (lv.lookup_volume_by_key key)
    pub is_active : (name : String) → Keeps Inv (lv.is_active name)
    pub xml_desc : (name : String) → Keeps Inv (lv.xml_desc name)

  -- One that the removal of one domain and its volume keeps.
  pub record RemovalKeeps (id : String) : Type 0 where
    pub destroy : Keeps Inv (lv.destroy id)
    pub undefine : Keeps Inv (lv.undefine id)
    pub delete_volume : Keeps Inv (lv.delete_volume (volume_path id))

  -- One that the creation of one domain, with any MAC address, and its volume keeps.
  pub record CreationKeeps (id : String) : Type 0 where
    pub create_volume :
        (xml : String)
        → lv.marshal_volume (volume_config config id) ≡ ok xml
        → Keeps Inv (lv.create_volume config.pool xml)
    pub define :
        (mac xml : String)
        → lv.marshal_domain (domain_config config id mac) ≡ ok xml
        → Keeps Inv (lv.define_xml xml)
    pub start : Keeps Inv (lv.start id)

  module _ (asks : QuestionsKeep) (id : String) where
    connected-Keeps :
        {A : Type 0} (body : Exec W A) → Keeps Inv body → Keeps Inv (connected lv config body)
    connected-Keeps body h =
        bind-Keeps Inv (wrapping "error connecting to qemu" [] lv.connect)
          (λ _ w. let (r, w') = body w in (r, lv.close w')) asks.connect
          (λ _ w i. asks.close (body w).1 (h w i))

    abbrev session : {A : Type 0} → Kept Inv A → Kept Inv A
    session body = step (connected lv config body.action) (connected-Keeps body.action body.keeps)

    delete_found-Keeps :
        RemovalKeeps id
        → (r : Outcome (Unit {0})) → Keeps Inv (delete_found lv config (volume_path id) r)
    delete_found-Keeps removal (ok _) = removal.delete_volume
    delete_found-Keeps removal (err e) = λ w i. i
    delete_found-Keeps removal panic = λ w i. i

    delete_disk-Keeps : RemovalKeeps id → Keeps Inv (delete_disk lv config (volume_path id))
    delete_disk-Keeps removal w i =
        let (r, w') = lv.lookup_volume_by_key (volume_path id) w in
        delete_found-Keeps removal r w' (asks.lookup_volume (volume_path id) w i)

    missing_domain-Keeps : (e : Error) → Keeps Inv (missing_domain lv config id e)
    missing_domain-Keeps e w i = ground arith

    destroy_vm-Keeps : RemovalKeeps id → Keeps Inv (destroy_vm lv config id)
    unfolding destroy_vm
    destroy_vm-Keeps removal =
        (session do
          attempt (step (lv.lookup_domain_by_name id) (asks.lookup_domain id))
              (λ e. step (missing_domain lv config id e) (missing_domain-Keeps e))
          running ←
              step (wrapping "error verifying domain is active" [] (lv.is_active id))
                (asks.is_active id)
          branch running
              (step (wrapping "error destroying domain" [] (lv.destroy id)) removal.destroy)
              (idle tt)
          step (wrapping "error undefining domain" [] (lv.undefine id)) removal.undefine
          step (delete_disk lv config (volume_path id)) (delete_disk-Keeps removal)).keeps

    -- a document, and what is done with it
    marshalled-Keeps :
        {A B : Type 0} (text : String) (r : Outcome A) (f : A → Exec W B)
        → ((a : A) → r ≡ ok a → Keeps Inv (f a))
        → Keeps Inv (λ w. continue (wrap_outcome text [] r) f w)
    marshalled-Keeps text (ok a) f k = k a refl
    marshalled-Keeps text (err e) f k = λ w i. i
    marshalled-Keeps text panic f k = λ w i. i

    free_name-Keeps : (r : Outcome (Unit {0})) → Keeps Inv (free_name lv config id r)
    free_name-Keeps (ok _) = λ w i. i
    free_name-Keeps (err e) = λ w i. ground arith
    free_name-Keeps panic = λ w i. i

    check_name-Keeps : Keeps Inv (check_name lv config id)
    check_name-Keeps w i =
        let (r, w') = lv.lookup_domain_by_name id w in
        free_name-Keeps r w' (asks.lookup_domain id w i)

    create_disk-Keeps : CreationKeeps id → Keeps Inv (create_disk lv config id)
    create_disk-Keeps creation =
        (do
          step
              (wrapping "error in storage pool lookup" []
                (lv.lookup_storage_pool_by_name config.pool))
              (asks.lookup_pool config.pool)
          step _ (
              marshalled-Keeps "error configuring volume"
                (lv.marshal_volume (volume_config config id))
                (λ xml. wrapping "error creating volume XML" [] (lv.create_volume config.pool xml))
                creation.create_volume)).keeps

    create_domain-Keeps :
        CreationKeeps id → (mac : String) → Keeps Inv (create_domain lv config id mac)
    create_domain-Keeps creation mac =
        marshalled-Keeps "error configuring domain"
          (lv.marshal_domain (domain_config config id mac)) _
          (λ xml e.
            (do
              step (wrapping "error in defining domain" [] (lv.define_xml xml))
                  (creation.define mac xml e)
              step (wrapping "error creating domain" [] (lv.start id)) creation.start).keeps)

    create_vm-Keeps : CreationKeeps id → (mac : String) → Keeps Inv (create_vm lv config id mac)
    unfolding create_vm
    create_vm-Keeps creation mac =
        (session do
          step (check_name lv config id) check_name-Keeps
          step (create_disk lv config id) (create_disk-Keeps creation)
          step (create_domain lv config id mac) (create_domain-Keeps creation mac)).keeps

    first_mac-Keeps : (is : List Interface) → Keeps Inv (first_mac lv config is)
    first_mac-Keeps [] = λ w i. i
    first_mac-Keeps (x ∷ is) = λ w i. ground arith

    mac_address-Keeps : Keeps Inv (mac_address lv config id)
    unfolding mac_address
    mac_address-Keeps =
        (do
          xml ←
              step (wrapping "error getting the domain XML" [] (lv.xml_desc id)) (asks.xml_desc id)
          domain ←
              step (wrapping "error in domain XML" [] (return lv config (lv.unmarshal_domain xml)))
                (λ w i. i)
          step (first_mac lv config domain.interfaces) (first_mac-Keeps domain.interfaces)).keeps

    -- The cleaning of a machine, however it ends, keeps every property of the host that neither
    -- questions, nor the removal of the domain with that name and of its volume, nor their creation
    -- can break: it changes no other domain and no other volume.
    pub clean-Keeps : RemovalKeeps id → CreationKeeps id → Keeps Inv (clean lv config id)
    unfolding clean
    clean-Keeps removal creation =
        (session do
          step (wrapping "error in domain lookup" [] (lv.lookup_domain_by_name id))
              (asks.lookup_domain id)
          mac ← step (mac_address lv config id) mac_address-Keeps
          step (wrapping "error destroying the VM" [] (destroy_vm lv config id))
              (destroy_vm-Keeps removal)
          step (wrapping "error creating VM" [] (create_vm lv config id mac))
              (create_vm-Keeps creation mac)).keeps
