-- ===== src/Examples/Hosts.antt =====
-- An account of IBM Cloud with two hosts, and the theorems on its provider.
use ofcir.Prelude.{
  ℕ, suc, pos, true, false, ◌≡◌, refl, [], ◌∷◌, none, some, ok, Error, foreign, pure, raise,
}
use ofcir.Provider.{resource_at}
use ofcir.Fsm.Safety.{panics}
use ofcir.Backends.IbmCloud.{Hardware, SoftLayer, ensure_ssh_key}
use ofcir.Backends.IbmCloudProvider.{default_config, read_tags, clean, take_host, acquire, release}
use ofcir.Backends.IbmCloudHosts.{Offers, release_manual-Keeps, acquire-acquire_shared}

abbrev host : Hardware
host = record {
  id = some (pos 1);
  hostname = some "h-1";
  primary_ip_address = none;
  status = some "ACTIVE";
  transaction_status = none;
  tags = some "ofcir-manual" ∷ [];
  package_id = none;
  billing_id = some (pos 9);
  hourly = some true;
}

abbrev locked : Error
locked = foreign "transaction in progress"

-- It counts the hosts that are cancelled; no tag can be set, and no key can be read.
abbrev account : SoftLayer ℕ
account = record {
  get_hardware = pure (host ∷ []);
  get_tagged_hardware = λ tags. pure (host ∷ []);
  get_ssh_keys = raise locked;
  create_ssh_key = λ key label. raise locked;
  get_items = λ id. pure [];
  get_active_presets = λ id. pure [];
  place_order = λ o. raise locked;
  set_tags = λ id tags. raise locked;
  reload_operating_system = λ id r. raise locked;
  cancel_item = λ id now n. (ok tt, suc n);
  intn = λ n. pure 0;
  new_uuid = pure "1-2";
  dial = λ ip port. pure tt;
}

abbrev NoneCancelled : ℕ → Type 0
NoneCancelled n = n ≡ 0

release_manual-Keeps_example : NoneCancelled (release account default_config "h-1" 0).1
release_manual-Keeps_example =
    release_manual-Keeps account default_config NoneCancelled (λ id w i. i) "h-1" (host ∷ []) 0 0
      refl (λ h. refl, tt) refl

offers : Offers account default_config host (pos 1) "h-1"
unfolding read_tags
offers = record { has_id = refl; has_name = refl; is_active = refl; is_free = λ w. refl }

clean_calm : (w : ℕ) → panics (clean account default_config "h-1" w).0 ≡ false
unfolding clean ensure_ssh_key
clean_calm w = refl

acquire-acquire_shared_example :
    ((acquire account default_config "small" 0).0 ≡ ok (resource_at "h-1" ""))
    × ((acquire account default_config "spare" (acquire account default_config "small" 0).1).0
        ≡ ok (resource_at "h-1" ""))
unfolding acquire take_host clean ensure_ssh_key
acquire-acquire_shared_example =
    acquire-acquire_shared account default_config host (pos 1) "h-1" offers (λ w. refl) clean_calm
      "small" "spare" [] [] 0 0 0 0 refl refl refl
