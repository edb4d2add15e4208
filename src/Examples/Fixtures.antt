-- ===== src/Examples/Fixtures.antt =====
-- Two pools, a resource in any state, and a provider that is always ready.
use ofcir.Prelude.{
  ℕ, suc, ℤ, pos, negsuc, String, str_eq, true, [], ◌∷◌, none, some, keep, any, not, pure, ok,
}
use ofcir.Api.{ObjectMeta, CiResource, CiResourceState, CiPool, pool_available}
use ofcir.Provider.{Resource, Provider, Factories}
use ofcir.Fsm.Machine.{ControllerUtil, Context}

abbrev pub meta_of : String → ObjectMeta
meta_of name = record {
  name = name;
  namespace = "ofcir-system";
  labels = none;
  finalizers = "ofcir.openshift/finalizer" ∷ [];
  deletion_timestamp = none;
  resource_version = "1";
}

abbrev pub cir_in : String → String → CiResourceState → CiResourceState → CiResource
cir_in name pool requested observed = record {
  meta = meta_of name;
  spec = record { pool_ref = pool; state = requested; extra = ""; type_ = "host" };
  status = record {
    resource_id = "m-1";
    address = "10.0.0.1";
    provider_info = "";
    extra = "{}";
    state = observed;
    last_updated = some (pos 100);
  };
}

abbrev pub pool_of : String → ℤ → ℤ → CiPool
pool_of name priority size = record {
  meta = meta_of name;
  spec = record {
    provider = "fake-provider";
    priority = priority;
    size = size;
    provider_info = "info";
    timeout = pos 1000;
    state = pool_available;
    type_ = "host";
  };
  status = record { state = pool_available; size = size; last_updated = none };
}

abbrev pub small : CiPool
small = pool_of "small" (pos 0) (pos 1)

abbrev pub spare : CiPool
spare = pool_of "spare" (negsuc 0) (pos 1)

abbrev pub util : ControllerUtil
util = record {
  contains_finalizer = λ m f. any (λ x. str_eq x f) m.finalizers;
  add_finalizer = λ m f. record m { finalizers = f ∷ m.finalizers };
  remove_finalizer = λ m f. record m { finalizers = keep (λ x. not (str_eq x f)) m.finalizers };
}

abbrev pub ready : Resource
ready = record { id = "m-1"; address = "10.0.0.1"; metadata = "{}" }

-- it counts the calls
abbrev pub always_ready : Provider ℕ
always_ready = record {
  acquire = λ size name kind w. (ok ready, suc w);
  acquire_completed = λ id w. (ok (true, ready), suc w);
  clean = λ id w. (ok tt, suc w);
  clean_completed = λ id w. (ok true, suc w);
  release = λ id w. (ok tt, suc w);
}

abbrev pub factories : Factories ℕ
factories = record {
  dummy = λ info data'. pure always_ready;
  libvirt = λ info data'. pure always_ready;
  ironic = λ info data'. pure always_ready;
  equinix = λ info data'. pure always_ready;
  ibmcloud = λ info data'. pure always_ready;
  aws = λ info data'. pure always_ready;
}

abbrev pub in_pool : CiPool → Context ℕ
in_pool pool = record { pool = pool; provider = always_ready; util = util; now = pos 5000 }
