-- ===== src/Api.antt =====
-- The custom resources of api/v1 (ciresource_types.go, cipool_types.go), with the object metadata
-- that the controllers read.
pub mod States
use ofcir.Prelude.{ℕ, ℤ, negsuc, eq_ℤ, String, str_eq, Bool, true, false, Option, List, ◌==◌}

-- An instant or a duration, in nanoseconds.
abbrev pub Time : Type 0
Time = ℤ

-- `CIResourceState`, a text in the source: a constructor for each constant of the block, and
-- `other s` for a text `s` that is none of them.
pub data CiResourceState : Type 0 where
  state_none provisioning provisioning_wait available in_use : CiResourceState
  maintenance cleaning cleaning_wait delete error : CiResourceState
  other : String → CiResourceState

-- `CIResourceState.String`, and the text of each constant
unfoldable pub state_string : CiResourceState → String
state_string state_none = ""
state_string provisioning = "provisioning"
state_string provisioning_wait = "provisioning wait"
state_string available = "available"
state_string in_use = "in use"
state_string maintenance = "maintenance"
state_string cleaning = "cleaning"
state_string cleaning_wait = "cleaning wait"
state_string delete = "delete"
state_string error = "error"
state_string (other s) = s

abbrev index : CiResourceState → ℕ
index state_none = 0
index provisioning = 1
index provisioning_wait = 2
index available = 3
index in_use = 4
index maintenance = 5
index cleaning = 6
index cleaning_wait = 7
index delete = 8
index error = 9
index (other s) = 10

-- `==` on states
unfoldable pub state_eq : CiResourceState → CiResourceState → Bool
state_eq (other s) (other t) = str_eq s t
state_eq s t = index s == index t

-- `CIPoolState`, in the same way
pub data CiPoolState : Type 0 where
  pool_available pool_offline : CiPoolState
  pool_other : String → CiPoolState

unfoldable pub pool_state_string : CiPoolState → String
pool_state_string pool_available = "available"
pool_state_string pool_offline = "offline"
pool_state_string (pool_other s) = s

unfoldable pub pool_state_eq : CiPoolState → CiPoolState → Bool
pool_state_eq pool_available pool_available = true
pool_state_eq pool_offline pool_offline = true
pool_state_eq (pool_other s) (pool_other t) = str_eq s t
pool_state_eq s t = false

abbrev pub eviction_label : String
eviction_label = "ofcir/eviction"

abbrev pub ofcir_finalizer : String
ofcir_finalizer = "ofcir.openshift/finalizer"

abbrev pub type_ci_host : String
type_ci_host = "host"

-- The fields of `metav1.ObjectMeta` that the program reads or writes. `labels` is `none` for the
-- nil map.
pub record ObjectMeta : Type 0 where
  pub name : String
  pub namespace : String
  pub labels : Option (List (String × String))
  pub finalizers : List String
  pub deletion_timestamp : Option Time
  pub resource_version : String

pub record CiResourceSpec : Type 0 where
  pub pool_ref : String
  pub state : CiResourceState
  pub extra : String
  pub type_ : String

pub record CiResourceStatus : Type 0 where
  pub resource_id : String
  pub address : String
  pub provider_info : String
  pub extra : String
  pub state : CiResourceState
  pub last_updated : Option Time

pub record CiResource : Type 0 where
  pub meta : ObjectMeta
  pub spec : CiResourceSpec
  pub status : CiResourceStatus

pub record CiPoolSpec : Type 0 where
  pub provider : String
  pub priority : ℤ
  pub size : ℤ
  pub provider_info : String
  pub timeout : Time
  pub state : CiPoolState
  pub type_ : String

pub record CiPoolStatus : Type 0 where
  pub state : CiPoolState
  pub size : ℤ
  pub last_updated : Option Time

pub record CiPool : Type 0 where
  pub meta : ObjectMeta
  pub spec : CiPoolSpec
  pub status : CiPoolStatus

-- `CIPool.IsFallbackPool`
unfoldable pub is_fallback_pool : CiPool → Bool
is_fallback_pool p = eq_ℤ p.spec.priority (negsuc 0)

-- writes to one field, as `cir.Status.State = s`
abbrev pub set_state : CiResourceState → CiResource → CiResource
set_state s c = record c { status = record c.status { state = s } }

abbrev pub set_spec_state : CiResourceState → CiResource → CiResource
set_spec_state s c = record c { spec = record c.spec { state = s } }
