-- ===== src/Provider.antt =====
-- pkg/providers/provider.go, errors.go and providersFactory.go: what a provider offers, and the
-- choice of one. A call changes the world `W`. The values that a Go call returns beside a non-nil
-- error are read by no caller, and are left out.
use ofcir.Prelude.{
  ℤ, String, str_eq, Bool, true, false, [], ◌∷◌, Option, Exec, Error, errorf, wrapf,
  resource_not_found, joined, ◌||◌, foreign, raise, if◌then◌else◌,
}
use ofcir.Api.{CiPool}

pub record Resource : Type 0 where
  pub id : String
  pub address : String
  pub metadata : String

-- a resource without metadata
abbrev pub resource_at : String → String → Resource
resource_at id address = record { id = id; address = address; metadata = "" }

pub record Provider (W : Type 0) : Type 0 where
  pub acquire : ℤ → String → String → Exec W Resource
  pub acquire_completed : String → Exec W (Bool × Resource)
  pub clean : String → Exec W (Unit {0})
  pub clean_completed : String → Exec W Bool
  pub release : String → Exec W (Unit {0})

-- `errors.As(err, &ResourceNotFoundError{})`: the error or one that it wraps
unfoldable pub as_resource_not_found : Error → Bool
as_resource_not_found (errorf f xs) = false
as_resource_not_found (wrapf f xs e) = as_resource_not_found e
as_resource_not_found (joined a b) = as_resource_not_found a || as_resource_not_found b
as_resource_not_found (resource_not_found id) = true
as_resource_not_found (foreign s) = false

-- `Secret.Data`: `none` is a missing key
abbrev pub SecretData : Type 0
SecretData = String → Option String

-- The factories that `NewProvider` calls, each with the pool's provider info and the secret's data.
pub record Factories (W : Type 0) : Type 0 where
  pub dummy : String → SecretData → Exec W (Provider W)
  pub libvirt : String → SecretData → Exec W (Provider W)
  pub ironic : String → SecretData → Exec W (Provider W)
  pub equinix : String → SecretData → Exec W (Provider W)
  pub ibmcloud : String → SecretData → Exec W (Provider W)
  pub aws : String → SecretData → Exec W (Provider W)

-- `NewProvider`
unfoldable pub new_provider : {W : Type 0} → Factories W → CiPool → SecretData → Exec W (Provider W)
new_provider f pool secret =
    let kind = pool.spec.provider in
    if str_eq kind "fake-provider"
    then f.dummy pool.spec.provider_info secret
    else if str_eq kind "libvirt"
    then f.libvirt pool.spec.provider_info secret
    else if str_eq kind "ironic"
    then f.ironic pool.spec.provider_info secret
    else if str_eq kind "equinix"
    then f.equinix pool.spec.provider_info secret
    else if str_eq kind "ibmcloud"
    then f.ibmcloud pool.spec.provider_info secret
    else if str_eq kind "aws"
    then f.aws pool.spec.provider_info secret
    else raise (errorf "unknown provider type: %s" (kind ∷ []))
