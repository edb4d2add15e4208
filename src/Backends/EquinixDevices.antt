-- ===== src/Backends/EquinixDevices.antt =====
-- pkg/providers/equinix.go: the devices that an acquisition creates.
use ofcir.Prelude.{
  ℕ, ℤ, pos, ltb_ℤ, String, false, ◌≡◌, ◌∙◌, List, [], ◌∷◌, Exec, Outcome, ok, err, panic,
  Bool-cases, inl, inr, continue, wrapping, ap, sym,
}
use mathlib.Core.Path.{subst}
use ofcir.Provider.{Resource}
use ofcir.Backends.AwsLaunches.{StartsOne}
use ofcir.Backends.Equinix.{
  EquinixProviderConfig, DeviceCreateRequest, Device, Packngo, count_devices, on_create, request_of,
  try_metros, create, create_below, acquire,
}

module _ {W : Type 0} (created : W → ℕ) (client : Packngo W) where
  -- What the code relies on: a creation that succeeds makes one device, one that fails makes none,
  -- and neither a list nor a new id makes any.
  pub record PackngoLaws : Type 0 where
    pub list_kept :
        (project : String) (w : W) → created (client.list_devices project w).1 ≡ created w
    pub uuid_kept : (w : W) → created (client.new_uuid w).1 ≡ created w
    pub create_starts :
        (q : DeviceCreateRequest) (w : W) → StartsOne created (created w) (client.create_device q w)

  module _ (laws : PackngoLaws) (config : EquinixProviderConfig) (n : ℕ) where
    on_create-StartsOne :
        (next : Exec W Resource) (r : Outcome Device × W)
        → ((w : W) → created w ≡ n → StartsOne created n (next w))
        → StartsOne created n r
        → StartsOne created n (on_create client config next r.0 r.1)
    on_create-StartsOne next (ok d, w) k h = h
    on_create-StartsOne next (err e, w) k h = k w h
    on_create-StartsOne next (panic, w) k h = h

    try_metros-StartsOne :
        (pool_name hostname : String) (metros : List String) (w : W)
        → created w ≡ n
        → StartsOne created n (try_metros client config pool_name hostname metros w)
    unfolding try_metros
    try_metros-StartsOne pool_name hostname [] w h = h
    try_metros-StartsOne pool_name hostname (metro ∷ metros) w h =
        let q = request_of client config pool_name hostname metro in
        on_create-StartsOne (try_metros client config pool_name hostname metros)
          (client.create_device q w) (try_metros-StartsOne pool_name hostname metros)
          (subst (λ m. StartsOne created m (client.create_device q w)) h (laws.create_starts q w))

    then-StartsOne :
        {A B : Type 0} (r : Outcome A × W) (f : A → Exec W B)
        → created r.1 ≡ n
        → ((a : A) (w : W) → created w ≡ n → StartsOne created n (f a w))
        → StartsOne created n (continue r.0 f r.1)
    then-StartsOne (ok a, w) f h k = k a w h
    then-StartsOne (err e, w) f h k = h
    then-StartsOne (panic, w) f h k = h

    create-StartsOne :
        (pool_name : String) (w : W)
        → created w ≡ n
        → StartsOne created n (create client config pool_name w)
    create-StartsOne pool_name w h =
        then-StartsOne (client.new_uuid w) _ (laws.uuid_kept w ∙ h)
          (λ uuid w' h'. try_metros-StartsOne pool_name _ config.metros w' h')

    create_below-StartsOne :
        (pool_size : ℤ) (pool_name : String) (devices : List Device) (w : W)
        → created w ≡ n
        → StartsOne created n (create_below client config pool_size pool_name devices w)
    create_below-StartsOne pool_size pool_name devices w h =
        elim (Bool-cases (ltb_ℤ (count_devices pool_name devices (pos 0)) pool_size)) [
          | inl e ↦ rw e (create-StartsOne pool_name w h)
          | inr e ↦ rw e h
        ]

    -- Where a creation makes one device if it succeeds, and no other call of an acquisition makes
    -- one: an acquisition that returns a resource has made exactly one device, and one that returns
    -- an error or panics has made none, however many metros it tried. Where the list shows at
    -- least as many devices with the pool's tag as the pool's size, it makes none.
    pub acquire-MakesOne :
        (pool_size : ℤ) (pool_name pool_type : String) (w : W)
        → created w ≡ n
        → StartsOne created n (acquire client config pool_size pool_name pool_type w)
          × ((devices : List Device) (w' : W)
              → client.list_devices config.project_id w ≡ (ok devices, w')
              → ltb_ℤ (count_devices pool_name devices (pos 0)) pool_size ≡ false
              → created (acquire client config pool_size pool_name pool_type w).1 ≡ n)
    unfolding acquire
    acquire-MakesOne pool_size pool_name pool_type w h = (
      then-StartsOne
          (wrapping "Error getting devices list" [] (client.list_devices config.project_id) w)
          (create_below client config pool_size pool_name) (laws.list_kept config.project_id w ∙ h)
          (λ devices w' h'. create_below-StartsOne pool_size pool_name devices w' h'),
      λ devices w' e f.
          rw (e, f)
            (ap (λ (r : Outcome (List Device) × W). created r.1) (sym e)
              ∙ laws.list_kept config.project_id w
              ∙ h),
    )
