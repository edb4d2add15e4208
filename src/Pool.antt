-- ===== src/Pool.antt =====
-- controllers/cipool_controller.go: the reconciliation of a CIPool.
pub mod Control
pub mod Names
pub mod Eviction
pub mod Removal
pub mod Creation
pub mod Fuel
pub mod Growth
pub mod Sized
use ofcir.Prelude.{
  ℕ, zero, suc, ◌+◌, ◌*◌, ℤ, pos, pos_part, ltb_ℤ, eq_ℤ, ltb, ◌+ℤ◌, ◌-ℤ◌, String, str_eq, Bool,
  true, false, not, ◌&&◌, List, [], ◌∷◌, Option, none, some, is_nil, length, keep, any, Exec, Error,
  Outcome, ok, err, panic, pure, crash, raise, errorf, gets, ◌>>=◌, ◌>>◌, catch, if◌then◌else◌,
}
use Prim.Native.String.{compare}
use text.Mathlib.Text.{is_lt}
use mathlib.Core.List.{reverse}
use ofcir.Prelude.Sorting.{sort_stable}
use ofcir.Prelude.Texts.{concat, format_04d, after_last, atoi}
use ofcir.Api.{
  Time, ObjectMeta, CiResource, CiResourceState, state_none, available, maintenance, error, other,
  CiPool, CiPoolState, pool_available, pool_offline, pool_other, pool_state_string, pool_state_eq,
  eviction_label, ofcir_finalizer,
}
use ofcir.Provider.{SecretData}
use ofcir.Fsm.Machine.{ControllerUtil, second, default_cipool_retry_delay}
use ofcir.Kube.{Client}
use ofcir.Resource.{secret_name}

-- the loops that keep the resources of a pool
abbrev pub of_pool : String → List CiResource → List CiResource
of_pool name = keep (λ c. str_eq c.spec.pool_ref name)

-- the texts' order in Go, by bytes
abbrev pub by_name : CiResource → CiResource → Bool
by_name a b = is_lt (compare a.meta.name b.meta.name)

abbrev numeral_of : Option String → Option ℤ
numeral_of none = none
numeral_of (some s) = atoi s

-- the number behind the last dash of a name; `none` for a malformed name
unfoldable pub numeral : String → Option ℤ
numeral name = numeral_of (after_last b'-' name)

abbrev pub larger : Option ℤ → ℤ → ℤ
larger none highest = highest
larger (some n) highest = if ltb_ℤ highest n then n else highest

unfoldable pub highest_from : ℤ → List CiResource → ℤ
highest_from highest [] = highest
highest_from highest (c ∷ cs) = highest_from (larger (numeral c.meta.name) highest) cs

-- `getHighestResourceNumeral`
unfoldable pub get_highest_resource_numeral : List CiResource → ℤ
unfolding highest_from
get_highest_resource_numeral cirs = highest_from (pos 0) cirs

unfoldable pub cir_name : ℤ → String
cir_name n = concat "cir-" (format_04d n)

-- the resource that `createCIResource` asks for
unfoldable pub new_cir : CiPool → ℤ → CiResource
unfolding cir_name
new_cir pool n = record {
  meta = record {
    name = cir_name n;
    namespace = pool.meta.namespace;
    labels = none;
    finalizers = [];
    deletion_timestamp = none;
    resource_version = "";
  };
  spec = record {
    pool_ref = pool.meta.name;
    state = state_none;
    extra = "";
    type_ = pool.spec.type_;
  };
  status = record {
    resource_id = "";
    address = "";
    provider_info = "";
    extra = "";
    state = state_none;
    last_updated = none;
  };
}

-- the states in which a resource may be evicted
abbrev pub is_evictable : CiResourceState → Bool
is_evictable available = true
is_evictable maintenance = true
is_evictable error = true
is_evictable _ = false

abbrev label_list : Option (List (String × String)) → List (String × String)
label_list none = []
label_list (some l) = l

-- `_, found := labels[EvictionLabel]`
abbrev pub is_labelled : CiResource → Bool
is_labelled c = any (λ (l : String × String). str_eq l.0 eviction_label) (label_list c.meta.labels)

-- `labels[EvictionLabel] = "true"`, where the label is not there
unfoldable pub add_label : CiResource → CiResource
add_label c = record c {
  meta = record c.meta { labels = some ((eviction_label, "true") ∷ label_list c.meta.labels) };
}

module _ {C : Type 0} (client : Client C) where
  -- an `Update` in that loop, and the test for enough selected resources
  unfoldable pub on_update : ℤ → (ℕ → Exec C ℕ) → ℕ → Outcome CiResource → Exec C ℕ
  on_update quota rest n (ok _) = if ltb_ℤ (pos (suc n)) quota then rest (suc n) else pure (suc n)
  on_update quota rest n (err e) = rest n
  on_update quota rest n panic = crash

  -- The loop of `deleteCIResources`, over the resources from the newest to the oldest, with the
  -- number selected so far; it stops where that reaches `quota`. A resource that has the label, or
  -- whose update fails, is passed over without that test.
  unfoldable pub select_evicted : ℤ → List CiResource → ℕ → Exec C ℕ
  unfolding on_update
  select_evicted quota [] n s = (ok n, s)
  select_evicted quota (cir ∷ cirs) n s =
      let skip = select_evicted quota cirs n s in
      let (r, s') = client.update_cir (add_label cir) s in
      let label = on_update quota (select_evicted quota cirs) n r s' in
      if is_evictable cir.status.state
      then (if is_labelled cir then skip else label)
      else (if ltb_ℤ (pos n) quota then skip else (ok n, s))

  -- `deleteCIResources`
  unfoldable pub delete_ciresources : ℤ → List CiResource → String → Exec C ℕ
  delete_ciresources target_size pool_cirs namespace = do
    n ← select_evicted (pos (length pool_cirs) -ℤ target_size) (reverse pool_cirs) 0
    client.delete_all_cirs namespace eviction_label
    pure n

  -- a `Create` in that loop
  unfoldable pub on_create : (ℕ → Exec C ℕ) → ℕ → Outcome (Unit {0}) → Exec C ℕ
  on_create rest n (ok _) = rest (suc n)
  on_create rest n (err e) = rest n
  on_create rest n panic = crash

  -- The loop that adds resources from number `i` up to `limit`, with the number created so far.
  -- The fuel is the distance to `limit`.
  unfoldable pub create_loop : ℕ → CiPool → ℤ → ℤ → ℕ → Exec C ℕ
  unfolding on_create
  create_loop zero pool i limit n s = (ok n, s)
  create_loop (suc fuel) pool i limit n s =
      let (r, s') = client.create_cir (new_cir pool i) s in
      let rest = on_create (create_loop fuel pool (i +ℤ pos 1) limit) n r s' in
      if ltb_ℤ i limit then rest else (ok n, s)

  -- `savePoolStatus`, which writes the server's answer over the pool
  unfoldable pub save_pool_status : CiPool → Exec C CiPool
  save_pool_status pool = do
    t ← gets client.clock
    client.update_pool_status
        (record pool { status = record pool.status { last_updated = some t } })
