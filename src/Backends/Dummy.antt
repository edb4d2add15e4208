-- ===== src/Backends/Dummy.antt =====
-- pkg/providers/dummy.go: the provider of the tests, ten instances in memory.
use ofcir.Prelude.{
  ℕ, zero, suc, String, str_eq, Bool, true, false, List, [], ◌∷◌, Option, none, some, Exec, errorf,
  raise, pure, modify, ◌>>=◌, ◌>>◌, if◌then◌else◌,
}
use ofcir.Prelude.Texts.{decimal, concat}
use ofcir.Provider.{Resource, Provider, SecretData}

pub record DummyInstance : Type 0 where
  pub resource : Resource
  pub is_available : Bool

-- The package's variables: the map of the one `dummyProvider`, by the instances' ids, and whether
-- `once` has made it.
pub record DummyStore : Type 0 where
  pub is_made : Bool
  pub instances : List DummyInstance

abbrev pub max_available_resources : ℕ
max_available_resources = 10

unfoldable pub new_instance : ℕ → DummyInstance
new_instance n = record {
  resource = record {
    id = concat "dummy-" (decimal n);
    address = concat "1.1.1." (decimal n);
    metadata = "{}";
  };
  is_available = true;
}

-- the `k` instances from number `n` up
unfoldable pub new_instances : ℕ → ℕ → List DummyInstance
unfolding new_instance
new_instances zero n = []
new_instances (suc k) n = new_instance n ∷ new_instances k (suc n)

-- `p.instances[id]`
unfoldable pub lookup : String → List DummyInstance → Option DummyInstance
lookup id [] = none
lookup id (i ∷ is) = let rest = lookup id is in if str_eq i.resource.id id then some i else rest

abbrev pub mark : String → Bool → DummyInstance → DummyInstance
mark id b i = if str_eq i.resource.id id then record i { is_available = b } else i

-- `i.available = b; p.instances[id] = i`, where the map has an instance with that id
unfoldable pub set_available : String → Bool → List DummyInstance → List DummyInstance
set_available id b [] = []
set_available id b (i ∷ is) = mark id b i ∷ set_available id b is

-- the first available instance, in the order of the iteration
unfoldable pub first_available : List DummyInstance → Option DummyInstance
first_available [] = none
first_available (i ∷ is) = let rest = first_available is in if i.is_available then some i else rest

abbrev pub store : String → Bool → DummyStore → DummyStore
store id b s = record s { instances = set_available id b s.instances }

abbrev pub take : Option DummyInstance → Exec DummyStore Resource
take none = raise (errorf "no available resources found" [])
take (some i) = modify (store i.resource.id false) >> pure i.resource

-- `Acquire`; `order` is the order in which this iteration visits the map
unfoldable pub acquire : (List DummyInstance → List DummyInstance) → Exec DummyStore Resource
acquire order s = take (first_available (order s.instances)) s

abbrev pub found : String → Option DummyInstance → Exec DummyStore DummyInstance
found id none = raise (errorf "resource %s not found" (id ∷ []))
found id (some i) = pure i

-- `resource, ok := p.instances[id]`, with the error that each method returns on a missing id
unfoldable pub find : String → Exec DummyStore DummyInstance
find id s = found id (lookup id s.instances) s

unfoldable pub acquire_completed : String → Exec DummyStore (Bool × Resource)
unfolding find
acquire_completed id = do i ← find id; pure (true, i.resource)

unfoldable pub clean : String → Exec DummyStore (Unit {0})
unfolding find
clean id = do find id; pure tt

unfoldable pub clean_completed : String → Exec DummyStore Bool
unfolding find
clean_completed id = do find id; pure true

unfoldable pub release : String → Exec DummyStore (Unit {0})
unfolding find
release id = do find id; modify (store id true)

-- The methods as a provider; a call of `Acquire` visits the map in the order that `order` gives.
unfoldable pub dummy_provider : (List DummyInstance → List DummyInstance) → Provider DummyStore
unfolding acquire acquire_completed clean clean_completed release
dummy_provider order = record {
  acquire = λ pool_size pool_name pool_type. acquire order;
  acquire_completed = acquire_completed;
  clean = clean;
  clean_completed = clean_completed;
  release = release;
}

abbrev make : DummyStore → DummyStore
make s =
    if s.is_made
    then s
    else record { is_made = true; instances = new_instances max_available_resources 0 }

-- `DummyProviderFactory`
unfoldable pub dummy_provider_factory :
    (List DummyInstance → List DummyInstance)
    → String
    → SecretData
    → Exec DummyStore (Provider DummyStore)
dummy_provider_factory order provider_info secret = modify make >> pure (dummy_provider order)
