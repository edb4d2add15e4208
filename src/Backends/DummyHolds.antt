-- ===== src/Backends/DummyHolds.antt =====
-- pkg/providers/dummy.go: which instance is held.
use ofcir.Prelude.{
  ℤ, String, str_eq, true, false, ◌≡◌, refl, ◌>>=◌, pure, modify, panic, List, [], ◌∷◌, Option,
  none, some, Exec, Outcome, ok, err, All, Bool-cases, inl, inr, eq_iff, arith,
}
use mathlib.Core.Path.{subst}
use ofcir.Provider.{Resource, Provider}
use ofcir.Backends.Dummy.{
  DummyInstance, DummyStore, lookup, set_available, first_available, mark, take, found, acquire,
  dummy_provider, store,
}

-- A call of a provider, with what it is called on.
pub data Call : Type 0 where
  call_acquire : ℤ → String → String → Call
  call_acquire_completed : String → Call
  call_clean : String → Call
  call_clean_completed : String → Call
  call_release : String → Call

module _ {W : Type 0} (q : Provider W) where
  -- the world after a call, whatever it returns
  abbrev pub after : Call → W → W
  after (call_acquire n name type_) w = (q.acquire n name type_ w).1
  after (call_acquire_completed id) w = (q.acquire_completed id w).1
  after (call_clean id) w = (q.clean id w).1
  after (call_clean_completed id) w = (q.clean_completed id w).1
  after (call_release id) w = (q.release id w).1

  abbrev pub after_all : List Call → W → W
  after_all [] w = w
  after_all (c ∷ cs) w = after_all cs (after c w)

-- the call does not release this resource
abbrev pub Spares : String → Call → Type 0
Spares id (call_release id') = str_eq id' id ≡ false
Spares id _ = Unit

-- an instance that is available is not this one
abbrev Other : String → DummyInstance → Type 0
Other id i = i.is_available ≡ true → str_eq i.resource.id id ≡ false

abbrev Held : String → DummyStore → Type 0
Held id s = All (Other id) s.instances

set_available-Held :
    (id : String) (is : List DummyInstance) → All (Other id) (set_available id false is)
unfolding set_available
set_available-Held id [] = tt
set_available-Held id (i ∷ is) = (ground arith, set_available-Held id is)

store_taken-Held :
    (id id' : String) (is : List DummyInstance)
    → All (Other id) is
    → All (Other id) (set_available id' false is)
unfolding set_available
store_taken-Held id id' [] h = tt
store_taken-Held id id' (i ∷ is) h = (ground arith, store_taken-Held id id' is h.1)

mark-Other :
    (id id' : String) (i : DummyInstance)
    → str_eq id' id ≡ false
    → Other id i
    → Other id (mark id' true i)
mark-Other id id' i e h = elim (Bool-cases (str_eq i.resource.id id')) [
  | inl m ↦ rw m (λ _. rw ((eq_iff i.resource.id id').0 m) e)
  | inr m ↦ rw m h
]

store_released-Held :
    (id id' : String) (is : List DummyInstance)
    → str_eq id' id ≡ false
    → All (Other id) is
    → All (Other id) (set_available id' true is)
unfolding set_available
store_released-Held id id' [] e h = tt
store_released-Held id id' (i ∷ is) e h =
    (mark-Other id id' i e h.0, store_released-Held id id' is e h.1)

first_available-Other :
    (id : String) (is : List DummyInstance) (i : DummyInstance)
    → All (Other id) is
    → first_available is ≡ some i
    → str_eq i.resource.id id ≡ false
unfolding first_available
first_available-Other id [] i h e = ground arith
first_available-Other id (j ∷ js) i h e = elim (Bool-cases j.is_available) [
  | inl a ↦ ground (arith, h.0 a)
  | inr a ↦ first_available-Other id js i h.1 (ground arith)
]

-- what an acquisition returns is held
abbrev HeldAfter : Outcome Resource × DummyStore → Type 0
HeldAfter (ok r, s) = Held r.id s
HeldAfter (err e, s) = Unit
HeldAfter (panic, s) = Unit

take-Held :
    (id : String) (o : Option DummyInstance) (s : DummyStore) → Held id s → Held id (take o s).1
take-Held id none s h = h
take-Held id (some i) s h = store_taken-Held id i.resource.id s.instances h

taken-Held :
    (o : Option DummyInstance) (s s' : DummyStore) (r : Resource)
    → take o s ≡ (ok r, s')
    → Held r.id s'
taken-Held none s s' r e = ground arith
taken-Held (some i) s s' r e = subst HeldAfter e (set_available-Held i.resource.id s.instances)

find-Held :
    {A : Type 0} (id id' : String) (o : Option DummyInstance)
    (f : DummyInstance → Exec DummyStore A) (s : DummyStore)
    → Held id s
    → ((i : DummyInstance) → Held id (f i s).1)
    → Held id ((found id' o >>= f) s).1
find-Held id id' none f s h k = h
find-Held id id' (some i) f s h k = k i

module _ (order : List DummyInstance → List DummyInstance)
    (adds_none : (P : DummyInstance → Type 0) (is : List DummyInstance)
      → All P is
      → All P (order is)) where
  after-Held :
      (id : String) (c : Call) (s : DummyStore)
      → Spares id c
      → Held id s
      → Held id (after (dummy_provider order) c s)
  unfolding dummy_provider
  after-Held id (call_acquire n name type_) s m h =
      take-Held id (first_available (order s.instances)) s h
  after-Held id (call_acquire_completed id') s m h =
      find-Held id id' (lookup id' s.instances) (λ i. pure (true, i.resource)) s h (λ i. h)
  after-Held id (call_clean id') s m h =
      find-Held id id' (lookup id' s.instances) (λ i. pure (tt {0})) s h (λ i. h)
  after-Held id (call_clean_completed id') s m h =
      find-Held id id' (lookup id' s.instances) (λ i. pure true) s h (λ i. h)
  after-Held id (call_release id') s m h =
      find-Held id id' (lookup id' s.instances) (λ i. modify (store id' true)) s h
        (λ i. store_released-Held id id' s.instances m h)

  after_all-Held :
      (id : String) (cs : List Call) (s : DummyStore)
      → All (Spares id) cs
      → Held id s
      → Held id (after_all (dummy_provider order) cs s)
  after_all-Held id [] s m h = h
  after_all-Held id (c ∷ cs) s m h =
      after_all-Held id cs (after (dummy_provider order) c s) m.1 (after-Held id c s m.0 h)

  acquire-Held : (s s' : DummyStore) (r : Resource) → acquire order s ≡ (ok r, s') → Held r.id s'
  unfolding acquire
  acquire-Held s s' r e = taken-Held (first_available (order s.instances)) s s' r e

  acquire-Other :
      (id : String) (s : DummyStore) (r : Resource)
      → Held id s
      → (acquire order s).0 ≡ ok r
      → str_eq r.id id ≡ false
  unfolding acquire
  acquire-Other id s r h e = go (first_available (order s.instances)) refl e
    where
      go :
          (o : Option DummyInstance)
          → first_available (order s.instances) ≡ o
          → (take o s).0 ≡ ok r
          → str_eq r.id id ≡ false
      go none f e = ground arith
      go (some i) f e = ground (
        arith,
        first_available-Other id (order s.instances) i (adds_none (Other id) s.instances h) f,
      )

  -- Where an iteration over the map visits only what the map holds: between two acquisitions that
  -- return the same id there is a release of that id. Whatever else is called after an acquisition,
  -- a later one that returns a resource returns another.
  pub acquire-acquire_differs :
      (s s' : DummyStore) (r r' : Resource) (cs : List Call)
      → acquire order s ≡ (ok r, s')
      → All (Spares r.id) cs
      → (acquire order (after_all (dummy_provider order) cs s')).0 ≡ ok r'
      → str_eq r'.id r.id ≡ false
  acquire-acquire_differs s s' r r' cs e m e' =
      acquire-Other r.id (after_all (dummy_provider order) cs s') r'
        (after_all-Held r.id cs s' m (acquire-Held s s' r e)) e'
