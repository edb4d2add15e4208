-- ===== src/Examples/Nodes.antt =====
-- An Ironic with two nodes, and the theorems on its provider.
use ofcir.Prelude.{
  ℕ, suc, pos, String, str_eq, true, ◌≡◌, refl, List, [], ◌∷◌, none, some, ok, Error, foreign, pure,
  raise, if◌then◌else◌, eq_ℤ,
}
use ofcir.Prelude.Texts.{contains_text}
use ofcir.Api.{CiResource, in_use, delete, is_fallback_pool}
use ofcir.Provider.{Resource}
use ofcir.Fsm.Machine.{Context}
use ofcir.Fsm.Handlers.{drop_finalizer}
use ofcir.Fsm.Process.{start}
use ofcir.Fsm.Table.{visit}
use ofcir.Fsm.Release.{is_ok}
use ofcir.Backends.Ironic.{Value, text, Node, IronicApi, IronicState, mentions}
use ofcir.Backends.IronicProvider.{default_config, acquire, ironic_provider}
use ofcir.Backends.IronicGone.{deletion_unchecked}
use ofcir.Backends.IronicFrame.{QuestionsKeep, DeploymentKeeps, acquire-Keeps}
use ofcir.Examples.Fixtures.{cir_in, small, util}

abbrev marks : List (String × Value)
marks =
    ("ofcir_type", text "host") ∷ ("ofcir_cir", text "taken") ∷ ("ofcir_ip", text "10.0.0.7") ∷ []

abbrev node : Node
node = record { uuid = "node-1"; provision_state = "active"; extra = some marks }

abbrev free : Node
free = record {
  uuid = "node-2";
  provision_state = "available";
  extra = some (("ofcir_type", text "host") ∷ []);
}

abbrev locked : Error
locked = foreign "node is locked"

-- It counts the deployments with another key than the one of the configuration; every other write
-- fails.
abbrev ironic : IronicApi ℕ ℕ
ironic = record {
  cloud_client = λ c name. pure (some 1);
  basic_client = λ c. pure (some 1);
  get_image = λ c. raise locked;
  get = λ k id. if str_eq id "node-1" then pure node else raise locked;
  extra_beside = λ e. none;
  replace = λ k id ops. raise locked;
  change_provision_state = λ k id target key w. (ok tt, if str_eq key "" then w else suc w);
  pages = λ k. pure (ok (node ∷ free ∷ [])) ∷ [];
  dial = λ host port. pure tt;
  active = "active";
  available = "available";
  deploy_fail = "deploy failed";
  target_active = "active";
}

abbrev fresh : IronicState ℕ ℕ
fresh = record { cache = λ key. none; client = 1; instance_info = []; outside = 0 }

abbrev host : Resource
host = record { id = "node-1"; address = "10.0.0.7"; metadata = "null" }

abbrev on_ironic : Context (IronicState ℕ ℕ)
on_ironic = record {
  pool = small;
  provider = ironic_provider ironic default_config;
  util = util;
  now = pos 5000;
}

abbrev deleted : CiResource
deleted = cir_in "cir-0001" "small" in_use delete

abbrev on_locked : CiResource
on_locked = record deleted { status = record deleted.status { resource_id = "node-1" } }

deletion_unchecked_example :
    (is_ok (visit delete on_ironic (start on_locked fresh)).0 ≡ true)
    × ((visit delete on_ironic (start on_locked fresh)).1.cir ≡ drop_finalizer util on_locked)
    × ((visit delete on_ironic (start on_locked fresh)).1.resource_dirty ≡ true)
    × ((visit delete on_ironic (start on_locked fresh)).1.world ≡ fresh)
unfolding is_fallback_pool eq_ℤ mentions contains_text
deletion_unchecked_example =
    deletion_unchecked ironic default_config on_ironic on_locked fresh locked 0 0 node marks refl
      refl refl refl refl refl refl

abbrev NoOtherKey : ℕ → Type 0
NoOtherKey n = n ≡ 0

questions : QuestionsKeep ironic default_config NoOtherKey
questions = record {
  cloud_client = λ name w i. i;
  basic_client = λ w i. i;
  get_image = λ w i. i;
  pages = λ k. (λ w i. i, tt);
}

deployments : DeploymentKeeps ironic default_config NoOtherKey "host"
deployments = record { mark = λ k n m info l p e w i. i; deploy = λ k n target l p w i. i }

acquire-Keeps_example : NoOtherKey (acquire ironic default_config "host" fresh).1.outside
acquire-Keeps_example =
    acquire-Keeps ironic default_config NoOtherKey questions "host" deployments fresh refl
