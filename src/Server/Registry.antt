-- ===== src/Server/Registry.antt =====
-- crates/vscreen-server/src/state.rs: the registry of the instances. `utf8` gives the bytes of a
-- string. `create` looks at the number of entries first and inserts under the entry of the new ID
-- after that: both steps stand on their own too, since other calls can come in between.
pub mod Limits
use vscreen.Base.Assoc
use vscreen.Base.Assoc.{get, keys, insert, remove}
use vscreen.Base.{
  List, Option, String, if◌then◌else◌, leb, length, none, not, some, ℕ, nat_eq, string_eq,
}
use vscreen.Core.Instance.{InstanceConfig, InstanceState, created, is_url_safe}

pub record InstanceEntry : Type 0 where
  pub config : InstanceConfig
  pub state : InstanceState

abbrev pub InstanceRegistry : Type 0
InstanceRegistry = List (String × InstanceEntry)

-- What `create` and `remove` return.
pub data Outcome : Type 0 where
  ok : InstanceEntry → Outcome
  invalid_config : Outcome
  limit_exceeded : Outcome
  instance_already_exists : Outcome
  instance_not_found : Outcome

abbrev pub new_entry : InstanceConfig → InstanceEntry
new_entry config = record { config = config; state = created }

-- The tests before the insertion: an error, or nothing.
unfoldable pub admit : (String → List ℕ) → InstanceRegistry → InstanceConfig → ℕ → Option Outcome
admit utf8 m config max_instances =
    if not (is_url_safe (utf8 config.instance_id))
    then some invalid_config
    else if leb max_instances (length m)
    then some limit_exceeded
    else none

unfoldable pub insert_vacant : InstanceRegistry → InstanceConfig → InstanceRegistry × Outcome
insert_vacant m config = elim (get config.instance_id m) [
  | some entry ↦ (m, instance_already_exists)
  | none ↦ (Assoc.insert config.instance_id (new_entry config) m, ok (new_entry config))
]

-- What follows the tests.
abbrev pub proceed : InstanceRegistry → InstanceConfig → Option Outcome → InstanceRegistry × Outcome
proceed m config (some error) = (m, error)
proceed m config none = insert_vacant m config

unfoldable pub create :
    (String → List ℕ) → InstanceRegistry → InstanceConfig → ℕ → InstanceRegistry × Outcome
create utf8 m config max_instances = proceed m config (admit utf8 m config max_instances)

unfoldable pub remove_instance : InstanceRegistry → String → InstanceRegistry × Outcome
remove_instance m id = elim (get id m) [
  | some entry ↦ (Assoc.remove id m, ok entry)
  | none ↦ (m, instance_not_found)
]

abbrev pub list_ids : InstanceRegistry → List String
list_ids m = keys m
