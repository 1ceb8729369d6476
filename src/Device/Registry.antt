-- ===== src/Device/Registry.antt =====
-- device/src/registry.rs: the registered agents and the routes of the running tasks. The state
-- behind the mutex is a record, and a method that takes the lock is one function on it.
pub mod Valid
pub mod Select
use speechmesh.Common.{
  ℕ, String, Bool, true, false, not, ◌&&◌, ◌||◌, Option, none, some, List, [], ◌∷◌, map, find, keep,
  any, has_text, or_else, map_option, is_some, is_text, if◌then◌else◌, ◌==◌, ◌⧺◌,
}
use speechmesh.Common.HashMap.{
  HashMap, get, insert, remove, contains_key, values, keys_where, remove_all,
}
use speechmesh.Core.{CapabilityDomain, tts, same_domain}
use speechmesh.Transport.Agent.{AgentUpdateStatus}
use speechmesh.Device.Model.{Device}

pub data AgentKind : Type 0 where
  asr_provider device : AgentKind

pub record AgentDeviceIdentity : Type 0 where
  pub device_id : String
  pub hostname : Option String
  pub platform : Option String

-- The sending half of a channel is the number of the channel.
abbrev pub Sender : Type 0
Sender = ℕ

pub record AgentSnapshot : Type 0 where
  pub agent_id : String
  pub agent_name : String
  pub provider_id : Option String
  pub capabilities : List String
  pub capability_domains : List CapabilityDomain
  pub agent_kind : AgentKind
  pub client_version : Option String
  pub update_status : Option AgentUpdateStatus
  pub device : Option AgentDeviceIdentity
  pub device_info : Option Device

pub record RegisteredAgent : Type 0 where
  pub agent_id : String
  pub agent_name : String
  pub provider_id : Option String
  pub capabilities : List String
  pub capability_domains : List CapabilityDomain
  pub agent_kind : AgentKind
  pub client_version : Option String
  pub update_status : Option AgentUpdateStatus
  pub device : Option AgentDeviceIdentity
  pub device_info : Option Device
  pub command_tx : Sender

unfoldable pub from_agent : RegisteredAgent → AgentSnapshot
from_agent agent = record {
  agent_id = agent.agent_id;
  agent_name = agent.agent_name;
  provider_id = agent.provider_id;
  capabilities = agent.capabilities;
  capability_domains = agent.capability_domains;
  agent_kind = agent.agent_kind;
  client_version = agent.client_version;
  update_status = agent.update_status;
  device = agent.device;
  device_info = agent.device_info;
}

-- The device that an agent stands for: `device_info` first, then the older `device`.
abbrev pub agent_device_id : RegisteredAgent → Option String
agent_device_id agent =
    or_else (map_option (λ info. info.id) agent.device_info)
      (map_option (λ d. d.device_id) agent.device)

pub record AgentSnapshotFilter : Type 0 where
  pub agent_id : Option String
  pub device_id : Option String

-- A filter field that is not set admits everything.
abbrev pub admits : Option String → Option String → Bool
admits none actual = true
admits (some expected) actual = is_text actual expected

unfoldable pub matches : AgentSnapshotFilter → RegisteredAgent → Bool
matches filter agent =
    admits filter.agent_id (some agent.agent_id) && admits filter.device_id (agent_device_id agent)

pub record TaskRoute : Type 0 where
  pub agent_id : String

pub record RegistryInner : Type 0 where
  pub agents : HashMap RegisteredAgent
  pub tasks : HashMap TaskRoute

unfoldable pub new : RegistryInner
new = record { agents = []; tasks = [] }

abbrev pub routes_to : String → TaskRoute → Bool
routes_to agent_id route = route.agent_id == agent_id

-- The state without the agent and its tasks, and the tasks' ids.
unfoldable pub remove_agent_tasks_locked : RegistryInner → String → RegistryInner × List String
remove_agent_tasks_locked inner agent_id =
    let orphaned_task_ids = keys_where (routes_to agent_id) inner.tasks in
    (
      record inner {
        agents = remove agent_id inner.agents;
        tasks = remove_all orphaned_task_ids inner.tasks;
      },
      orphaned_task_ids,
    )

unfoldable pub register_agent : RegistryInner → RegisteredAgent → RegistryInner × List String
unfolding remove_agent_tasks_locked
register_agent inner agent =
    let (inner', orphaned) =
      if contains_key agent.agent_id inner.agents
      then remove_agent_tasks_locked inner agent.agent_id
      else (inner, []) in
    (record inner' { agents = insert agent.agent_id agent inner'.agents }, orphaned)

unfoldable pub unregister_agent : RegistryInner → String → RegistryInner × List String
unfolding remove_agent_tasks_locked
unregister_agent inner agent_id = remove_agent_tasks_locked inner agent_id

unfoldable pub select_agent : RegistryInner → String → Option RegisteredAgent
select_agent inner provider_id =
    find (λ agent. is_text agent.provider_id provider_id) (values inner.agents)

abbrev pub is_device : AgentKind → Bool
is_device device = true
is_device asr_provider = false

-- The capability label "speaker", or the domain TTS.
abbrev pub has_speaker_capability : RegisteredAgent → Bool
has_speaker_capability agent =
    has_text agent.capabilities "speaker" || any (λ d. same_domain d tts) agent.capability_domains

-- The test that `select_speaker_agent` makes of one agent.
unfoldable pub is_speaker_match : Option String → Option String → RegisteredAgent → Bool
is_speaker_match device_id agent_id agent =
    is_device agent.agent_kind
    && has_speaker_capability agent
    && admits agent_id (some agent.agent_id)
    && admits device_id (agent_device_id agent)

unfoldable pub select_speaker_agent :
    RegistryInner → Option String → Option String → Option RegisteredAgent
select_speaker_agent inner device_id agent_id =
    find (is_speaker_match device_id agent_id) (values inner.agents)

-- An error leaves the state as it was.
pub data TaskResult : Type 0 where
  registered : RegistryInner → TaskResult
  already_active : String → TaskResult

unfoldable pub register_task : RegistryInner → String → String → TaskResult
register_task inner task_id agent_id =
    if contains_key task_id inner.tasks
    then already_active ("task_id " ⧺ task_id ⧺ " is already active")
    else registered
        (record inner { tasks = insert task_id (record { agent_id = agent_id }) inner.tasks })

unfoldable pub remove_task : RegistryInner → String → RegistryInner × Option TaskRoute
remove_task inner task_id =
    (record inner { tasks = remove task_id inner.tasks }, get task_id inner.tasks)

unfoldable pub task_agent_id : RegistryInner → String → Option String
task_agent_id inner task_id = map_option (λ route. route.agent_id) (get task_id inner.tasks)

unfoldable pub agent_command_tx : RegistryInner → String → Option Sender
agent_command_tx inner agent_id = map_option (λ agent. agent.command_tx) (get agent_id inner.agents)

unfoldable pub get_registered_agent : RegistryInner → String → Option RegisteredAgent
get_registered_agent inner agent_id = get agent_id inner.agents

unfoldable pub snapshot : RegistryInner → AgentSnapshotFilter → List AgentSnapshot
snapshot inner filter = map from_agent (keep (matches filter) (values inner.agents))
