-- ===== src/Device/Examples.antt =====
-- A registry with a speaker and a recogniser, and one running task.
use speechmesh.Common.{◌≡◌, refl, none, some, [], ◌∷◌}
use speechmesh.Common.HashMap.{get, insert, values}
use speechmesh.Core.{CapabilityDomain}
use speechmesh.Device.Model.{output}
use speechmesh.Device.Registry.{
  RegistryInner, RegisteredAgent, AgentKind, new, register_agent, register_task, select_agent,
  select_speaker_agent, is_speaker_match,
}
use speechmesh.Device.Registry.Valid.{IsValid, Reach, start, after, connects, starts, Reach-IsValid}
use speechmesh.Device.Registry.Select.{
  Selects, IsSpeaker, select_agent-Selects, select_speaker_agent-Selects,
}
use speechmesh.Device.Router.{select_by_endpoint, select_by_direction, RouteMatch}
use speechmesh.Device.Router.Routes.{
  HasEndpoint, chosen, Routes, select_by_endpoint-Selects, select_by_direction-Routes,
}

abbrev pub speaker : RegisteredAgent
speaker = record {
  agent_id = "den-agent";
  agent_name = "Den";
  provider_id = none;
  capabilities = "speaker" ∷ [];
  capability_domains = [];
  agent_kind = AgentKind.device;
  client_version = none;
  update_status = none;
  device = some (record { device_id = "den"; hostname = none; platform = none });
  device_info = none;
  command_tx = 1;
}

abbrev pub recogniser : RegisteredAgent
recogniser = record {
  agent_id = "asr-agent";
  agent_name = "Recogniser";
  provider_id = some "apple.asr";
  capabilities = "on-device" ∷ [];
  capability_domains = CapabilityDomain.asr ∷ [];
  agent_kind = AgentKind.asr_provider;
  client_version = none;
  update_status = none;
  device = none;
  device_info = none;
  command_tx = 2;
}

abbrev pub house : RegistryInner
house = record {
  agents = ("den-agent", speaker) ∷ ("asr-agent", recogniser) ∷ [];
  tasks = ("t1", record { agent_id = "den-agent" }) ∷ [];
}

abbrev two_agents : RegistryInner
two_agents = record { agents = house.agents; tasks = [] }

two_agents-Reach : Reach two_agents
unfolding register_agent new insert get
two_agents-Reach = after (after start (connects speaker)) (connects recogniser)

house-Reach : Reach house
unfolding register_task get insert
house-Reach = after two_agents-Reach (starts "t1" "den-agent" refl refl)

Reach-IsValid_example : IsValid house
Reach-IsValid_example = Reach-IsValid house-Reach

pub house-IsValid : IsValid house
house-IsValid = Reach-IsValid house-Reach

pub speaker_found : select_speaker_agent house (some "den") none ≡ some speaker
unfolding select_speaker_agent values is_speaker_match
speaker_found = refl

select_agent-Selects_example :
    Selects (λ a. a.provider_id ≡ some "apple.asr") house (select_agent house "apple.asr")
select_agent-Selects_example = select_agent-Selects house "apple.asr" house-IsValid

select_speaker_agent-Selects_example :
    Selects (IsSpeaker (some "den") none) house (select_speaker_agent house (some "den") none)
select_speaker_agent-Selects_example =
    select_speaker_agent-Selects house (some "den") none house-IsValid

select_by_endpoint-Selects_example :
    Selects (HasEndpoint "den" "main") house (chosen (select_by_endpoint house "den" "main"))
    × ((m : RouteMatch)
        → select_by_endpoint house "den" "main" ≡ some m
        → m.endpoint_id ≡ some "main")
select_by_endpoint-Selects_example = select_by_endpoint-Selects house "den" "main" house-IsValid

select_by_direction-Routes_example :
    Routes "den" output house (select_by_direction house "den" output)
select_by_direction-Routes_example = select_by_direction-Routes house "den" output house-IsValid
