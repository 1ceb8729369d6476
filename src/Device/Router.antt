-- ===== src/Device/Router.antt =====
-- device/src/router.rs: routing to one endpoint of a device. Each search takes a snapshot, walks it,
-- and reads the agent again.
pub mod Routes
use speechmesh.Common.{
  String, Bool, ◌&&◌, ◌||◌, Option, none, some, List, [], ◌∷◌, find, map_option, is_some, is_text,
  if◌then◌else◌,
}
use speechmesh.Device.Model.{
  DeviceId, EndpointId, EndpointDirection, input, output, duplex, same_direction, AudioEndpoint,
  endpoint,
}
use speechmesh.Device.Registry.{
  RegisteredAgent, RegistryInner, AgentSnapshot, AgentSnapshotFilter, snapshot,
  get_registered_agent,
}

pub record RouteMatch : Type 0 where
  pub agent : RegisteredAgent
  pub endpoint_id : Option EndpointId

abbrev pub on_device : DeviceId → AgentSnapshotFilter
on_device device_id = record { agent_id = none; device_id = some device_id }

-- The test of an agent without `device_info`.
abbrev pub is_legacy_on : DeviceId → AgentSnapshot → Bool
is_legacy_on device_id s = is_text (map_option (λ d. d.device_id) s.device) device_id

-- The loop of `find_agent_with_endpoint`.
pub search_endpoint :
    RegistryInner → DeviceId → Option EndpointId → List AgentSnapshot → Option RegisteredAgent
search_endpoint inner device_id endpoint_id [] = none
search_endpoint inner device_id endpoint_id (s ∷ rest) =
    let next = search_endpoint inner device_id endpoint_id rest in
    let found = get_registered_agent inner s.agent_id in
    elim s.device_info [
      | some info ↦ elim endpoint_id [
        | some ep_id ↦ if is_some (endpoint info ep_id) then found else next
        | none ↦ found
      ]
      | none ↦ if is_legacy_on device_id s then found else next
    ]

unfoldable pub find_agent_with_endpoint :
    RegistryInner → DeviceId → Option EndpointId → Option RegisteredAgent
find_agent_with_endpoint inner device_id endpoint_id =
    search_endpoint inner device_id endpoint_id (snapshot inner (on_device device_id))

unfoldable pub select_by_endpoint : RegistryInner → DeviceId → EndpointId → Option RouteMatch
unfolding find_agent_with_endpoint
select_by_endpoint inner device_id endpoint_id =
    map_option (λ agent. record { agent = agent; endpoint_id = some endpoint_id })
      (find_agent_with_endpoint inner device_id (some endpoint_id))

unfoldable pub direction_matches : EndpointDirection → AudioEndpoint → Bool
direction_matches direction ep =
    same_direction ep.direction direction
    || (same_direction direction output && same_direction ep.direction duplex)
    || (same_direction direction input && same_direction ep.direction duplex)

abbrev pub route_or :
    Option RouteMatch → Option RegisteredAgent → Option EndpointId → Option RouteMatch
route_or next none endpoint_id = next
route_or next (some agent) endpoint_id = some (record { agent = agent; endpoint_id = endpoint_id })

-- The loop of `find_agent_by_direction`.
pub search_direction :
    RegistryInner → DeviceId → EndpointDirection → List AgentSnapshot → Option RouteMatch
search_direction inner device_id direction [] = none
search_direction inner device_id direction (s ∷ rest) =
    let next = search_direction inner device_id direction rest in
    let found = get_registered_agent inner s.agent_id in
    elim s.device_info [
      | some info ↦ elim (find (direction_matches direction) info.endpoints) [
        | some ep ↦ route_or next found (some ep.id)
        | none ↦ next
      ]
      | none ↦ if is_legacy_on device_id s then route_or next found none else next
    ]

unfoldable pub find_agent_by_direction :
    RegistryInner → DeviceId → EndpointDirection → Option RouteMatch
find_agent_by_direction inner device_id direction =
    search_direction inner device_id direction (snapshot inner (on_device device_id))

unfoldable pub select_by_direction :
    RegistryInner → DeviceId → EndpointDirection → Option RouteMatch
unfolding find_agent_by_direction
select_by_direction inner device_id direction = find_agent_by_direction inner device_id direction
