-- ===== src/Device/Router/Routes.antt =====
-- Where a route leads: to a registered agent on the device, and to an endpoint that it has.
use speechmesh.Common.{
  String, Bool, true, false, ◌≡◌, ◌↔◌, ◌⊎◌, refl, Option, none, some, List, [], ◌∷◌, map, keep,
  arith, find, Option-cases, inl, inr, is_text, is_text_iff, is_some, and_then, map_option, eq_iff,
  eq_refl, Memᴰ, ◌&&◌, find-some, find-none,
}
use speechmesh.Common.HashMap.{HashMap, get, values}
use speechmesh.Common.HashMap.Distinct.{IsDistinct, find-values-none}
use speechmesh.Device.Model.{
  Device, DeviceId, EndpointId, EndpointDirection, duplex, AudioEndpoint, endpoint,
}
use speechmesh.Device.Registry.{
  RegisteredAgent, RegistryInner, agent_device_id, matches, from_agent, snapshot,
  get_registered_agent,
}
use speechmesh.Device.Registry.Valid.{IsValid}
use speechmesh.Device.Registry.Select.{Selects, find-Selects}
use speechmesh.Device.Router.{
  RouteMatch, on_device, search_endpoint, find_agent_with_endpoint, select_by_endpoint,
  direction_matches, search_direction, select_by_direction,
}

-- An agent on the device that has the endpoint. One without `device_info` is taken to have it.
abbrev pub HasEndpoint : DeviceId → EndpointId → RegisteredAgent → Type 0
HasEndpoint device_id endpoint_id a =
    (agent_device_id a ≡ some device_id)
    × ((info : Device) → a.device_info ≡ some info → is_some (endpoint info endpoint_id) ≡ true)

has_endpoint : DeviceId → EndpointId → RegisteredAgent → Bool
has_endpoint device_id endpoint_id a =
    is_text (agent_device_id a) device_id
    && elim a.device_info [ none ↦ true | some info ↦ is_some (endpoint info endpoint_id) ]

has_endpoint_iff :
    (device_id : DeviceId) (endpoint_id : EndpointId) (a : RegisteredAgent)
    → (has_endpoint device_id endpoint_id a ≡ true) ↔ HasEndpoint device_id endpoint_id a
unfolding has_endpoint
has_endpoint_iff device_id endpoint_id a = (
  λ h. (
    (is_text_iff (agent_device_id a) device_id).0 (ground (arith, h)),
    λ info e. ground (arith, h, e),
  ),
  λ h. elim (Option-cases a.device_info) [
    | inl e ↦ ground (arith, e, (is_text_iff (agent_device_id a) device_id).1 h.0)
    | inr (info, e) ↦
        ground (arith, e, h.1 info e, (is_text_iff (agent_device_id a) device_id).1 h.0)
  ],
)

search_endpoint_eq :
    (s : RegistryInner) (device_id : DeviceId) (endpoint_id : EndpointId)
    (agents : List RegisteredAgent)
    → search_endpoint s device_id
        (some endpoint_id)
        (map from_agent (keep (matches (on_device device_id)) agents))
      ≡ and_then (find (has_endpoint device_id endpoint_id) agents) (λ a. get a.agent_id s.agents)
unfolding search_endpoint has_endpoint matches from_agent get_registered_agent
search_endpoint_eq s device_id endpoint_id [] = refl
search_endpoint_eq s device_id endpoint_id (a ∷ agents) =
    ground (arith, search_endpoint_eq s device_id endpoint_id agents)

-- The search answers what one search of the registered agents answers.
find_agent_with_endpoint_eq :
    (s : RegistryInner) (device_id : DeviceId) (endpoint_id : EndpointId)
    → IsValid s
    → find_agent_with_endpoint s device_id (some endpoint_id)
      ≡ find (has_endpoint device_id endpoint_id) (values s.agents)
unfolding find_agent_with_endpoint snapshot
find_agent_with_endpoint_eq s device_id endpoint_id v =
    let found = find-Selects _ _ s v (has_endpoint_iff device_id endpoint_id) in
    let e = search_endpoint_eq s device_id endpoint_id (values s.agents) in
    elim (Option-cases (find (has_endpoint device_id endpoint_id) (values s.agents))) [
      | inl miss ↦ rw (e, miss)
      | inr (a, hit) ↦ rw (e, hit) (rw hit at found).0
    ]

abbrev pub chosen : Option RouteMatch → Option RegisteredAgent
chosen r = map_option (λ m. m.agent) r

-- A route to an endpoint leads to a registered agent on the device that has the endpoint, and
-- names the endpoint. There is none only if no registered agent on the device has it. An agent
-- without `device_info` is taken to have every endpoint.
pub select_by_endpoint-Selects :
    (s : RegistryInner) (device_id : DeviceId) (endpoint_id : EndpointId)
    → IsValid s
    → Selects
        (HasEndpoint device_id endpoint_id)
        s
        (chosen (select_by_endpoint s device_id endpoint_id))
      × ((m : RouteMatch)
          → select_by_endpoint s device_id endpoint_id ≡ some m
          → m.endpoint_id ≡ some endpoint_id)
unfolding select_by_endpoint
select_by_endpoint-Selects s device_id endpoint_id v =
    let found = find-Selects _ _ s v (has_endpoint_iff device_id endpoint_id) in
    let e = find_agent_with_endpoint_eq s device_id endpoint_id v in
    elim (Option-cases (find (has_endpoint device_id endpoint_id) (values s.agents))) [
      | inl miss ↦ (rw (e, miss) (rw miss at found), λ m h. ground (arith, h, e, miss))
      | inr (a, hit) ↦ (rw (e, hit) (rw hit at found), λ m h. ground (arith, h, e, hit))
    ]

-- An endpoint serves its own direction, and a full-duplex one every direction.
abbrev pub CanServe : EndpointDirection → AudioEndpoint → Type 0
CanServe direction ep = (ep.direction ≡ direction) ⊎ (ep.direction ≡ duplex)

direction_matches_iff :
    (direction : EndpointDirection) (ep : AudioEndpoint)
    → (direction_matches direction ep ≡ true) ↔ CanServe direction ep
unfolding direction_matches
direction_matches_iff direction ep = ground arith

-- The route over one agent that is on the device.
route_of : EndpointDirection → RegisteredAgent → Option RouteMatch
route_of direction a = elim a.device_info [
  | none ↦ some (record { agent = a; endpoint_id = none })
  | some info ↦
      map_option (λ ep. record { agent = a; endpoint_id = some ep.id })
        (find (direction_matches direction) info.endpoints)
]

has_route : DeviceId → EndpointDirection → RegisteredAgent → Bool
has_route device_id direction a =
    is_text (agent_device_id a) device_id && is_some (route_of direction a)

-- The agents of a map whose keys are their ids are the ones that `get` finds.
values-get :
    (m : HashMap RegisteredAgent)
    → IsDistinct m
    → ((k : String) (a : RegisteredAgent) → get k m ≡ some a → a.agent_id ≡ k)
    → (a : RegisteredAgent) → Memᴰ a (values m)
    → get a.agent_id m ≡ some a
unfolding get values
values-get [] d keyed a m = elim m [ ]
values-get ((k, b) ∷ m) d keyed a (Memᴰ.head e) = ground (arith, e, keyed k b, eq_refl k)
values-get ((k, b) ∷ m) d keyed a (Memᴰ.tail i) = ground (
  arith,
  values-get m d.1 (λ j c h. keyed j c (ground (arith, eq_iff k j))) a i,
  eq_iff k a.agent_id,
)

search_direction_eq :
    (s : RegistryInner) (device_id : DeviceId) (direction : EndpointDirection)
    (agents : List RegisteredAgent)
    → ((a : RegisteredAgent) → Memᴰ a agents → get a.agent_id s.agents ≡ some a)
    → search_direction s device_id direction
        (map from_agent (keep (matches (on_device device_id)) agents))
      ≡ and_then (find (has_route device_id direction) agents) (route_of direction)
unfolding search_direction has_route route_of matches from_agent get_registered_agent
search_direction_eq s device_id direction [] known = refl
search_direction_eq s device_id direction (a ∷ agents) known = ground (
  arith,
  known a (Memᴰ.head refl),
  search_direction_eq s device_id direction agents (λ b m. known b (Memᴰ.tail m)),
)

-- What a route by direction may answer.
abbrev pub Routes : DeviceId → EndpointDirection → RegistryInner → Option RouteMatch → Type 0
Routes device_id direction s (some m) =
    (get m.agent.agent_id s.agents ≡ some m.agent)
    × (agent_device_id m.agent ≡ some device_id)
    × (((m.agent.device_info ≡ none) × (m.endpoint_id ≡ none))
        ⊎ ((info : Device) × (ep : AudioEndpoint) × (m.agent.device_info ≡ some info)
            × Memᴰ ep info.endpoints
            × CanServe direction ep
            × (m.endpoint_id ≡ some ep.id)))
Routes device_id direction s none =
    (k : String) (a : RegisteredAgent)
    → get k s.agents ≡ some a
    → agent_device_id a ≡ some device_id
    → (info : Device) × (a.device_info ≡ some info)
      × ((ep : AudioEndpoint) → Memᴰ ep info.endpoints → ¬ CanServe direction ep)

has_route-false :
    (device_id : DeviceId) (direction : EndpointDirection) (a : RegisteredAgent)
    → has_route device_id direction a ≡ false
    → agent_device_id a ≡ some device_id
    → (info : Device) × (a.device_info ≡ some info)
      × ((ep : AudioEndpoint) → Memᴰ ep info.endpoints → ¬ CanServe direction ep)
unfolding has_route route_of
has_route-false device_id direction a h on =
    let here = (is_text_iff (agent_device_id a) device_id).1 on in
    elim (Option-cases a.device_info) [
      | inl e ↦ absurd (ground (arith, e, h, here))
      | inr (info, e) ↦ (
        info,
        e,
        λ ep m serves. ground (
          arith,
          e,
          h,
          here,
          find-none (direction_matches direction) info.endpoints ep,
          m,
          (direction_matches_iff direction ep).1 serves,
        ),
      )
    ]

has_route-true :
    (s : RegistryInner) (device_id : DeviceId) (direction : EndpointDirection) (a : RegisteredAgent)
    → get a.agent_id s.agents ≡ some a
    → has_route device_id direction a ≡ true
    → Routes device_id direction s (route_of direction a)
unfolding has_route route_of
has_route-true s device_id direction a at h =
    let on = (is_text_iff (agent_device_id a) device_id).0 (ground (arith, h)) in
    elim (Option-cases a.device_info) [
      | inl e ↦
          let r : route_of direction a ≡ some (record { agent = a; endpoint_id = none }) =
            ground (arith, e) in
          rw r (at, on, inl (e, refl))
      | inr (info, e) ↦ elim (Option-cases (find (direction_matches direction) info.endpoints)) [
        | inl miss ↦ absurd (ground (arith, e, miss, h))
        | inr (ep, hit) ↦
            let (m, pass) = find-some _ info.endpoints ep hit in
            let r : route_of direction a ≡ some (record { agent = a; endpoint_id = some ep.id }) =
              ground (arith, e, hit) in
            rw r (at, on, inr (info, ep, e, m, (direction_matches_iff direction ep).0 pass, refl))
      ]
    ]

-- A route by direction leads to a registered agent on the device, and to an endpoint of it that
-- serves the direction, or to no endpoint by name where the agent has no `device_info`: such an
-- agent is taken for every direction, `Input` included, though the comment in the code says for
-- `Output` and `Duplex` only. There is none only if every registered agent on the device has
-- `device_info` and no endpoint there serves the direction.
pub select_by_direction-Routes :
    (s : RegistryInner) (device_id : DeviceId) (direction : EndpointDirection)
    → IsValid s
    → Routes device_id direction s (select_by_direction s device_id direction)
unfolding select_by_direction snapshot
select_by_direction-Routes s device_id direction v =
    let known = values-get s.agents v.agents_distinct v.agents_keyed in
    let e = search_direction_eq s device_id direction (values s.agents) known in
    elim (Option-cases (find (has_route device_id direction) (values s.agents))) [
      | inl miss ↦
          rw (e, miss)
            (λ k a at.
              has_route-false device_id direction a (find-values-none _ s.agents k a miss at))
      | inr (a, hit) ↦
          let (m, pass) = find-some _ (values s.agents) a hit in
          rw (e, hit) (has_route-true s device_id direction a (known a m) pass)
    ]
