-- ===== src/Device/Model.antt =====
-- device/src/model.rs: a device is an aggregate of audio endpoints.
use speechmesh.Common.{String, Bool, true, false, Option, some, List, [], ◌∷◌, find, keep, ◌==◌}
use speechmesh.Core.{AudioFormat}

-- `DeviceId` and `EndpointId` wrap a text.
abbrev pub DeviceId : Type 0
DeviceId = String

abbrev pub EndpointId : Type 0
EndpointId = String

pub data EndpointDirection : Type 0 where
  input output duplex : EndpointDirection

-- `==` of the derived `PartialEq`
abbrev pub same_direction : EndpointDirection → EndpointDirection → Bool
same_direction input input = true
same_direction output output = true
same_direction duplex duplex = true
same_direction _ _ = false

unfoldable pub supports_input : EndpointDirection → Bool
supports_input input = true
supports_input duplex = true
supports_input output = false

unfoldable pub supports_output : EndpointDirection → Bool
supports_output output = true
supports_output duplex = true
supports_output input = false

pub record AudioEndpoint : Type 0 where
  pub id : EndpointId
  pub display_name : Option String
  pub direction : EndpointDirection
  pub capabilities : List String
  pub supported_formats : List AudioFormat

pub record Device : Type 0 where
  pub id : DeviceId
  pub hostname : Option String
  pub platform : Option String
  pub endpoints : List AudioEndpoint

unfoldable pub from_legacy : String → Option String → Option String → Device
from_legacy device_id hostname platform = record {
  id = device_id;
  hostname = hostname;
  platform = platform;
  endpoints = default_endpoint ∷ [];
}
  where
    default_endpoint : AudioEndpoint
    default_endpoint = record {
      id = "default";
      display_name = some "Default Endpoint";
      direction = duplex;
      capabilities = "speaker" ∷ "microphone" ∷ [];
      supported_formats = [];
    }

unfoldable pub endpoint : Device → EndpointId → Option AudioEndpoint
endpoint d endpoint_id = find (λ ep. ep.id == endpoint_id) d.endpoints

unfoldable pub endpoints_by_direction : Device → EndpointDirection → List AudioEndpoint
endpoints_by_direction d direction = keep (λ ep. same_direction ep.direction direction) d.endpoints

unfoldable pub output_endpoints : Device → List AudioEndpoint
output_endpoints d = keep (λ ep. supports_output ep.direction) d.endpoints

unfoldable pub input_endpoints : Device → List AudioEndpoint
input_endpoints d = keep (λ ep. supports_input ep.direction) d.endpoints
