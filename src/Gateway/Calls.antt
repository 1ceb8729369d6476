-- ===== src/Gateway/Calls.antt =====
-- The calls that change the gateway, each from its first lock to its last with nothing in between.
use speechmesh.Common.{String, Bool, Option, []}
use speechmesh.Core.{SessionId}
use speechmesh.Transport.Agent.{AgentHelloPayload, AgentToGatewayMessage}
use speechmesh.Device.Registry.{Sender}
use speechmesh.Device.Registry
use speechmesh.Device.Registry.Valid
use speechmesh.Bridges.Error.{BridgeError}
use speechmesh.Gateway.State.{Gateway, PlayAudioRouteRequest}
use speechmesh.Gateway.Valid.{IsValid}
use speechmesh.Gateway.Valid.Sessions.{
  register_agent-IsValid, unregister_agent-IsValid, register_session-IsValid,
  fail_session_start-IsValid,
}
use speechmesh.Gateway.Valid.Tasks.{
  subscribe_task_waiter-IsValid, remove_task_waiter-IsValid, route_play_audio_start-IsValid,
  route_play_audio_chunk-IsValid, route_play_audio_finish-IsValid, handle_agent_message-IsValid,
}
use speechmesh.Gateway.Sessions.{
  register_agent, unregister_agent, register_session, fail_session_start,
}
use speechmesh.Gateway.Tasks.{
  subscribe_task_waiter, remove_task_waiter, route_play_audio_start, route_play_audio_chunk,
  route_play_audio_finish, handle_agent_message,
}

module _ {V : Type 0} where
  -- A gateway as the daemon starts it.
  unfoldable pub new_gateway : Option String → (Sender → Bool) → Gateway V
  new_gateway secret is_open = record {
    device_registry = Registry.new;
    expected_shared_secret = secret;
    sessions = [];
    task_waiters = [];
    is_open = is_open;
    log = [];
  }

  -- One call, or a channel that opens or closes.
  pub data Call (g : Gateway V) : Gateway V → Type 0 where
    registers : (hello : AgentHelloPayload) → (tx : Sender) → Call g (register_agent hello tx g).1
    unregisters : (agent_id : String) → Call g (unregister_agent agent_id g)
    registers_session :
        (agent_id : String)
        → (id : SessionId) → (event_tx started_tx : Sender)
        → Call g (register_session agent_id id event_tx started_tx g)
    fails_session : (id : SessionId) → (e : BridgeError) → Call g (fail_session_start id e g)
    subscribes : (task_id : String) → (tx : Sender) → Call g (subscribe_task_waiter task_id tx g)
    unsubscribes : (task_id : String) → Call g (remove_task_waiter task_id g)
    starts : (request : PlayAudioRouteRequest) → Call g (route_play_audio_start request g).1
    sends_chunk :
        (task_id data_base64 : String) → Call g (route_play_audio_chunk task_id data_base64 g).1
    finishes : (task_id : String) → Call g (route_play_audio_finish task_id g).1
    receives : (m : AgentToGatewayMessage) → Call g (handle_agent_message m g)
    channels_change : (is_open : Sender → Bool) → Call g (record g { is_open = is_open })

  -- A call that is not interrupted keeps the gateway valid.
  pub Call-IsValid : {g h : Gateway V} → Call g h → IsValid g → IsValid h
  Call-IsValid {g} (registers hello tx) v = register_agent-IsValid hello tx g v
  Call-IsValid {g} (unregisters agent_id) v = unregister_agent-IsValid agent_id g v
  Call-IsValid {g} (registers_session agent_id id event_tx started_tx) v =
      register_session-IsValid agent_id id event_tx started_tx g v
  Call-IsValid {g} (fails_session id e) v = fail_session_start-IsValid id e g v
  Call-IsValid {g} (subscribes task_id tx) v = subscribe_task_waiter-IsValid task_id tx g v
  Call-IsValid {g} (unsubscribes task_id) v = remove_task_waiter-IsValid task_id g v
  Call-IsValid {g} (starts request) v = route_play_audio_start-IsValid request g v
  Call-IsValid {g} (sends_chunk task_id data_base64) v =
      route_play_audio_chunk-IsValid task_id data_base64 g v
  Call-IsValid {g} (finishes task_id) v = route_play_audio_finish-IsValid task_id g v
  Call-IsValid {g} (receives m) v = handle_agent_message-IsValid m g v
  Call-IsValid {g} (channels_change is_open) v = record {
    registry = v.registry;
    sessions_distinct = v.sessions_distinct;
    waiters_distinct = v.waiters_distinct;
  }

  pub new_gateway-IsValid :
      (secret : Option String) (is_open : Sender → Bool) → IsValid (new_gateway secret is_open)
  unfolding new_gateway
  new_gateway-IsValid secret is_open = record {
    registry = Valid.new-IsValid;
    sessions_distinct = tt;
    waiters_distinct = tt;
  }
