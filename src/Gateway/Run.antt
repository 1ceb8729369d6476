-- ===== src/Gateway/Run.antt =====
-- Any run of the gateway. Each step is what is done under one lock of speechmeshd/src/agent.rs or
-- device/src/registry.rs, or a send; the calls of several connections may overtake each other
-- between any two. A start of a playback is three such steps.
pub mod Owners
pub mod Kept
use speechmesh.Common.{
  String, Bool, true, ◌≡◌, Option, none, some, List, [], ◌∷◌, arith, has_text, inl, inr,
  Option-cases, subst, sym,
}
use speechmesh.Common.HashMap.{get, insert, contains_key}
use speechmesh.Common.HashMap.Distinct.{
  IsDistinct, insert-IsDistinct, remove-IsDistinct, find-values-some,
}
use speechmesh.Core.{SessionId}
use speechmesh.Device.Registry.{RegisteredAgent, RegistryInner, Sender, registered, already_active}
use speechmesh.Device.Registry
use speechmesh.Device.Registry.Valid
use speechmesh.Gateway.State.{Gateway, SessionRoute, PlayAudioRouteRequest, Delivery, with_registry}
use speechmesh.Gateway.Sessions.{remove_orphaned_sessions, register_session, remove_session}
use speechmesh.Gateway.Tasks.{
  subscribe_task_waiter, remove_task_waiter, select_speaker_agent, register_task, remove_task,
}
use speechmesh.Gateway.Valid.{IsValid}
use speechmesh.Gateway.Valid.Sessions.{orphaned-IsDistinct}
use speechmesh.Gateway.Calls.{new_gateway}
use speechmesh.Gateway.Run.Owners.{
  IsOwned, AllKnown, strand, drop_one, register_agent-IsOwned, unregister_agent-IsOwned,
  choose-IsOwned, drop_one-IsOwned, register_task-IsOwned, remove_task-IsOwned,
}

-- A gateway between two steps: the agents that starts under way have chosen, once for each start, and
-- the agents that left while a start had chosen them.
pub record Moment (V : Type 0) : Type 0 where
  pub gateway : Gateway V
  pub chosen : List String
  pub stranded : List String

module _ {V : Type 0} where
  pub data Step (m : Moment V) : Moment V → Type 0 where
    -- of a registration or the end of one
    connects :
        (agent : RegisteredAgent)
        → Step m (record m {
          gateway =
              with_registry m.gateway (Registry.register_agent m.gateway.device_registry agent).0;
        })
    disconnects :
        (agent_id : String)
        → Step m (record m {
          gateway =
              with_registry m.gateway
                (Registry.unregister_agent m.gateway.device_registry agent_id).0;
          stranded = strand m.chosen agent_id m.stranded;
        })
    orphans :
        (agent_id : String)
        → Step m (record m {
          gateway = record m.gateway {
            sessions = (remove_orphaned_sessions m.gateway.sessions agent_id).0;
          };
        })
    -- of a start: the choice of an agent, and the task's registration, after which the start is sent
    chooses :
        (request : PlayAudioRouteRequest)
        → (a : RegisteredAgent)
        → select_speaker_agent request.device_id request.agent_id m.gateway ≡ some a
        → Step m (record m { chosen = a.agent_id ∷ m.chosen })
    registers_task :
        (task_id agent_id : String)
        → has_text m.chosen agent_id ≡ true
        → Step m (record m {
          gateway = (register_task task_id agent_id m.gateway).1;
          chosen = drop_one agent_id m.chosen;
        })
    -- of the end of a task
    removes_task :
        (task_id : String) → Step m (record m { gateway = remove_task task_id m.gateway })
    subscribes :
        (task_id : String)
        → (tx : Sender) → Step m (record m { gateway = subscribe_task_waiter task_id tx m.gateway })
    unsubscribes :
        (task_id : String) → Step m (record m { gateway = remove_task_waiter task_id m.gateway })
    -- of a session
    registers_session :
        (agent_id : String)
        → (id : SessionId) → (event_tx started_tx : Sender)
        → Step m (record m { gateway = register_session agent_id id event_tx started_tx m.gateway })
    takes_started :
        (id : SessionId)
        → (route : SessionRoute) → get id m.gateway.sessions ≡ some route
        → Step m (record m {
          gateway = record m.gateway {
            sessions = insert id (record route { started_tx = none }) m.gateway.sessions;
          };
        })
    removes_session :
        (id : SessionId) → Step m (record m { gateway = (remove_session id m.gateway).0 })
    -- of the channels
    delivers :
        (d : Delivery V)
        → Step m (record m { gateway = record m.gateway { log = d ∷ m.gateway.log } })
    channels_change :
        (is_open : Sender → Bool)
        → Step m (record m { gateway = record m.gateway { is_open = is_open } })

  pub data Run (secret : Option String) : Moment V → Type 0 where
    start :
        (is_open : Sender → Bool)
        → Run secret (record { gateway = new_gateway secret is_open; chosen = []; stranded = [] })
    then_step : {m n : Moment V} → Run secret m → Step m n → Run secret n
