-- ===== src/Gateway/Run/Kept.antt =====
-- What holds in any run of the gateway.
use speechmesh.Common.{
  subst, sym, refl, String, Bool, true, ◌≡◌, Option, some, List, [], ◌∷◌, arith, has_text,
}
use speechmesh.Common.HashMap.{contains_key}
use speechmesh.Common.HashMap.Distinct.{
  IsDistinct, insert-IsDistinct, remove-IsDistinct, find-values-some,
}
use speechmesh.Device.Registry.{
  RegisteredAgent, RegistryInner, Sender, TaskRoute, registered, already_active,
}
use speechmesh.Device.Registry
use speechmesh.Device.Registry.Valid
use speechmesh.Gateway.State.{Gateway, PlayAudioRouteRequest, with_registry}
use speechmesh.Gateway.Sessions.{register_session, remove_session}
use speechmesh.Gateway.Tasks.{
  subscribe_task_waiter, remove_task_waiter, select_speaker_agent, register_task, remove_task,
}
use speechmesh.Gateway.Valid.{IsValid}
use speechmesh.Gateway.Valid.Sessions.{orphaned-IsDistinct}
use speechmesh.Gateway.Calls.{new_gateway}
use speechmesh.Gateway.Run.{
  Moment, Step, connects, disconnects, orphans, chooses, registers_task, removes_task, subscribes,
  unsubscribes, registers_session, takes_started, removes_session, delivers, channels_change, Run,
  start, then_step,
}
use speechmesh.Gateway.Run.Owners.{
  IsOwned, strand, register_agent-IsOwned, unregister_agent-IsOwned, choose-IsOwned,
  drop_one-IsOwned, register_task-IsOwned, remove_task-IsOwned,
}

module _ {V : Type 0} where
  -- The registry is in order but for the agents that were stranded, and a session or a task has one
  -- entry.
  pub record IsKept (m : Moment V) : Type 0 where
    pub registry : IsOwned m.chosen m.stranded m.gateway.device_registry
    pub sessions_distinct : IsDistinct m.gateway.sessions
    pub waiters_distinct : IsDistinct m.gateway.task_waiters

  same_maps :
      (m : Moment V) (chosen stranded : List String) (inner : RegistryInner)
      → IsOwned chosen stranded inner
      → IsKept m
      → IsKept
          (record { gateway = with_registry m.gateway inner; chosen = chosen; stranded = stranded })
  same_maps m chosen stranded inner r k = record {
    registry = r;
    sessions_distinct = k.sessions_distinct;
    waiters_distinct = k.waiters_distinct;
  }

  chosen_registered :
      (m : Moment V) (request : PlayAudioRouteRequest) (a : RegisteredAgent)
      → select_speaker_agent request.device_id request.agent_id m.gateway ≡ some a
      → IsKept m
      → contains_key a.agent_id m.gateway.device_registry.agents ≡ true
  unfolding select_speaker_agent Registry.select_speaker_agent
  chosen_registered m request a e k =
      let agents = m.gateway.device_registry.agents in
      let (key, at, pass) = find-values-some _ agents a k.registry.agents_distinct e in
      ground (arith, at, k.registry.agents_keyed key a at)

  task_registered :
      (g : Gateway V) (task_id agent_id : String) (inner : RegistryInner)
      → Registry.register_task g.device_registry task_id agent_id ≡ registered inner
      → (register_task task_id agent_id g).1 ≡ with_registry g inner
  unfolding register_task
  task_registered g task_id agent_id inner e = ground (arith, e)

  task_refused :
      (g : Gateway V) (task_id agent_id message : String)
      → Registry.register_task g.device_registry task_id agent_id ≡ already_active message
      → (register_task task_id agent_id g).1 ≡ g
  unfolding register_task
  task_refused g task_id agent_id message e = ground (arith, e)

  registered_task :
      (m : Moment V) (task_id agent_id : String)
      → has_text m.chosen agent_id ≡ true
      → IsKept m
      → IsKept (record m { gateway = (register_task task_id agent_id m.gateway).1 })
  registered_task m task_id agent_id c k =
      go (Registry.register_task m.gateway.device_registry task_id agent_id) refl
    where
      go :
          (r : Registry.TaskResult)
          → Registry.register_task m.gateway.device_registry task_id agent_id ≡ r
          → IsKept (record m { gateway = (register_task task_id agent_id m.gateway).1 })
      go (registered inner) e =
          subst (λ (h : Gateway V). IsKept (record m { gateway = h }))
            (sym (task_registered m.gateway task_id agent_id inner e))
            (same_maps m m.chosen m.stranded inner
              (register_task-IsOwned m.chosen m.stranded m.gateway.device_registry inner task_id
                agent_id c e k.registry)
              k)
      go (already_active message) e =
          subst (λ (h : Gateway V). IsKept (record m { gateway = h }))
            (sym (task_refused m.gateway task_id agent_id message e)) k

  Step-IsKept : {m n : Moment V} → Step m n → IsKept m → IsKept n
  unfolding register_session remove_session remove_task subscribe_task_waiter remove_task_waiter
  Step-IsKept {m} (connects agent) k =
      same_maps m m.chosen m.stranded _
        (register_agent-IsOwned m.chosen m.stranded m.gateway.device_registry agent k.registry) k
  Step-IsKept {m} (disconnects agent_id) k =
      same_maps m m.chosen (strand m.chosen agent_id m.stranded) _
        (unregister_agent-IsOwned m.chosen m.stranded m.gateway.device_registry agent_id k.registry)
        k
  Step-IsKept {m} (orphans agent_id) k = record {
    registry = k.registry;
    sessions_distinct = orphaned-IsDistinct m.gateway.sessions agent_id k.sessions_distinct;
    waiters_distinct = k.waiters_distinct;
  }
  Step-IsKept {m} (chooses request a e) k =
      same_maps m (a.agent_id ∷ m.chosen) m.stranded m.gateway.device_registry
        (choose-IsOwned m.chosen m.stranded m.gateway.device_registry a.agent_id
          (chosen_registered m request a e k) k.registry)
        k
  Step-IsKept {m} (registers_task task_id agent_id c) k =
      let w = registered_task m task_id agent_id c k in
      record {
        registry = drop_one-IsOwned m.chosen m.stranded _ agent_id w.registry;
        sessions_distinct = w.sessions_distinct;
        waiters_distinct = w.waiters_distinct;
      }
  Step-IsKept {m} (removes_task task_id) k =
      same_maps m m.chosen m.stranded _
        (remove_task-IsOwned m.chosen m.stranded m.gateway.device_registry task_id k.registry) k
  Step-IsKept {m} (subscribes task_id tx) k = record {
    registry = k.registry;
    sessions_distinct = k.sessions_distinct;
    waiters_distinct = insert-IsDistinct task_id tx m.gateway.task_waiters k.waiters_distinct;
  }
  Step-IsKept {m} (unsubscribes task_id) k = record {
    registry = k.registry;
    sessions_distinct = k.sessions_distinct;
    waiters_distinct = remove-IsDistinct task_id m.gateway.task_waiters k.waiters_distinct;
  }
  Step-IsKept {m} (registers_session agent_id id event_tx started_tx) k = record {
    registry = k.registry;
    sessions_distinct = insert-IsDistinct id _ m.gateway.sessions k.sessions_distinct;
    waiters_distinct = k.waiters_distinct;
  }
  Step-IsKept {m} (takes_started id route e) k = record {
    registry = k.registry;
    sessions_distinct = insert-IsDistinct id _ m.gateway.sessions k.sessions_distinct;
    waiters_distinct = k.waiters_distinct;
  }
  Step-IsKept {m} (removes_session id) k = record {
    registry = k.registry;
    sessions_distinct = remove-IsDistinct id m.gateway.sessions k.sessions_distinct;
    waiters_distinct = k.waiters_distinct;
  }
  Step-IsKept (delivers d) k = record {
    registry = k.registry;
    sessions_distinct = k.sessions_distinct;
    waiters_distinct = k.waiters_distinct;
  }
  Step-IsKept (channels_change is_open) k = record {
    registry = k.registry;
    sessions_distinct = k.sessions_distinct;
    waiters_distinct = k.waiters_distinct;
  }

  new-IsKept :
      (secret : Option String) (is_open : Sender → Bool)
      → IsKept (record { gateway = new_gateway secret is_open; chosen = []; stranded = [] })
  unfolding new_gateway
  new-IsKept secret is_open = record {
    registry = record {
      agents_distinct = Valid.new-IsValid.agents_distinct;
      tasks_distinct = Valid.new-IsValid.tasks_distinct;
      agents_keyed = Valid.new-IsValid.agents_keyed;
      owners_known = λ t r e. ground (arith, Valid.new-IsValid.tasks_owned t r e);
      chosen_known = λ id c. absurd (ground (arith, c));
    };
    sessions_distinct = tt;
    waiters_distinct = tt;
  }

  -- In any run of the gateway from its start, whose steps are what is done under one lock and the
  -- sends, in whatever order the calls of the connections overtake each other, each agent stands
  -- under its own id, and each agent, task, session and waiter stands once. The owner of a running
  -- task is registered, or it left after a start of a playback had chosen it and before that start
  -- registered its task; and so is each agent that a start under way has chosen.
  pub Run-IsKept : {secret : Option String} {m : Moment V} → Run secret m → IsKept m
  Run-IsKept {secret} (start is_open) = new-IsKept secret is_open
  Run-IsKept (then_step r s) = Step-IsKept s (Run-IsKept r)

  -- Where no agent was stranded, the gateway is valid.
  pub unstranded-IsValid : (m : Moment V) → m.stranded ≡ [] → IsKept m → IsValid m.gateway
  unstranded-IsValid m none_left k = record {
    registry = record {
      agents_distinct = k.registry.agents_distinct;
      tasks_distinct = k.registry.tasks_distinct;
      agents_keyed = k.registry.agents_keyed;
      tasks_owned = λ t r e. ground (arith, none_left, k.registry.owners_known t r e);
    };
    sessions_distinct = k.sessions_distinct;
    waiters_distinct = k.waiters_distinct;
  }
