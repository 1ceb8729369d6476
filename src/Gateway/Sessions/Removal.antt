-- ===== src/Gateway/Sessions/Removal.antt =====
-- What becomes of the sessions, tasks and waiters of an agent that leaves, or that registers anew.
use speechmesh.Common.{
  String, Bool, true, false, ◌≡◌, refl, Option, none, some, List, [], ◌∷◌, arith, has_text,
  is_text_iff, if◌then◌else◌, ◌==◌, Memᴰ, Bool-cases, inl, inr, eq_iff, ap, ◌∙◌,
}
use speechmesh.Common.HashMap.{
  HashMap, get, remove, remove_all, keys_where, get-remove, get-remove_all,
}
use speechmesh.Common.HashMap.Distinct.{
  drop_if, holds, get-remove_all-keys_where, has_text-keys_where,
}
use speechmesh.Core.{SessionId}
use speechmesh.Transport.Agent.{AgentHelloPayload}
use speechmesh.Device.Registry.{RegistryInner, Sender, routes_to}
use speechmesh.Device.Registry.Valid.{Orphans, register_agent_effect, unregister_agent_effect}
use speechmesh.Bridges.Error.{unavailable, Result, ok, err}
use speechmesh.Gateway.State.{SessionRoute, Gateway, task_result}
use speechmesh.Gateway.Valid.{IsValid}
use speechmesh.Gateway.Sessions.{
  Impacted, runs_on, push, take_sessions, remove_orphaned_sessions, finish_sessions, finish_tasks,
  finish_agent_removal, agent_of_hello, is_authentic, register_agent, unregister_agent,
}
use speechmesh.Gateway.Sessions.Notify.{Told, finish_sessions-Logs, finish_sessions-Told}
use speechmesh.Gateway.Sessions.Waiters.{
  Resolves, lost_task, finish_tasks-Resolves, finish_tasks_waiters, finish_tasks_mem,
}

pub take_sessions_map :
    (ids : List SessionId) (m : HashMap SessionRoute) → (take_sessions ids m).0 ≡ remove_all ids m
unfolding take_sessions remove_all
take_sessions_map [] m = refl
take_sessions_map (id ∷ ids) m = take_sessions_map ids (remove id m)

push-mem :
    (id : SessionId) (o : Option SessionRoute) (x : SessionId × SessionRoute) (xs : Impacted)
    → Memᴰ x xs
    → Memᴰ x (push id o xs)
push-mem id none x xs m = m
push-mem id (some r) x xs m = Memᴰ.tail m

take_sessions_mem :
    (ids : List SessionId) (m : HashMap SessionRoute) (id : SessionId) (route : SessionRoute)
    → has_text ids id ≡ true
    → get id m ≡ some route
    → Memᴰ (id, route) (take_sessions ids m).1
unfolding take_sessions
take_sessions_mem [] m id route h e = absurd (ground (arith, h))
take_sessions_mem (k ∷ ids) m id route h e = elim (Bool-cases (k == id)) [
  | inl same ↦ rw ((eq_iff k id).0 same, e) (Memᴰ.head refl)
  | inr other ↦
      push-mem k (get k m) (id, route) (take_sessions ids (remove k m)).1
        (take_sessions_mem ids (remove k m) id route (rw other at h)
          (ground (arith, other, e, get-remove k id m)))
]

is_authentic-true :
    (o : Option String) (hello : AgentHelloPayload)
    → is_authentic o hello ≡ true
    → (secret : String) → o ≡ some secret
    → hello.shared_secret ≡ some secret
is_authentic-true none hello h secret e = cc
is_authentic-true (some x) hello h secret e = cc ((is_text_iff hello.shared_secret x).0 h)

is_authentic-false :
    (o : Option String) (hello : AgentHelloPayload)
    → is_authentic o hello ≡ false
    → (secret : String) × (o ≡ some secret) × (¬ (hello.shared_secret ≡ some secret))
is_authentic-false none hello h = absurd (ground (arith, h))
is_authentic-false (some x) hello h =
    (x, refl, λ e. cc (h, (is_text_iff hello.shared_secret x).1 e))

module _ {V : Type 0} where
  -- `h` is `g` after the agent's removal: its sessions, tasks and waiters are gone and no others,
  -- and whoever waited for one of them and still listens has been told.
  pub record Removed (agent_id : String) (g h : Gateway V) : Type 0 where
    pub sessions :
        (id : SessionId) → get id h.sessions ≡ drop_if (runs_on agent_id) (get id g.sessions)
    pub told :
        (id : SessionId) (route : SessionRoute)
        → get id g.sessions ≡ some route
        → route.agent_id ≡ agent_id
        → Told id route h
    pub tasks :
        (t : String)
        → get t h.device_registry.tasks
          ≡ drop_if (routes_to agent_id) (get t g.device_registry.tasks)
    pub waiters :
        (t : String)
        → get t h.task_waiters ≡ (
            if holds (routes_to agent_id) (get t g.device_registry.tasks)
            then none
            else get t g.task_waiters)
    pub resolved :
        (t : String) (tx : Sender)
        → holds (routes_to agent_id) (get t g.device_registry.tasks) ≡ true
        → get t g.task_waiters ≡ some tx
        → h.is_open tx ≡ true
        → Memᴰ (task_result tx (lost_task t)) h.log
    pub is_open : h.is_open ≡ g.is_open

  Resolves-Told :
      (id : SessionId) (route : SessionRoute) (g h : Gateway V)
      → Told id route g
      → Resolves g h
      → Told id route h
  Resolves-Told id route g h t l = record {
    pending = λ tx e up. l.grows _ (t.pending tx e (cc (l.is_open, up)));
    running = λ e up. let (a, b) = t.running e (cc (l.is_open, up)) in (l.grows _ a, l.grows _ b);
  }

  -- The gateway with the agent's sessions and the registry's part done, before anyone is told.
  abbrev detached : String → Gateway V → RegistryInner → Gateway V
  detached agent_id g inner = record g {
    sessions = (remove_orphaned_sessions g.sessions agent_id).0;
    device_registry = inner;
  }

  finish_agent_removal-Removed :
      (agent_id : String) (g : Gateway V) (inner : RegistryInner) (ids : List String)
      → IsValid g
      → Orphans agent_id g.device_registry.tasks inner.tasks ids
      → let h =
          finish_agent_removal
            (remove_orphaned_sessions g.sessions agent_id).1
            ids
            (detached agent_id g inner) in
        Removed agent_id g h × (h.device_registry ≡ inner)
  unfolding finish_agent_removal remove_orphaned_sessions
  finish_agent_removal-Removed agent_id g inner ids v o =
      let keys = keys_where (runs_on agent_id) g.sessions in
      let impacted = (take_sessions keys g.sessions).1 in
      let g1 = detached agent_id g inner in
      let g2 = finish_sessions impacted g1 in
      let l = finish_sessions-Logs impacted g1 in
      let r = finish_tasks-Resolves ids g2 in
      (
        record {
          sessions = λ id.
              ap (get id) (r.sessions ∙ l.sessions ∙ take_sessions_map keys g.sessions)
              ∙ get-remove_all-keys_where (runs_on agent_id) id g.sessions v.sessions_distinct;
          told = λ id route e own.
              let mine : has_text keys id ≡ true =
                has_text-keys_where (runs_on agent_id) id g.sessions v.sessions_distinct
                ∙ rw e ((eq_iff route.agent_id agent_id).1 own) in
              Resolves-Told id route g2 (finish_tasks ids g2)
                (finish_sessions-Told impacted g1 id route
                  (take_sessions_mem keys g.sessions id route mine e))
                r;
          tasks = λ t.
              ap (λ (x : RegistryInner). get t x.tasks) (r.device_registry ∙ l.device_registry)
              ∙ o.left t;
          waiters = λ t.
              ap (get t) (finish_tasks_waiters ids g2 ∙ ap (remove_all ids) l.task_waiters)
              ∙ get-remove_all ids t g.task_waiters
              ∙ ap (λ (b : Bool). if b then none else get t g.task_waiters) (o.lost t);
          resolved = λ t tx mine e up.
              finish_tasks_mem ids g2 t tx (o.lost t ∙ mine) (ap (get t) l.task_waiters ∙ e)
                (cc (r.is_open, up));
          is_open = r.is_open ∙ l.is_open;
        },
        r.device_registry ∙ l.device_registry,
      )

  -- In a valid gateway, unregistering an agent takes exactly that agent out of the registry.
  -- Exactly the sessions and the tasks that ran on it are gone, with the waiters of those tasks;
  -- and whoever waited for one of them, on a channel that is still open, has been told: a pending
  -- start its error, a running session its error and its end, a task's waiter the disconnection.
  pub unregister_agent-Removed :
      (agent_id : String) (g : Gateway V)
      → IsValid g
      → let h = unregister_agent agent_id g in
        Removed agent_id g h
        × ((k : String)
            → get k h.device_registry.agents
              ≡ (if agent_id == k then none else get k g.device_registry.agents))
  unfolding unregister_agent
  unregister_agent-Removed agent_id g v =
      let (agents, o) = unregister_agent_effect g.device_registry agent_id v.registry in
      let (removed, inner) = finish_agent_removal-Removed agent_id g _ _ v o in
      (removed, λ k. ap (λ (x : RegistryInner). get k x.agents) inner ∙ agents k)

  -- What a hello may lead to. With the wrong secret it is refused and changes nothing. With the
  -- right one the agent is registered, and what ran on an earlier registration of it is ended.
  abbrev pub Registers :
      AgentHelloPayload → Sender → Gateway V → Result (Unit {0}) × Gateway V → Type 0
  Registers hello tx g (ok done, h) =
      ((secret : String)
        → g.expected_shared_secret ≡ some secret
        → hello.shared_secret ≡ some secret)
      × Removed hello.agent_id g h
      × ((k : String)
          → get k h.device_registry.agents ≡ (
              if hello.agent_id == k
              then some (agent_of_hello hello tx)
              else get k g.device_registry.agents))
  Registers hello tx g (err e, h) =
      ((secret : String) × (g.expected_shared_secret ≡ some secret)
        × (¬ (hello.shared_secret ≡ some secret)))
      × (e ≡ unavailable "agent authentication failed")
      × (h ≡ g)

  -- In a valid gateway, a hello is refused exactly if a secret is expected and the hello does not
  -- carry it, and then nothing changes. Otherwise the agent is registered as the hello describes
  -- it, the other agents stay, and the sessions, tasks and waiters of an earlier registration
  -- under its id are ended and told, and no others are touched.
  pub register_agent-Registers :
      (hello : AgentHelloPayload) (tx : Sender) (g : Gateway V)
      → IsValid g
      → Registers hello tx g (register_agent hello tx g)
  unfolding register_agent
  register_agent-Registers hello tx g v =
      elim (Bool-cases (is_authentic g.expected_shared_secret hello)) [
        | inl right ↦
            let (agents, o) =
              register_agent_effect g.device_registry (agent_of_hello hello tx) v.registry in
            let (removed, inner) = finish_agent_removal-Removed hello.agent_id g _ _ v o in
            rw right (
              is_authentic-true g.expected_shared_secret hello right,
              removed,
              λ k. ap (λ (x : RegistryInner). get k x.agents) inner ∙ agents k,
            )
        | inr wrong ↦ rw wrong (is_authentic-false g.expected_shared_secret hello wrong, refl, refl)
      ]
