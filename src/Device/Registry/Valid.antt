-- ===== src/Device/Registry/Valid.antt =====
-- What holds of the registry between two calls, and what each call that changes it does.
use speechmesh.Common.{
  String, true, false, ◌≡◌, none, some, List, [], arith, has_text, Bool-cases, Option-cases, inl,
  inr, if◌then◌else◌, ◌==◌, eq_iff, ◌≢◌, ap, sym, subst, ◌∙◌,
}
use speechmesh.Common.HashMap.{
  HashMap, get, insert, remove, contains_key, keys_where, remove_all, get-insert, get-remove,
}
use speechmesh.Common.HashMap.Distinct.{
  IsDistinct, insert-IsDistinct, remove-IsDistinct, remove_all-IsDistinct, holds, drop_if,
  has_text-keys_where, get-remove_all-keys_where,
}
use speechmesh.Device.Registry.{
  RegisteredAgent, TaskRoute, RegistryInner, registered, routes_to, new, register_agent,
  unregister_agent, register_task, remove_task,
}

-- An agent stands under its own id, and every running task belongs to a registered agent.
pub record IsValid (s : RegistryInner) : Type 0 where
  pub agents_distinct : IsDistinct s.agents
  pub tasks_distinct : IsDistinct s.tasks
  pub agents_keyed : (k : String) (a : RegisteredAgent) → get k s.agents ≡ some a → a.agent_id ≡ k
  pub tasks_owned :
      (t : String) (r : TaskRoute)
      → get t s.tasks ≡ some r
      → contains_key r.agent_id s.agents ≡ true

-- `m` is a map without the tasks of an agent, and `ids` holds the tasks that it lost.
pub record Orphans (agent_id : String) (before after : HashMap TaskRoute) (ids : List String)
    : Type 0 where
  pub left : (t : String) → get t after ≡ drop_if (routes_to agent_id) (get t before)
  pub lost : (t : String) → has_text ids t ≡ holds (routes_to agent_id) (get t before)

pub keys_where-Orphans :
    (agent_id : String) (m : HashMap TaskRoute)
    → IsDistinct m
    → let ids = keys_where (routes_to agent_id) m in Orphans agent_id m (remove_all ids m) ids
keys_where-Orphans agent_id m d = record {
  left = λ t. get-remove_all-keys_where (routes_to agent_id) t m d;
  lost = λ t. has_text-keys_where (routes_to agent_id) t m d;
}

-- An agent that is not registered has no tasks.
unowned :
    (s : RegistryInner) (agent_id t : String)
    → IsValid s
    → get agent_id s.agents ≡ none
    → holds (routes_to agent_id) (get t s.tasks) ≡ false
unowned s agent_id t v free = elim (Option-cases (get t s.tasks)) [
  | inl e ↦ rw e
  | inr (r, e) ↦ rw e (ground (arith, v.tasks_owned t r e, eq_iff r.agent_id agent_id))
]

unowned-Orphans :
    (s : RegistryInner) (agent_id : String)
    → IsValid s
    → get agent_id s.agents ≡ none
    → Orphans agent_id s.tasks s.tasks []
unowned-Orphans s agent_id v free = record {
  left = λ t. ground (arith, unowned s agent_id t v free);
  lost = λ t. ground (arith, unowned s agent_id t v free);
}

-- Unregistering takes the agent out, and with it exactly its tasks, which it reports.
pub unregister_agent_effect :
    (s : RegistryInner) (agent_id : String)
    → IsValid s
    → ((k : String)
        → get k (unregister_agent s agent_id).0.agents
          ≡ (if agent_id == k then none else get k s.agents))
      × Orphans agent_id s.tasks
          (unregister_agent s agent_id).0.tasks
          (unregister_agent s agent_id).1
unfolding unregister_agent
unregister_agent_effect s agent_id v =
    (λ k. get-remove agent_id k s.agents, keys_where-Orphans agent_id s.tasks v.tasks_distinct)

-- Registering puts the agent in place of any with its id, and ends exactly the tasks of that one.
pub register_agent_effect :
    (s : RegistryInner) (agent : RegisteredAgent)
    → IsValid s
    → ((k : String)
        → get k (register_agent s agent).0.agents
          ≡ (if agent.agent_id == k then some agent else get k s.agents))
      × Orphans agent.agent_id s.tasks (register_agent s agent).0.tasks (register_agent s agent).1
unfolding register_agent
register_agent_effect s agent v = elim (Option-cases (get agent.agent_id s.agents)) [
  | inl free ↦
      rw free
        (λ k. get-insert agent.agent_id k agent s.agents, unowned-Orphans s agent.agent_id v free)
  | inr (old, e) ↦ rw e (
    λ k. ground (
      arith,
      get-insert agent.agent_id k agent (remove agent.agent_id s.agents),
      get-remove agent.agent_id k s.agents,
    ),
    keys_where-Orphans agent.agent_id s.tasks v.tasks_distinct,
  )
]

-- The invariant passes to a state whose tasks are those before, less the ones of an agent, and whose
-- agents are those before, but for that agent.
removal-owned :
    (agent_id : String) (s : RegistryInner) (agents : HashMap RegisteredAgent)
    (tasks : HashMap TaskRoute) (ids : List String)
    → IsValid s
    → Orphans agent_id s.tasks tasks ids
    → ((k : String) → agent_id ≢ k → get k agents ≡ get k s.agents)
    → (t : String) (r : TaskRoute) → get t tasks ≡ some r
    → contains_key r.agent_id agents ≡ true
removal-owned agent_id s agents tasks ids v o same t r e = elim (Option-cases (get t s.tasks)) [
  | inl free ↦ absurd (ground (arith, o.left t))
  | inr (q, at) ↦ ground (
    arith,
    o.left t,
    v.tasks_owned t q at,
    same r.agent_id (λ h. ground (arith, o.left t, eq_iff q.agent_id agent_id)),
  )
]

pub unregister_agent-IsValid :
    (s : RegistryInner) (agent_id : String) → IsValid s → IsValid (unregister_agent s agent_id).0
unregister_agent-IsValid s agent_id v =
    let (agents, o) = unregister_agent_effect s agent_id v in
    record {
      agents_distinct =
          unfold unregister_agent in remove-IsDistinct agent_id s.agents v.agents_distinct;
      tasks_distinct = unfold unregister_agent in remove_all-IsDistinct _ s.tasks v.tasks_distinct;
      agents_keyed = λ k a e. v.agents_keyed k a (ground (arith, agents k));
      tasks_owned =
          removal-owned agent_id s (unregister_agent s agent_id).0.agents
            (unregister_agent s agent_id).0.tasks _ v o
            (λ k ne. ground (arith, agents k, eq_iff agent_id k));
    }

pub register_agent-IsDistinct :
    (s : RegistryInner) (agent : RegisteredAgent)
    → IsDistinct s.agents
    → IsDistinct s.tasks
    → IsDistinct (register_agent s agent).0.agents × IsDistinct (register_agent s agent).0.tasks
unfolding register_agent
register_agent-IsDistinct s agent da dt = elim (Bool-cases (contains_key agent.agent_id s.agents)) [
  | inl old ↦ rw old (
    insert-IsDistinct _ agent _ (remove-IsDistinct _ s.agents da),
    remove_all-IsDistinct _ s.tasks dt,
  )
  | inr free ↦ rw free (insert-IsDistinct _ agent s.agents da, dt)
]

pub register_agent-IsValid :
    (s : RegistryInner) (agent : RegisteredAgent) → IsValid s → IsValid (register_agent s agent).0
register_agent-IsValid s agent v =
    let (agents, o) = register_agent_effect s agent v in
    let (da, dt) = register_agent-IsDistinct s agent v.agents_distinct v.tasks_distinct in
    record {
      agents_distinct = da;
      tasks_distinct = dt;
      agents_keyed = λ k a e. ground (arith, agents k, v.agents_keyed k a, eq_iff agent.agent_id k);
      tasks_owned =
          removal-owned agent.agent_id s (register_agent s agent).0.agents
            (register_agent s agent).0.tasks _ v o
            (λ k ne. ground (arith, agents k, eq_iff agent.agent_id k));
    }

-- A task starts only if none with its id runs, and nothing else changes.
pub register_task-registered :
    (s s' : RegistryInner) (task_id agent_id : String)
    → register_task s task_id agent_id ≡ registered s'
    → (get task_id s.tasks ≡ none)
      × (s' ≡ record s { tasks = insert task_id (record { agent_id = agent_id }) s.tasks })
unfolding register_task
register_task-registered s s' task_id agent_id h = elim (Option-cases (get task_id s.tasks)) [
  | inl free ↦ (free, ground (arith, free, h))
  | inr (r, busy) ↦ absurd (ground (arith, busy, h))
]

pub register_task_effect :
    (s s' : RegistryInner) (task_id agent_id : String)
    → register_task s task_id agent_id ≡ registered s'
    → (get task_id s.tasks ≡ none)
      × (s'.agents ≡ s.agents)
      × ((t : String)
          → get t s'.tasks
            ≡ (if task_id == t then some (record { agent_id = agent_id }) else get t s.tasks))
register_task_effect s s' task_id agent_id h =
    let (free, e) = register_task-registered s s' task_id agent_id h in
    (
      free,
      ap (λ (x : RegistryInner). x.agents) e,
      λ t. ap (λ (x : RegistryInner). get t x.tasks) e ∙ get-insert task_id t _ s.tasks,
    )

pub register_task-IsValid :
    (s s' : RegistryInner) (task_id agent_id : String)
    → IsValid s
    → contains_key agent_id s.agents ≡ true
    → register_task s task_id agent_id ≡ registered s'
    → IsValid s'
register_task-IsValid s s' task_id agent_id v owner h =
    subst IsValid (sym (register_task-registered s s' task_id agent_id h).1) (record {
      agents_distinct = v.agents_distinct;
      tasks_distinct = insert-IsDistinct task_id _ s.tasks v.tasks_distinct;
      agents_keyed = v.agents_keyed;
      tasks_owned = λ t r e.
          ground (
            arith,
            get-insert task_id t (record { agent_id = agent_id }) s.tasks,
            v.tasks_owned t r,
          );
    })

pub remove_task-IsValid :
    (s : RegistryInner) (task_id : String) → IsValid s → IsValid (remove_task s task_id).0
unfolding remove_task
remove_task-IsValid s task_id v = record {
  agents_distinct = v.agents_distinct;
  tasks_distinct = remove-IsDistinct task_id s.tasks v.tasks_distinct;
  agents_keyed = v.agents_keyed;
  tasks_owned = λ t r e. ground (arith, get-remove task_id t s.tasks, v.tasks_owned t r);
}

pub new-IsValid : IsValid new
unfolding new get
new-IsValid = record {
  agents_distinct = tt;
  tasks_distinct = tt;
  agents_keyed = λ k a e. cc;
  tasks_owned = λ t r e. cc;
}

-- The calls that change a registry. A task is started for an agent that is registered.
pub data Step (s : RegistryInner) : RegistryInner → Type 0 where
  connects : (agent : RegisteredAgent) → Step s (register_agent s agent).0
  disconnects : (agent_id : String) → Step s (unregister_agent s agent_id).0
  starts :
      (task_id agent_id : String) {s' : RegistryInner}
      → contains_key agent_id s.agents ≡ true
      → register_task s task_id agent_id ≡ registered s'
      → Step s s'
  ends : (task_id : String) → Step s (remove_task s task_id).0

pub data Reach : RegistryInner → Type 0 where
  start : Reach new
  after : {s t : RegistryInner} → Reach s → Step s t → Reach t

Step-IsValid : {s t : RegistryInner} → Step s t → IsValid s → IsValid t
Step-IsValid {s} (connects agent) v = register_agent-IsValid s agent v
Step-IsValid {s} (disconnects agent_id) v = unregister_agent-IsValid s agent_id v
Step-IsValid {s} (starts task_id agent_id {s'} owner h) v =
    register_task-IsValid s s' task_id agent_id v owner h
Step-IsValid {s} (ends task_id) v = remove_task-IsValid s task_id v

-- After any registrations, removals, task starts for registered agents and task ends, from the
-- empty registry on, each agent stands under its own id, each key stands once, and every running
-- task belongs to a registered agent.
pub Reach-IsValid : {s : RegistryInner} → Reach s → IsValid s
Reach-IsValid start = new-IsValid
Reach-IsValid (after r st) = Step-IsValid st (Reach-IsValid r)
