-- ===== src/Gateway/Run/Owners.antt =====
-- Whom the tasks of a registry belong to when a start of a playback may be overtaken: the calls of
-- device/src/registry.rs, each under its own lock.
use speechmesh.Common.{
  String, true, false, ◌≡◌, some, List, [], ◌∷◌, sym, subst, arith, has_text, Option-cases, inl,
  inr, if◌then◌else◌, ◌||◌, ◌==◌, eq_iff,
}
use speechmesh.Common.HashMap.{get, contains_key, remove, get-insert, get-remove}
use speechmesh.Device.Registry.{
  RegisteredAgent, TaskRoute, RegistryInner, registered, register_agent, unregister_agent,
  register_task, remove_task,
}
use speechmesh.Device.Registry.Valid.{
  keys_where-Orphans, register_agent-IsDistinct, register_task-registered,
}
use speechmesh.Common.HashMap.Distinct.{
  IsDistinct, insert-IsDistinct, remove-IsDistinct, remove_all-IsDistinct,
}

-- An agent that is registered, or that left while a start had chosen it.
abbrev pub IsKnown : List String → RegistryInner → String → Type 0
IsKnown stranded s agent_id = (contains_key agent_id s.agents || has_text stranded agent_id) ≡ true

abbrev pub AllKnown : List String → RegistryInner → Type 0
AllKnown stranded s =
    (t : String) (r : TaskRoute) → get t s.tasks ≡ some r → IsKnown stranded s r.agent_id

register_agent_agents :
    (s : RegistryInner) (agent : RegisteredAgent) (k : String)
    → get k (register_agent s agent).0.agents
      ≡ (if agent.agent_id == k then some agent else get k s.agents)
unfolding register_agent
register_agent_agents s agent k = elim (Option-cases (get agent.agent_id s.agents)) [
  | inl free ↦ rw free (get-insert agent.agent_id k agent s.agents)
  | inr (old, e) ↦ rw e (
      ground (
        arith,
        get-insert agent.agent_id k agent (remove agent.agent_id s.agents),
        get-remove agent.agent_id k s.agents,
      ))
]

register_agent_tasks :
    (s : RegistryInner) (agent : RegisteredAgent) (t : String) (r : TaskRoute)
    → IsDistinct s.tasks
    → get t (register_agent s agent).0.tasks ≡ some r
    → get t s.tasks ≡ some r
unfolding register_agent
register_agent_tasks s agent t r d e = elim (Option-cases (get agent.agent_id s.agents)) [
  | inl free ↦ ground (arith, free, e)
  | inr (old, at) ↦ ground (arith, at, e, (keys_where-Orphans agent.agent_id s.tasks d).left t)
]

pub register_agent-IsKnown :
    (stranded : List String) (s : RegistryInner) (agent : RegisteredAgent) (id : String)
    → IsKnown stranded s id
    → IsKnown stranded (register_agent s agent).0 id
register_agent-IsKnown stranded s agent id h = ground (arith, h, register_agent_agents s agent id)

pub register_agent-AllKnown :
    (stranded : List String) (s : RegistryInner) (agent : RegisteredAgent)
    → IsDistinct s.tasks
    → AllKnown stranded s
    → AllKnown stranded (register_agent s agent).0
register_agent-AllKnown stranded s agent d h t r e =
    register_agent-IsKnown stranded s agent r.agent_id
      (h t r (register_agent_tasks s agent t r d e))

-- The agents that are stranded once one leaves: it is, if a start has chosen it.
abbrev pub strand : List String → String → List String → List String
strand chosen agent_id stranded = if has_text chosen agent_id then agent_id ∷ stranded else stranded

pub unregister_agent-IsKnown :
    (chosen stranded : List String) (s : RegistryInner) (agent_id id : String)
    → has_text chosen id ≡ true
    → IsKnown stranded s id
    → IsKnown (strand chosen agent_id stranded) (unregister_agent s agent_id).0 id
unfolding unregister_agent
unregister_agent-IsKnown chosen stranded s agent_id id c h =
    ground (arith, c, h, get-remove agent_id id s.agents, eq_iff agent_id id)

pub unregister_agent-AllKnown :
    (chosen stranded : List String) (s : RegistryInner) (agent_id : String)
    → IsDistinct s.tasks
    → AllKnown stranded s
    → AllKnown (strand chosen agent_id stranded) (unregister_agent s agent_id).0
unfolding unregister_agent
unregister_agent-AllKnown chosen stranded s agent_id d h t r e =
    let was : get t s.tasks ≡ some r =
      ground (arith, e, (keys_where-Orphans agent_id s.tasks d).left t) in
    let other : (r.agent_id == agent_id) ≡ false =
      ground (arith, e, was, (keys_where-Orphans agent_id s.tasks d).left t) in
    ground (
      arith,
      h t r was,
      other,
      get-remove agent_id r.agent_id s.agents,
      eq_iff agent_id r.agent_id,
      eq_iff r.agent_id agent_id,
    )

-- Each agent stands under its own id and each key once; and the owner of a running task, and an agent
-- that a start has chosen, is registered or has left while a start had chosen it.
pub record IsOwned (chosen stranded : List String) (s : RegistryInner) : Type 0 where
  pub agents_distinct : IsDistinct s.agents
  pub tasks_distinct : IsDistinct s.tasks
  pub agents_keyed : (k : String) (a : RegisteredAgent) → get k s.agents ≡ some a → a.agent_id ≡ k
  pub owners_known : AllKnown stranded s
  pub chosen_known : (id : String) → has_text chosen id ≡ true → IsKnown stranded s id

-- One choice of an agent less.
abbrev pub drop_one : String → List String → List String
drop_one id [] = []
drop_one id (c ∷ cs) = let rest = drop_one id cs in if c == id then cs else c ∷ rest

has_text-drop_one :
    (id t : String) (cs : List String) → has_text (drop_one id cs) t ≡ true → has_text cs t ≡ true
has_text-drop_one id t [] h = h
has_text-drop_one id t (c ∷ cs) h = ground (arith, h, has_text-drop_one id t cs)

module _ (chosen stranded : List String) (s : RegistryInner) where
  pub register_agent-IsOwned :
      (agent : RegisteredAgent)
      → IsOwned chosen stranded s
      → IsOwned chosen stranded (register_agent s agent).0
  register_agent-IsOwned agent v =
      let (da, dt) = register_agent-IsDistinct s agent v.agents_distinct v.tasks_distinct in
      record {
        agents_distinct = da;
        tasks_distinct = dt;
        agents_keyed = λ k a e. ground (
          arith,
          register_agent_agents s agent k,
          e,
          v.agents_keyed k a,
          eq_iff agent.agent_id k,
        );
        owners_known = register_agent-AllKnown stranded s agent v.tasks_distinct v.owners_known;
        chosen_known = λ id c. register_agent-IsKnown stranded s agent id (v.chosen_known id c);
      }

  pub unregister_agent-IsOwned :
      (agent_id : String)
      → IsOwned chosen stranded s
      → IsOwned chosen (strand chosen agent_id stranded) (unregister_agent s agent_id).0
  unfolding unregister_agent
  unregister_agent-IsOwned agent_id v = record {
    agents_distinct = remove-IsDistinct agent_id s.agents v.agents_distinct;
    tasks_distinct = remove_all-IsDistinct _ s.tasks v.tasks_distinct;
    agents_keyed = λ k a e. v.agents_keyed k a (ground (arith, e, get-remove agent_id k s.agents));
    owners_known =
        unregister_agent-AllKnown chosen stranded s agent_id v.tasks_distinct v.owners_known;
    chosen_known =
        λ id c. unregister_agent-IsKnown chosen stranded s agent_id id c (v.chosen_known id c);
  }

  pub choose-IsOwned :
      (agent_id : String)
      → contains_key agent_id s.agents ≡ true
      → IsOwned chosen stranded s
      → IsOwned (agent_id ∷ chosen) stranded s
  choose-IsOwned agent_id here v = record {
    agents_distinct = v.agents_distinct;
    tasks_distinct = v.tasks_distinct;
    agents_keyed = v.agents_keyed;
    owners_known = v.owners_known;
    chosen_known = λ id c. ground (arith, c, here, v.chosen_known id, eq_iff agent_id id);
  }

  pub drop_one-IsOwned :
      (agent_id : String)
      → IsOwned chosen stranded s
      → IsOwned (drop_one agent_id chosen) stranded s
  drop_one-IsOwned agent_id v = record {
    agents_distinct = v.agents_distinct;
    tasks_distinct = v.tasks_distinct;
    agents_keyed = v.agents_keyed;
    owners_known = v.owners_known;
    chosen_known = λ id c. v.chosen_known id (has_text-drop_one agent_id id chosen c);
  }

  pub register_task-IsOwned :
      (s' : RegistryInner) (task_id agent_id : String)
      → has_text chosen agent_id ≡ true
      → register_task s task_id agent_id ≡ registered s'
      → IsOwned chosen stranded s
      → IsOwned chosen stranded s'
  register_task-IsOwned s' task_id agent_id c h v =
      subst (IsOwned chosen stranded) (sym (register_task-registered s s' task_id agent_id h).1)
        (record {
          agents_distinct = v.agents_distinct;
          tasks_distinct = insert-IsDistinct task_id _ s.tasks v.tasks_distinct;
          agents_keyed = v.agents_keyed;
          owners_known = λ t r e. ground (
            arith,
            e,
            get-insert task_id t (record { agent_id = agent_id }) s.tasks,
            v.owners_known t r,
            v.chosen_known agent_id c,
          );
          chosen_known = v.chosen_known;
        })

  pub remove_task-IsOwned :
      (task_id : String)
      → IsOwned chosen stranded s
      → IsOwned chosen stranded (remove_task s task_id).0
  unfolding remove_task
  remove_task-IsOwned task_id v = record {
    agents_distinct = v.agents_distinct;
    tasks_distinct = remove-IsDistinct task_id s.tasks v.tasks_distinct;
    agents_keyed = v.agents_keyed;
    owners_known = λ t r e. v.owners_known t r (ground (arith, e, get-remove task_id t s.tasks));
    chosen_known = v.chosen_known;
  }
