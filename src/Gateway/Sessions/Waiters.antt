-- ===== src/Gateway/Sessions/Waiters.antt =====
-- How the waiters of tasks are resolved.
use speechmesh.Common.{
  String, true, ◌≡◌, refl, some, List, [], ◌∷◌, arith, has_text, ◌==◌, ◌⧺◌, Memᴰ, Bool-cases,
  Option-cases, inl, inr, eq_iff, ap, ◌∙◌,
}
use speechmesh.Common.HashMap.{get, remove, remove_all, get-remove}
use speechmesh.Device.Registry.{Sender}
use speechmesh.Bridges.Error.{disconnected, err}
use speechmesh.Gateway.State.{TaskWaitResult, Gateway, Delivery, task_result}
use speechmesh.Gateway.Sessions.{resolve_task_waiter, finish_tasks}
use speechmesh.Gateway.Log.{send-Logs}

abbrev pub lost_task : String → TaskWaitResult
lost_task task_id = err (disconnected ("agent disconnected before task completion: " ⧺ task_id))

module _ {V : Type 0} where
  -- `h` differs from `g` in the waiters and the log at most.
  pub record Resolves (g h : Gateway V) : Type 0 where
    pub device_registry : h.device_registry ≡ g.device_registry
    pub secret : h.expected_shared_secret ≡ g.expected_shared_secret
    pub sessions : h.sessions ≡ g.sessions
    pub is_open : h.is_open ≡ g.is_open
    pub grows : (d : Delivery V) → Memᴰ d g.log → Memᴰ d h.log

  pub Resolves-refl : (g : Gateway V) → Resolves g g
  Resolves-refl g = record {
    device_registry = refl;
    secret = refl;
    sessions = refl;
    is_open = refl;
    grows = λ d m. m;
  }

  Resolves-trans : {g h k : Gateway V} → Resolves g h → Resolves h k → Resolves g k
  Resolves-trans a b = record {
    device_registry = cc;
    secret = cc;
    sessions = cc;
    is_open = cc;
    grows = λ d m. b.grows d (a.grows d m);
  }

  pub resolve_task_waiter-Resolves :
      (task_id : String) (r : TaskWaitResult) (g : Gateway V)
      → Resolves g (resolve_task_waiter task_id r g)
  unfolding resolve_task_waiter
  resolve_task_waiter-Resolves task_id r g = elim (Option-cases (get task_id g.task_waiters)) [
    | inl e ↦
        rw (e, resolve_task_waiter)
          (record {
            device_registry = refl;
            secret = refl;
            sessions = refl;
            is_open = refl;
            grows = λ d m. m;
          })
    | inr (tx, e) ↦
        rw (e, resolve_task_waiter)
          (let g' : Gateway V = record g { task_waiters = remove task_id g.task_waiters } in
            let l = send-Logs tx (task_result tx r) g' in
            record {
              device_registry = l.device_registry;
              secret = l.secret;
              sessions = l.sessions;
              is_open = l.is_open;
              grows = l.grows;
            })
  ]

  -- Resolving takes the waiter of the task out, and leaves the others.
  pub resolve_task_waiter_waiters :
      (task_id : String) (r : TaskWaitResult) (g : Gateway V)
      → (resolve_task_waiter task_id r g).task_waiters ≡ remove task_id g.task_waiters
  unfolding resolve_task_waiter
  resolve_task_waiter_waiters task_id r g = ground arith

  -- Its waiter is sent the result, if it still listens.
  pub resolve_task_waiter_mem :
      (task_id : String) (r : TaskWaitResult) (g : Gateway V) (tx : Sender)
      → get task_id g.task_waiters ≡ some tx
      → g.is_open tx ≡ true
      → Memᴰ (task_result tx r) (resolve_task_waiter task_id r g).log
  unfolding resolve_task_waiter
  resolve_task_waiter_mem task_id r g tx e up = rw (e, resolve_task_waiter) (rw up (Memᴰ.head refl))

  pub finish_tasks-Resolves : (ids : List String) (g : Gateway V) → Resolves g (finish_tasks ids g)
  unfolding finish_tasks
  finish_tasks-Resolves [] g = Resolves-refl g
  finish_tasks-Resolves (t ∷ ids) g =
      Resolves-trans (resolve_task_waiter-Resolves t (lost_task t) g)
        (finish_tasks-Resolves ids (resolve_task_waiter t (lost_task t) g))

  pub finish_tasks_waiters :
      (ids : List String) (g : Gateway V)
      → (finish_tasks ids g).task_waiters ≡ remove_all ids g.task_waiters
  unfolding finish_tasks remove_all
  finish_tasks_waiters [] g = refl
  finish_tasks_waiters (t ∷ ids) g =
      finish_tasks_waiters ids (resolve_task_waiter t (lost_task t) g)
      ∙ ap (remove_all ids) (resolve_task_waiter_waiters t (lost_task t) g)

  pub finish_tasks_mem :
      (ids : List String) (g : Gateway V) (t : String) (tx : Sender)
      → has_text ids t ≡ true
      → get t g.task_waiters ≡ some tx
      → g.is_open tx ≡ true
      → Memᴰ (task_result tx (lost_task t)) (finish_tasks ids g).log
  unfolding finish_tasks
  finish_tasks_mem [] g t tx h e up = absurd (ground (arith, h))
  finish_tasks_mem (u ∷ ids) g t tx h e up = elim (Bool-cases (u == t)) [
    | inl same ↦
        let q = (eq_iff u t).0 same in
        (finish_tasks-Resolves ids (resolve_task_waiter u (lost_task u) g)).grows _
          (rw q (resolve_task_waiter_mem t (lost_task t) g tx e up))
    | inr other ↦
        let r = resolve_task_waiter-Resolves u (lost_task u) g in
        finish_tasks_mem ids (resolve_task_waiter u (lost_task u) g) t tx (rw other at h)
          (ground (
            arith,
            other,
            e,
            resolve_task_waiter_waiters u (lost_task u) g,
            get-remove u t g.task_waiters,
          ))
          (cc (r.is_open, up))
  ]
