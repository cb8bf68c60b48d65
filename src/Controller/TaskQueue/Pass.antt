-- ===== src/Controller/TaskQueue/Pass.antt =====
-- taskqueue.go: one pass of `Reconcile` over the queue, with `observe`, `throttle`, `switchModel`,
-- `stop`, `hold`, `holdAll`, `workspaceReady` and `dispatch`, and `Stats`.
use parallel_workspace_serve.Prelude.{
  ℕ, zero, suc, ◌+◌, ◌*◌, String, Bool, true, false, List, [], ◌∷◌, Option, none, some, ltb, ◌==◌,
  str_ltb, str_eq, if◌then◌else◌,
}
pub use parallel_workspace_serve.Controller.Types.{CtrlResult, done, requeue_after}
use parallel_workspace_serve.Controller.Types.{
  Workspace, WorkspacePhase, TaskRequest, TaskPhase, QuotaScope, Detail, Message, ConditionStatus,
}
use parallel_workspace_serve.Prelude.Outcome.{M, return, fail, ◌>>=◌, ◌>>◌}
use parallel_workspace_serve.Controller.Conditions.{ConditionOps}
use parallel_workspace_serve.Controller.Quota.{UsageReading}
use parallel_workspace_serve.Controller.Api.{Read, found, not_found, failed, Env}
use parallel_workspace_serve.Controller.TaskQueue.State.{
  Queue, Settings, get_workspace, update_workspace, update_task_status, observe_usage, notify, now,
}

abbrev pub quota_recheck_interval : ℕ
quota_recheck_interval = 5 * 60

-- `isOlder` of workspace_controller.go.
unfoldable pub is_older : ℕ → String → ℕ → String → Bool
is_older t1 name1 t2 name2 = if t1 == t2 then str_ltb name1 name2 else ltb t1 t2

abbrev pub before : TaskRequest → TaskRequest → Bool
before a b = is_older a.creation_timestamp a.name b.creation_timestamp b.name

abbrev pub is_occupying : TaskPhase → Bool
is_occupying TaskPhase.running = true
is_occupying TaskPhase.verifying = true
is_occupying TaskPhase.human_intervention = true
is_occupying _ = false

abbrev pub is_queued : TaskPhase → Bool
is_queued TaskPhase.unset = true
is_queued TaskPhase.pending = true
is_queued _ = false

abbrev pub occupies : TaskRequest → Bool
occupies task = if task.deleting then false else is_occupying task.phase

abbrev pub waits : TaskRequest → Bool
waits task = if task.deleting then false else is_queued task.phase

-- sort.Slice, which the source calls with `isOlder`.
unfoldable pub insert_task : TaskRequest → List TaskRequest → List TaskRequest
insert_task a [] = a ∷ []
insert_task a (b ∷ bs) = if before b a then b ∷ insert_task a bs else a ∷ b ∷ bs

unfoldable pub sort_tasks : List TaskRequest → List TaskRequest
sort_tasks [] = []
sort_tasks (a ∷ as') = insert_task a (sort_tasks as')

-- The position of `current` in the chain, -1 as `none`.
unfoldable pub index_of : String → List String → Option ℕ
index_of current [] = none
index_of current (m ∷ chain) = elim (str_eq m current) [
  | true ↦ some 0
  | false ↦ elim (index_of current chain) [ none ↦ none | some i ↦ some (suc i) ]
]

abbrev pub entry : List String → ℕ → String
entry [] i = ""
entry (m ∷ chain) zero = m
entry (m ∷ chain) (suc i) = entry chain i

-- `nextModel`; past the end of the chain `entry` gives the empty string, as the source's test does.
unfoldable pub next_model : List String → String → String
unfolding index_of
next_model chain current =
    if str_eq current ""
    then entry chain 1
    else elim (index_of current chain) [ none ↦ "" | some at ↦ entry chain (at + 1) ]

abbrev pub scope_eq : QuotaScope → QuotaScope → Bool
scope_eq QuotaScope.model QuotaScope.model = true
scope_eq QuotaScope.session QuotaScope.session = true
scope_eq QuotaScope.weekly QuotaScope.weekly = true
scope_eq _ _ = false

abbrev pub detail_eq : Detail → Detail → Bool
detail_eq Detail.empty Detail.empty = true
detail_eq (Detail.submission_stopped a) (Detail.submission_stopped b) = str_eq a b
detail_eq (Detail.quota_window_spent a) (Detail.quota_window_spent b) = scope_eq a b
detail_eq _ _ = false

abbrev pub is_model_scope : QuotaScope → Bool
is_model_scope scope = scope_eq scope QuotaScope.model

abbrev pub is_ready : WorkspacePhase → Bool
is_ready WorkspacePhase.ready = true
is_ready _ = false

abbrev pub condition_dispatched : String
condition_dispatched = "Dispatched"

-- What one turn of the loop over the queue decides: to go on with so many tasks running, or to
-- return.
pub data Next : Type 0 where
  continue : ℕ → Next
  finish : CtrlResult → Next

module _ (env : Env) (ops : ConditionOps) (r : Settings) where
  -- A write that failed ends the pass.
  unfoldable pub written : Option String → M Queue CtrlResult
  written none = return CtrlResult.done
  written (some e) = fail e

  unfoldable pub dispatch : TaskRequest → M Queue CtrlResult
  unfolding written update_task_status now
  dispatch task = do
    at ← now env
    e ← update_task_status env (record task {
      phase = TaskPhase.running;
      conditions =
          (ops.set_status_condition at task.conditions (record {
            type = condition_dispatched;
            status = ConditionStatus.condition_true;
            reason = "SlotAvailable";
            message = Message.text "dispatched to its workspace session";
            last_transition_time = none;
          })).0;
    })
    written e

  unfoldable pub hold : TaskRequest → String → Message → M Queue CtrlResult
  unfolding written update_task_status now
  hold task reason message = do
    at ← now env
    let (conditions, changed) = ops.set_status_condition at task.conditions (record {
      type = condition_dispatched;
      status = ConditionStatus.condition_false;
      reason = reason;
      message = message;
      last_transition_time = none;
    })
    elim changed [
      | false ↦ return CtrlResult.done
      | true ↦
          update_task_status env
            (record task { phase = TaskPhase.pending; conditions = conditions })
          >>= written
    ]

  unfoldable pub hold_all : List TaskRequest → String → Message → M Queue CtrlResult
  hold_all [] reason message = return CtrlResult.done
  hold_all (task ∷ tasks) reason message = hold task reason message >> hold_all tasks reason message

  unfoldable pub workspace_ready : TaskRequest → M Queue Bool
  unfolding get_workspace
  workspace_ready task = do
    read ← get_workspace env task.workspace_ref
    elim read [
      | found ws ↦ return (is_ready ws.status.phase)
      | not_found e ↦ return false
      | failed e ↦ fail e
    ]

  -- `none` is a reading that is not available, which is no error.
  unfoldable pub observe : TaskRequest → M Queue (Option UsageReading)
  unfolding get_workspace observe_usage
  observe task = elim r.has_usage_observer [
    | false ↦ return none
    | true ↦ get_workspace env task.workspace_ref >>= λ read. elim read [
      | found ws ↦ observe_usage env ws >>= λ usage. elim usage [
        | found reading ↦ return (some reading)
        | not_found e ↦ return none
        | failed e ↦ return none
      ]
      | not_found e ↦ return none
      | failed e ↦ return none
    ]
  ]

  -- The new model, or "" when the chain is spent or the workspace is gone.
  unfoldable pub switch_model : TaskRequest → M Queue String
  unfolding get_workspace update_workspace next_model
  switch_model task = do
    read ← get_workspace env task.workspace_ref
    elim read [
      | found ws ↦
          let next = next_model r.model_fallbacks ws.active_model in
          elim (str_eq next "") [
            | true ↦ return ""
            | false ↦ update_workspace env (record ws { active_model = next }) >>= λ e. elim e [
              | none ↦ return next
              | some e ↦ fail e
            ]
          ]
      | not_found e ↦ return ""
      | failed e ↦ fail e
    ]

  -- The workspace that a notification names, if it can be read, else the name in the task.
  abbrev pub read_name : String → Read Workspace → String
  read_name ref (found ws) = ws.name
  read_name ref (not_found e) = ref
  read_name ref (failed e) = ref

  unfoldable pub stop : TaskRequest → String → Detail → M Queue (Unit {0})
  unfolding get_workspace notify
  stop task kind detail q = elim (detail_eq q.stopped detail) [
    | true ↦ return tt q
    | false ↦
        let halted = record q { stopped = detail } in
        elim r.has_notify [
          | false ↦ return tt halted
          | true ↦
              (do
                read ← get_workspace env task.workspace_ref
                notify (read_name task.workspace_ref read) kind (Message.stopped detail))
                halted
        ]
  ]
