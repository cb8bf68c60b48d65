-- ===== src/Controller/Conditions.antt =====
-- meta.SetStatusCondition and its siblings (k8s.io/apimachinery), which the reconcilers only call:
-- the operations, and what their documentation states of them.
use parallel_workspace_serve.Prelude.{ℕ, String, Bool, List, Option}
use parallel_workspace_serve.Controller.Types.{Condition}

pub record ConditionOps : Type 0 where
  -- The time is what a condition gets whose status changed and that brings no time of its own.
  pub set_status_condition : ℕ → List Condition → Condition → List Condition × Bool
  pub find_status_condition : List Condition → String → Option Condition
  pub remove_status_condition : List Condition → String → List Condition
