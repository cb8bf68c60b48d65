-- ===== src/Controller/Quota.antt =====
-- controller/internal/controller/quota.go: a quota reading, and what it says of the windows.
-- A percentage is only compared here, and JSON carries no NaN, so a float64 stands as its rank
-- among the finite float64 values.
pub mod Scope
use parallel_workspace_serve.Prelude.{
  ℕ, String, Bool, true, false, List, [], ◌∷◌, Option, none, some, ◌||◌, not, leb, str_eq,
  if◌then◌else◌, ltb,
}
use parallel_workspace_serve.Controller.Types.{QuotaScope}

pub record UsageSnapshot : Type 0 where
  pub kind : String
  pub group : String
  pub remaining_percent : ℕ
  pub resets_at : String
  pub model : String
  pub active : Bool

pub record UsageReading : Type 0 where
  pub snapshots : List UsageSnapshot
  pub error_kind : String

abbrev pub group_weekly : String
group_weekly = "weekly"

abbrev pub keep_or_model : Option QuotaScope → QuotaScope
keep_or_model none = QuotaScope.model
keep_or_model (some scope) = scope

-- The loop of `exhaustedScope`; `none` is the empty scope. Its early return is the branch that
-- makes no recursive call.
unfoldable pub exhausted_scope_from : Option QuotaScope → List UsageSnapshot → ℕ → Option QuotaScope
exhausted_scope_from scope [] min_remaining_percent = scope
exhausted_scope_from scope (s ∷ snaps) min_remaining_percent =
    let skip = exhausted_scope_from scope snaps min_remaining_percent in
    let narrow = exhausted_scope_from (some (keep_or_model scope)) snaps min_remaining_percent in
    let weekly = exhausted_scope_from (some QuotaScope.weekly) snaps min_remaining_percent in
    if not s.active || ltb min_remaining_percent s.remaining_percent
    then skip
    else (if not (str_eq s.model "")
        then narrow
        else (if str_eq s.group group_weekly then weekly else some QuotaScope.session))

unfoldable pub exhausted_scope : List UsageSnapshot → ℕ → Option QuotaScope
unfolding exhausted_scope_from
exhausted_scope snaps min_remaining_percent = exhausted_scope_from none snaps min_remaining_percent

unfoldable pub is_auth_error : String → Bool
is_auth_error kind = str_eq kind "authentication_error" || str_eq kind "permission_error"
