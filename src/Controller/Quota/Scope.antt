-- ===== src/Controller/Quota/Scope.antt =====
-- quota.go: which window `exhaustedScope` reports, against a description with no loop.
use parallel_workspace_serve.Prelude.{
  ℕ, Bool, true, false, List, [], ◌∷◌, Option, none, some, ◌&&◌, not, str_eq, if◌then◌else◌, ltb,
  any, ◌≡◌, arith,
}
use parallel_workspace_serve.Controller.Types.{QuotaScope}
use parallel_workspace_serve.Controller.Quota.{
  UsageSnapshot, group_weekly, exhausted_scope, exhausted_scope_from, keep_or_model,
}

-- A window in effect whose balance is at or below the threshold.
abbrev pub is_spent : ℕ → UsageSnapshot → Bool
is_spent m s = s.active && not (ltb m s.remaining_percent)

abbrev pub is_model_window : UsageSnapshot → Bool
is_model_window s = not (str_eq s.model "")

abbrev pub is_weekly_window : UsageSnapshot → Bool
is_weekly_window s = str_eq s.model "" && str_eq s.group group_weekly

abbrev pub is_session_window : UsageSnapshot → Bool
is_session_window s = str_eq s.model "" && not (str_eq s.group group_weekly)

-- The widest kind of spent window, whatever the order of the snapshots; `seen` is the widest of
-- those that came before.
abbrev widest : Option QuotaScope → Bool → Bool → Bool → Option QuotaScope
widest seen true weekly model = some QuotaScope.session
widest seen false true model = some QuotaScope.weekly
widest seen false false true = some (keep_or_model seen)
widest seen false false false = seen

abbrev pub has : (UsageSnapshot → Bool) → ℕ → List UsageSnapshot → Bool
has window m snaps = any (λ s. is_spent m s && window s) snaps

exhausted_scope_from-widest :
    (seen : Option QuotaScope) (snaps : List UsageSnapshot) (m : ℕ)
    → exhausted_scope_from seen snaps m
      ≡ widest seen
          (has is_session_window m snaps)
          (has is_weekly_window m snaps)
          (has is_model_window m snaps)
unfolding exhausted_scope_from
exhausted_scope_from-widest seen [] m = ground arith
exhausted_scope_from-widest seen (s ∷ snaps) m = ground (
  arith,
  exhausted_scope_from-widest seen snaps m,
  exhausted_scope_from-widest (some (keep_or_model seen)) snaps m,
  exhausted_scope_from-widest (some QuotaScope.weekly) snaps m,
)

-- The reported scope is that of the widest spent window, wherever it stands in the list: `session`
-- if a spent window is account-wide and not weekly, else `weekly` if one is account-wide and
-- weekly, else `model` if one is scoped to a model, and none if no window in effect is spent.
pub exhausted_scope-widest :
    (snaps : List UsageSnapshot) (m : ℕ)
    → exhausted_scope snaps m ≡ (
        if has is_session_window m snaps
        then some QuotaScope.session
        else (if has is_weekly_window m snaps
            then some QuotaScope.weekly
            else (if has is_model_window m snaps then some QuotaScope.model else none)))
unfolding exhausted_scope
exhausted_scope-widest snaps m = ground (arith, exhausted_scope_from-widest none snaps m)
