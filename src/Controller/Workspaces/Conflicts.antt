-- ===== src/Controller/Workspaces/Conflicts.antt =====
-- conflict.go: the files that two branches are changing.
-- What the source prints as the detail of a conflict is the list of its files, each with its
-- branches, and "" is the empty list: a branch has no blank in its name, so the texts differ where
-- the lists do.
pub mod Overlap
use parallel_workspace_serve.Prelude.{
  ℕ, String, Bool, true, false, List, [], ◌∷◌, ◌++◌, Option, none, some, ◌&&◌, ◌||◌, not, str_eq,
  str_ltb, if◌then◌else◌, ltb, length, any, keep_if, Dict, lookup, insert,
}
use parallel_workspace_serve.Prelude.Outcome.{M, ok, return, fail, ◌>>=◌, ◌>>◌}
use parallel_workspace_serve.Controller.Types.{
  Workspace, WorkspaceStatus, BlackboardEntry, Condition, ConditionStatus, Message,
}
use parallel_workspace_serve.Controller.Conditions.{ConditionOps}
use parallel_workspace_serve.Controller.Workspaces.Cluster.{Trace, Cluster, Setup}
use parallel_workspace_serve.Controller.Workspaces.Calls.{now, update_status, notify}
use parallel_workspace_serve.Controller.Workspaces.Evacuation.{set_condition}
use parallel_workspace_serve.Controller.Workspaces.Lifecycle.{same_status}
use parallel_workspace_serve.Controller.Workspaces.Blackboard.{
  sort_entries, same_texts, active_blackboard_entries,
}

abbrev pub event_file_conflict : String
event_file_conflict = "FileConflict"

abbrev pub condition_file_conflict : String
condition_file_conflict = "FileConflict"

abbrev pub has_text : String → List String → Bool
has_text s texts = any (λ t. str_eq t s) texts

abbrev pub or_no_branches : Option (List String) → List String
or_no_branches none = []
or_no_branches (some branches) = branches

-- The inner loop: `seen` are the files of this entry met so far.
unfoldable pub add_files :
    String → List String → List String → Dict (List String) → Dict (List String)
add_files branch seen [] d = d
add_files branch seen (f ∷ files) d =
    let skipped = add_files branch seen files d in
    let added =
      add_files branch (f ∷ seen) files (insert f (or_no_branches (lookup f d) ++ branch ∷ []) d) in
    if has_text f seen then skipped else added

-- `branchesByFile`.
unfoldable pub branches_by_file : List BlackboardEntry → Dict (List String) → Dict (List String)
branches_by_file [] d = d
branches_by_file (e ∷ entries) d =
    branches_by_file entries (add_files e.branch [] e.changed_files d)

-- The loop over the map.
unfoldable pub contested : String → Dict (List String) → List (String × List String)
contested own [] = []
contested own ((f, branches) ∷ d) =
    let rest = contested own d in
    if ltb 1 (length branches) && has_text own branches then (f, branches) ∷ rest else rest

-- sort.Strings.
unfoldable pub insert_file :
    String × List String → List (String × List String) → List (String × List String)
insert_file a [] = a ∷ []
insert_file a (b ∷ bs) = if str_ltb b.0 a.0 then b ∷ insert_file a bs else a ∷ b ∷ bs

unfoldable pub sort_files : List (String × List String) → List (String × List String)
sort_files [] = []
sort_files (a ∷ files) = insert_file a (sort_files files)

abbrev pub has_files : List String → Bool
has_files [] = false
has_files (f ∷ files) = true

-- The other branches' entries and this one's, by branch.
unfoldable pub merged_entries : List BlackboardEntry → BlackboardEntry → List BlackboardEntry
merged_entries entries own =
    sort_entries
      (keep_if (λ (e : BlackboardEntry). not (str_eq e.branch own.branch)) entries ++ own ∷ [])

unfoldable pub file_conflict_detail :
    List BlackboardEntry → Option BlackboardEntry → List (String × List String)
file_conflict_detail entries none = []
file_conflict_detail entries (some own) =
    if own.active && has_files own.changed_files
    then sort_files (contested own.branch (branches_by_file (merged_entries entries own) []))
    else []

unfoldable pub same_files : List (String × List String) → List (String × List String) → Bool
same_files [] [] = true
same_files (a ∷ as') (b ∷ bs) = str_eq a.0 b.0 && same_texts a.1 b.1 && same_files as' bs
same_files _ _ = false

abbrev pub says_conflict : List (String × List String) → Message → Bool
says_conflict detail (Message.file_conflict recorded) = same_files recorded detail
says_conflict detail _ = false

module _ (env : Cluster) (ops : ConditionOps) (r : Setup) where
  abbrev pub conflict_at : ℕ → ConditionStatus → String → Message → Condition
  conflict_at at status reason message = record {
    type = condition_file_conflict;
    status = status;
    reason = reason;
    message = message;
    last_transition_time = some at;
  }

  -- Whether the recorded condition has to be cleared, or already tells of the conflict.
  abbrev pub is_open : Option Condition → Bool
  is_open none = false
  is_open (some c) = not (same_status c.status ConditionStatus.condition_false)

  abbrev pub is_told : List (String × List String) → Option Condition → Bool
  is_told detail none = false
  is_told detail (some c) =
      same_status c.status ConditionStatus.condition_true && says_conflict detail c.message

  unfoldable pub clear_conflict : Workspace → M Trace Workspace
  clear_conflict ws =
      elim (is_open (ops.find_status_condition ws.status.conditions condition_file_conflict)) [
        | false ↦ return ws
        | true ↦ do
          at ← now env
          ws' ←
              set_condition env ops r
                (conflict_at at ConditionStatus.condition_false "NoOverlap"
                  (Message.text "no other active branch is changing these files"))
                ws
          update_status env ws'
          return ws'
      ]

  unfoldable pub tell_conflict : List (String × List String) → Workspace → M Trace Workspace
  tell_conflict detail ws =
      elim (is_told detail
        (ops.find_status_condition ws.status.conditions condition_file_conflict)) [
          | true ↦ return ws
          | false ↦ do
            at ← now env
            ws' ←
                set_condition env ops r
                  (conflict_at at ConditionStatus.condition_true "SameFileChangedElsewhere"
                    (Message.file_conflict detail))
                  ws
            update_status env ws'
            notify r ws' event_file_conflict (Message.file_conflict detail)
            return ws'
        ]

  -- By the detail.
  unfoldable pub report_conflicts : List (String × List String) → Workspace → M Trace Workspace
  report_conflicts [] ws = clear_conflict ws
  report_conflicts (f ∷ files) ws = tell_conflict (f ∷ files) ws

  -- The workspace as it is left.
  unfoldable pub reconcile_file_conflicts : Workspace → M Trace Workspace
  reconcile_file_conflicts ws = do
    entries ← active_blackboard_entries env r
    report_conflicts (file_conflict_detail entries ws.status.blackboard) ws
