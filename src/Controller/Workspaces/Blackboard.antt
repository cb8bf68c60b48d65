-- ===== src/Controller/Workspaces/Blackboard.antt =====
-- blackboard.go: the entry of a branch, and the entries of all branches that are worked on.
pub mod Order
use parallel_workspace_serve.Prelude.{
  ℕ, String, Bool, true, false, List, [], ◌∷◌, Option, none, some, ◌&&◌, not, str_eq, str_ltb,
  if◌then◌else◌, is_blank, trim_space, split_text,
}
use parallel_workspace_serve.Prelude.Outcome.{M, ok, err, return, fail, ◌>>=◌, ◌>>◌}
use parallel_workspace_serve.Controller.Types.{
  Workspace, WorkspaceStatus, WorkspaceSpec, BlackboardEntry,
}
use parallel_workspace_serve.Controller.Api.{Read, found, not_found, failed}
use parallel_workspace_serve.Controller.Workspaces.Cluster.{Call, Trace, Cluster, Setup}
use parallel_workspace_serve.Controller.Workspaces.Calls.{now, list_workspaces}

abbrev pub keep_named : List String → List String
keep_named [] = []
keep_named (s ∷ fields) =
    if is_blank (trim_space s) then keep_named fields else trim_space s ∷ keep_named fields

unfoldable pub split_annotation_list : String → List String
split_annotation_list v = keep_named (split_text b',' v)

-- slices.Equal.
unfoldable pub same_texts : List String → List String → Bool
same_texts [] [] = true
same_texts (a ∷ as') (b ∷ bs) = str_eq a b && same_texts as' bs
same_texts _ _ = false

abbrev pub same_bool : Bool → Bool → Bool
same_bool true b = b
same_bool false b = not b

unfoldable pub same_blackboard_content : BlackboardEntry → BlackboardEntry → Bool
same_blackboard_content a b =
    str_eq a.branch b.branch
    && str_eq a.summary b.summary
    && same_bool a.active b.active
    && same_texts a.changed_files b.changed_files
    && same_texts a.public_interfaces b.public_interfaces

abbrev pub recorded_files : Option BlackboardEntry → List String
recorded_files none = []
recorded_files (some entry) = entry.changed_files

abbrev pub is_recorded : Option BlackboardEntry → BlackboardEntry → Bool
is_recorded none entry = false
is_recorded (some recorded) entry = same_blackboard_content recorded entry

-- The entries that the other branches see: active ones of live workspaces.
unfoldable pub live_entries : List Workspace → List BlackboardEntry
live_entries [] = []
live_entries (ws ∷ items) = elim ws.status.blackboard [
  | none ↦ live_entries items
  | some entry ↦
      if entry.active && not ws.deleting then entry ∷ live_entries items else live_entries items
]

-- sort.Slice by branch.
unfoldable pub insert_entry : BlackboardEntry → List BlackboardEntry → List BlackboardEntry
insert_entry a [] = a ∷ []
insert_entry a (b ∷ bs) = if str_ltb b.branch a.branch then b ∷ insert_entry a bs else a ∷ b ∷ bs

unfoldable pub sort_entries : List BlackboardEntry → List BlackboardEntry
sort_entries [] = []
sort_entries (a ∷ entries) = insert_entry a (sort_entries entries)

module _ (env : Cluster) (r : Setup) where
  abbrev pub changed_files : Workspace → M Trace (Read (List String))
  changed_files ws t = ok (env.changed_files t ws) (Call.changed_files ws ∷ t)

  -- The files to record: the reported ones, else those that were recorded.
  unfoldable pub current_files : Workspace → M Trace (List String)
  current_files ws =
      let recorded = recorded_files ws.status.blackboard in
      elim r.has_changed_files_reporter [
        | false ↦ return recorded
        | true ↦ changed_files ws >>= λ read. elim read [
          | found files ↦ return files
          | not_found e ↦ return recorded
          | failed e ↦ return recorded
        ]
      ]

  abbrev pub fresh_entry : Workspace → List String → BlackboardEntry
  fresh_entry ws files = record {
    branch = ws.spec.branch;
    summary = ws.summary;
    changed_files = files;
    public_interfaces = split_annotation_list ws.public_interfaces;
    active = true;
    updated_at = none;
  }

  abbrev pub with_entry : BlackboardEntry → Workspace → Workspace
  with_entry entry ws = record ws { status = record ws.status { blackboard = some entry } }

  -- The workspace as it is left, and whether its entry changed.
  unfoldable pub sync_blackboard : Workspace → M Trace (Workspace × Bool)
  sync_blackboard ws = do
    files ← current_files ws
    let entry = fresh_entry ws files
    elim (is_recorded ws.status.blackboard entry) [
      | true ↦ return (ws, false)
      | false ↦ do
        at ← now env
        return (with_entry (record entry { updated_at = some at }) ws, true)
    ]

  unfoldable pub active_blackboard_entries : M Trace (List BlackboardEntry)
  active_blackboard_entries = list_workspaces env >>= λ read. elim read [
    | found items ↦ return (sort_entries (live_entries items))
    | not_found e ↦ fail e
    | failed e ↦ fail e
  ]
