-- ===== src/Gateway/Workspaces/Declared.antt =====
-- workspaces.go: the name under which a workspace is declared, and which one is deleted.

use parallel_workspace_serve.Prelude.{
  String, Bool, true, false, List, [], ◌∷◌, ◌&&◌, ◌||◌, str_eq, is_blank, trim_left, trim_right,
  ◌≡◌, ◌⊎◌, ◌∙◌, sym, subst, eq_refl, arith, refl, inl, inr,
}
use parallel_workspace_serve.Controller.Api.{Read, found, not_found, failed}
use parallel_workspace_serve.Controller.Naming as Naming
use parallel_workspace_serve.Controller.Naming.{
  is_dash, is_label_char, text_length, take_text, replace_invalid, collapse_dashes,
  truncate_dns_label,
}
use parallel_workspace_serve.Controller.Naming.Labels.{
  IsLabel, all_chars, ends_dash, base_name-IsLabel, trim_right-lem,
}
use parallel_workspace_serve.Gateway.Workspaces.{
  WorkspaceSummary, CreateWorkspaceRequest, Declaration, Answer, answer, refused, Server, Write,
  create_workspace, delete_workspace, sanitize_dns_label, by_workspace_id, list_summaries,
  find_by_id, find, create, delete,
}

-- Nothing is trimmed off an end without a dash.
trim_right-same : (s : String) → ends_dash s ≡ false → trim_right is_dash s ≡ s
unfolding trim_right
trim_right-same String.[] h = refl
trim_right-same (String.◌∷◌ c String.[]) h = ground arith
trim_right-same (String.◌∷◌ c (String.◌∷◌ d s)) h =
    ground (arith, trim_right-same (String.◌∷◌ d s) h)

all_true : (s : String) → all_chars (λ c. true) s ≡ true
all_true String.[] = refl
all_true (String.◌∷◌ c s) = all_true s

trim_left-end : (s : String) → ends_dash s ≡ false → ends_dash (trim_left is_dash s) ≡ false
unfolding trim_left
trim_left-end String.[] h = refl
trim_left-end (String.◌∷◌ c s) h = ground (arith, trim_left-end s)

-- Some listed workspace of the name has the workspace id.
abbrev pub has_named : String → String → List WorkspaceSummary → Bool
has_named id name [] = false
has_named id name (ws ∷ all) =
    (str_eq ws.workspace_id id && str_eq ws.name name) || has_named id name all

abbrev pub IsNamed : String → String → Server → Type 0
IsNamed id name server =
    (all : List WorkspaceSummary) × (server.list ≡ found all) × (has_named id name all ≡ true)

-- No further write, and the name is the id or that of a listed workspace with the id.
abbrev pub IsAddressed : String → String → List Write → Server → Type 0
IsAddressed id name writes server = (writes ≡ []) × ((name ≡ id) ⊎ IsNamed id name server)

module _ (to_lower : String → String) where
  sanitize_agrees :
      (hex_digest : String → String) (s : String)
      → sanitize_dns_label to_lower s ≡ Naming.sanitize_dns_label to_lower hex_digest s
  unfolding sanitize_dns_label Naming.sanitize_dns_label truncate_dns_label
  sanitize_agrees hex_digest s =
      let collapsed = collapse_dashes false (replace_invalid false (to_lower s)) in
      let trimmed = trim_right is_dash collapsed in
      let cut = trim_right-lem (λ c. true) collapsed (all_true collapsed) in
      let same = trim_right-same (trim_left is_dash trimmed) (trim_left-end trimmed (cut.1)) in
      ground (arith, same)

  created-with :
      (server : Server) (default_ref : String) (req : CreateWorkspaceRequest) (d : Declaration)
      (result : Answer WorkspaceSummary) (writes : List Write)
      → create to_lower server default_ref req ≡ (result, create_workspace d ∷ writes)
      → (is_blank req.repository ≡ false)
        × (is_blank req.branch ≡ false)
        × (is_blank (sanitize_dns_label to_lower req.branch) ≡ false)
        × (d.name ≡ sanitize_dns_label to_lower req.branch)
  unfolding create
  created-with server default_ref req d result writes e = ground arith

  -- Create sends a workspace only for a request whose repository and branch are both not blank,
  -- and under a name that is a DNS label and that the controller's own naming has for the branch.
  pub create-IsLabel :
      (server : Server) (hex_digest : String → String) (default_ref : String)
      (req : CreateWorkspaceRequest) (d : Declaration) (result : Answer WorkspaceSummary)
      (writes : List Write)
      → create to_lower server default_ref req ≡ (result, create_workspace d ∷ writes)
      → IsLabel d.name
        × (d.name ≡ Naming.base_name to_lower hex_digest req.branch)
        × (is_blank req.repository ≡ false)
        × (is_blank req.branch ≡ false)
  unfolding create
  create-IsLabel server hex_digest default_ref req d result writes e =
      let (stored, on_branch, some_label, name) =
        created-with server default_ref req d result writes e in
      let base : d.name ≡ Naming.base_name to_lower hex_digest req.branch =
        ground (arith, name, some_label, sanitize_agrees hex_digest req.branch) in
      (rw base (base_name-IsLabel to_lower hex_digest req.branch), base, stored, on_branch)

  by_workspace_id-named :
      (id : String) (all : List WorkspaceSummary) (ws : WorkspaceSummary)
      → by_workspace_id id all ≡ answer ws
      → has_named id ws.name all ≡ true
  unfolding by_workspace_id
  by_workspace_id-named id [] ws e = absurd (ground arith)
  by_workspace_id-named id (w ∷ all) ws e =
      grind (arith, by_workspace_id-named id all ws, eq_refl ws.name)

  listed-IsNamed :
      (server : Server) (id : String) (read : Read (List WorkspaceSummary)) (ws : WorkspaceSummary)
      → server.list ≡ read
      → find_by_id to_lower server id ≡ answer ws
      → IsNamed id ws.name server
  unfolding find_by_id list_summaries
  listed-IsNamed server id (found all) ws l e =
      (all, l, by_workspace_id-named id all ws (ground (arith, l, e)))
  listed-IsNamed server id (not_found m) ws l e = absurd (ground arith)
  listed-IsNamed server id (failed m) ws l e = absurd (ground arith)

  find-cases :
      (server : Server) (id : String) (ws : WorkspaceSummary)
      → find to_lower server id ≡ answer ws
      → (server.get id ≡ found ws) ⊎ (find_by_id to_lower server id ≡ answer ws)
  unfolding find
  find-cases server id ws e = ground arith

  delete-cases :
      (server : Server) (id name : String) (result : Answer (Unit {0})) (writes : List Write)
      (o : Answer WorkspaceSummary)
      → find to_lower server id ≡ o
      → delete to_lower server id ≡ (result, delete_workspace name ∷ writes)
      → (writes ≡ []) × ((ws : WorkspaceSummary) × (o ≡ answer ws) × (ws.name ≡ name))
  unfolding delete
  delete-cases server id name result writes (answer ws) f e =
      (ground arith, (ws, refl, ground arith))
  delete-cases server id name result writes (refused m) f e = absurd (ground arith)

  -- A delete touches at most one workspace, which has the id for its name or for its workspace id,
  -- when the API server answers a read with the object of that name.
  pub delete-IsAddressed :
      (server : Server) (id name : String) (result : Answer (Unit {0})) (writes : List Write)
      → ((n : String) (ws : WorkspaceSummary) → server.get n ≡ found ws → ws.name ≡ n)
      → delete to_lower server id ≡ (result, delete_workspace name ∷ writes)
      → IsAddressed id name writes server
  delete-IsAddressed server id name result writes named e =
      let (alone, (ws, o, same)) =
        delete-cases server id name result writes (find to_lower server id) refl e in
      (
        alone,
        elim (find-cases server id ws o) [
          | inl got ↦ inl (sym same ∙ named id ws got)
          | inr listed ↦ inr (
              subst (λ n. IsNamed id n server) same
                (listed-IsNamed server id server.list ws refl listed))
        ],
      )
