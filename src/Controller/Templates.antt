-- ===== src/Controller/Templates.antt =====
-- controller/api/v1alpha1/workspacetemplate_types.go: what an operator provisions workspaces from.
-- A quantity is text, as in the source; what it reads as is the business of the API's library.
use parallel_workspace_serve.Prelude.{String, Option}

pub record ResourceList : Type 0 where
  pub cpu : String
  pub memory : String

pub record WorkspaceResources : Type 0 where
  pub requests : ResourceList
  pub limits : ResourceList

pub record WorkspaceStorage : Type 0 where
  pub size : String
  pub node_disk_budget : String

pub record WorkspaceEvacuation : Type 0 where
  pub bucket : String
  pub endpoint : String
  pub region : String
  pub secret_ref : String

-- The spec, with the name of the object; `database` and `auth` are the references that their
-- structs hold.
pub record WorkspaceTemplate : Type 0 where
  pub name : String
  pub image : String
  pub resources : WorkspaceResources
  pub storage : WorkspaceStorage
  pub node_name : String
  pub priority_class_name : String
  pub model : String
  pub database : Option String
  pub auth : String
  pub evacuation : WorkspaceEvacuation
