-- ===== src/Controller/Workspaces/Documents.antt =====
-- claudemd.go: the document that every workspace gets.
use parallel_workspace_serve.Prelude.{
  String, true, false, List, [], ◌∷◌, str_eq, if◌then◌else◌, is_blank, concat_texts, join_texts,
}
use parallel_workspace_serve.Prelude.Outcome.{M, ok, return, fail, ◌>>=◌}
use parallel_workspace_serve.Controller.Types.{Workspace, BlackboardEntry}
use parallel_workspace_serve.Controller.Api.{Read, found, not_found, failed}
use parallel_workspace_serve.Controller.Workspaces.Resources.{claude_md_config_map_name}
use parallel_workspace_serve.Controller.Workspaces.Cluster.{Call, Trace, Cluster, Setup}
use parallel_workspace_serve.Controller.Workspaces.Calls.{ensured, written}
use parallel_workspace_serve.Controller.Workspaces.Blackboard.{active_blackboard_entries}

abbrev pub claude_md_branch_marker : String
claude_md_branch_marker = "\n<!-- workspace -->\n"

abbrev pub or_none : String → String
or_none v = if is_blank v then "なし" else v

unfoldable pub render_entry : BlackboardEntry → String
render_entry e = concat_texts (
    "\n## "
    ∷ e.branch
    ∷ "\n\n- 作業概要: "
    ∷ or_none e.summary
    ∷ "\n- 公開インターフェース: "
    ∷ or_none (join_texts ", " e.public_interfaces)
    ∷ "\n- 変更中ファイル: "
    ∷ or_none (join_texts ", " e.changed_files)
    ∷ "\n"
    ∷ [])

unfoldable pub render_entries : List BlackboardEntry → String
render_entries [] = ""
render_entries (e ∷ entries) = concat_texts (render_entry e ∷ render_entries entries ∷ [])

abbrev pub claude_md_preamble : String
claude_md_preamble = concat_texts (
    "# 並行開発プラットフォーム\n\nこのリポジトリは複数のブランチで同時に作業が進んでいる。以下は現在アクティブな\n"
    ∷ "全ブランチの作業状況で、内容は全ワークスペースで同一。\n\n" ∷ "- 他ブランチが変更中のファイルには手を入れない\n"
    ∷ "- 他ブランチの公開インターフェースに依存する場合は記載された名前に合わせる\n" ∷ [])

-- What all workspaces share.
unfoldable pub render_shared : List BlackboardEntry → String
render_shared entries =
    concat_texts (claude_md_preamble ∷ render_entries entries ∷ claude_md_branch_marker ∷ [])

unfoldable pub render_claude_md : List BlackboardEntry → String → String
render_claude_md entries branch =
    concat_texts
      (render_shared entries ∷ "\nこのワークスペースが担当するブランチは `" ∷ branch ∷ "`。上記のうち自ブランチの項目は自分の作業。\n" ∷ [])

module _ (env : Cluster) (r : Setup) where
  abbrev pub get_config_map : String → M Trace (Read String)
  get_config_map name t = ok (env.get_config_map t name) (Call.get_config_map name ∷ t)

  abbrev pub create_config_map : String → String → M Trace (Unit {0})
  create_config_map name document t =
      ensured (env.create_config_map t name document) (Call.create_config_map name document ∷ t)

  abbrev pub update_config_map : String → String → M Trace (Unit {0})
  update_config_map name document t =
      written (env.update_config_map t name document) (Call.update_config_map name document ∷ t)

  unfoldable pub write_document : String → String → M Trace (Unit {0})
  write_document name document = get_config_map name >>= λ read. elim read [
    | not_found e ↦ create_config_map name document
    | failed e ↦ fail e
    | found current ↦ elim (str_eq current document) [
      | true ↦ return tt
      | false ↦ update_config_map name document
    ]
  ]

  unfoldable pub reconcile_claude_md : Workspace → String → M Trace (Unit {0})
  reconcile_claude_md ws name = do
    entries ← active_blackboard_entries env r
    write_document (claude_md_config_map_name name) (render_claude_md entries ws.spec.branch)
