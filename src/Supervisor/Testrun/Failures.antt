-- ===== src/Supervisor/Testrun/Failures.antt =====
-- supervisor/internal/testrun/failure.go: the failures that the output of the suites tells of.
-- The regular expressions are the source's; the library that matches them is an argument.
pub mod Merge
use Prim.Native.String
use parallel_workspace_serve.Prelude.{
  ℕ, ◌-◌, String, Bool, true, false, List, [], ◌∷◌, ◌++◌, Option, none, some, ◌&&◌, ◌||◌, not, ltb,
  leb, str_eq, if◌then◌else◌, is_blank, any, concat_texts, join_texts, trim_space, split_text,
  split_from, contains, byte_length,
}
use parallel_workspace_serve.Supervisor.Testrun.Runner.{FailureCategory, Failure, Step}

-- What the library does, by the text of an expression: whether it matches, its first group where it
-- does, and a replacement of all that it matches. The rest is strings.TrimRight and strings.Trim by a
-- set of characters, strings.ToLower, and a slice of a text from a byte on.
pub record Library : Type 0 where
  pub match_string : String → String → Bool
  pub first_group : String → String → Option String
  pub replace_all : String → String → String → String
  pub trim_right_set : String → String → String
  pub trim_set : String → String → String
  pub to_lower : String → String
  pub slice_from : String → ℕ → String

abbrev pub environment_signals : List String
environment_signals =
    "executable file not found" ∷ "command not found" ∷ "econnrefused" ∷ "enotfound" ∷ "eaddrinuse"
    ∷ "enospc" ∷ "connection refused" ∷ "no such host" ∷ "no space left on device"
    ∷ "permission denied" ∷ "cannot find module" ∷ "out of memory" ∷ "browsertype.launch"
    ∷ "failed to launch" ∷ []

abbrev pub max_message_bytes : ℕ
max_message_bytes = 4000

abbrev pub is_defect : FailureCategory → Bool
is_defect FailureCategory.implementation_defect = true
is_defect _ = false

unfoldable pub combine : Failure → Failure → Failure
combine a b = record {
  test_name =
      if ltb (byte_length a.test_name) (byte_length b.test_name) then b.test_name else a.test_name;
  message = if ltb (byte_length a.message) (byte_length b.message) then b.message else a.message;
  stack_trace = if is_blank a.stack_trace then b.stack_trace else a.stack_trace;
  screenshot_key = if is_blank a.screenshot_key then b.screenshot_key else a.screenshot_key;
  category = if is_defect a.category then b.category else a.category;
}

abbrev pub last_segment : List String → String
last_segment [] = ""
last_segment (s ∷ []) = s
last_segment (s ∷ t ∷ segments) = last_segment (t ∷ segments)

-- A report that is being read.
pub record Body : Type 0 where
  pub message : List String
  pub stack : List String
  pub shot : String
  pub retried : Bool

module _ (lib : Library) where
  abbrev pub slug : String → String
  slug s = lib.trim_set "-" (lib.replace_all "[^a-z0-9]+" "-" (lib.to_lower s))

  abbrev pub tail : String → String
  tail s =
      if leb (byte_length s) max_message_bytes
      then s
      else String.◌++◌ "…" (lib.slice_from s (byte_length s - max_message_bytes))

  -- The name by which `merge` takes two reports for one test.
  unfoldable pub merge_key : Failure → String
  unfolding split_from
  merge_key f = slug (last_segment (split_from " › " 0 f.test_name))

  -- The key stands beside its entry, for the map from a key to the index.
  unfoldable pub merge_one : String → Failure → List (String × Failure) → List (String × Failure)
  merge_one key f [] = (key, f) ∷ []
  merge_one key f ((k, g) ∷ out) =
      let rest = merge_one key f out in
      if str_eq k key then (k, combine g f) ∷ out else (k, g) ∷ rest

  unfoldable pub merge_from : List (String × Failure) → List Failure → List (String × Failure)
  merge_from out [] = out
  merge_from out (f ∷ failures) = merge_from (merge_one (merge_key f) f out) failures

  abbrev pub entries : List (String × Failure) → List Failure
  entries [] = []
  entries ((k, f) ∷ out) = f ∷ entries out

  unfoldable pub merge : List Failure → List Failure
  merge failures = entries (merge_from [] failures)

  unfoldable pub classify : Failure → Bool → FailureCategory
  unfolding contains
  classify f retried =
      let evidence = lib.to_lower (concat_texts (f.message ∷ "\n" ∷ f.stack_trace ∷ [])) in
      if any (contains evidence) environment_signals
      then FailureCategory.environment_issue
      else if retried || contains evidence "flaky"
      then FailureCategory.flaky_test
      else FailureCategory.implementation_defect

  -- The segments of a title that name the test.
  unfoldable pub kept_segments : List String → List String
  unfolding trim_space
  kept_segments [] = []
  kept_segments (s ∷ segments) =
      let rest = kept_segments segments in
      let segment = trim_space s in
      if not (is_blank segment) && not (lib.match_string "^\\[.*\\]$|:\\d+:\\d+$" segment)
      then segment ∷ rest
      else rest

  unfoldable pub test_title : String → String
  unfolding trim_space split_from
  test_title raw =
      let bare =
        lib.replace_all "\\s+\\(\\d+(\\.\\d+)?\\s*m?s\\)$" "" (lib.trim_right_set " \t─—-=" raw) in
      elim (kept_segments (split_from " › " 0 bare)) [
        | [] ↦ trim_space bare
        | s ∷ segments ↦ join_texts " › " (s ∷ segments)
      ]

  unfoldable pub failure_title : String → Option String
  failure_title line = elim (lib.first_group "^\\s*--- FAIL:\\s+(\\S+)" line) [
    | some name ↦ some name
    | none ↦ elim (lib.first_group "^\\s*\\d+\\)\\s+(\\S.*)$" line) [
      | some title ↦ some (test_title title)
      | none ↦ elim (lib.first_group "^\\s*[●✕✖×✗]\\s+(\\S.*)$" line) [
        | some title ↦ some (test_title title)
        | none ↦ none
      ]
    ]
  ]

  abbrev pub is_empty : List String → Bool
  is_empty [] = true
  is_empty (s ∷ texts) = false

  unfoldable pub read_line : String → Body → Body
  read_line line body =
      if is_blank line && is_empty body.message
      then body
      else if lib.match_string "^[─—\\-=*_]{3,}$" line
      then body
      else if lib.match_string "^Retry #\\d+" line
      then record body { retried = true }
      else if lib.match_string "^attachment #\\d+:" line
      then body
      else if lib.match_string "^\\S+\\.(?i:png|jpe?g|webp)$" line
      then record body { shot = line }
      else if lib.match_string "^(at\\s+\\S|\\S+\\.\\w+:\\d+:\\d+\\s*$)" line
      then record body { stack = body.stack ++ (line ∷ []) }
      else record body { message = body.message ++ (line ∷ []) }

  unfoldable pub read_lines : List String → Body → Body
  unfolding trim_space
  read_lines [] body = body
  read_lines (line ∷ lines) body = read_lines lines (read_line (trim_space line) body)

  abbrev pub classified : Failure → Bool → Failure
  classified f retried = record f { category = classify f retried }

  unfoldable pub read_body : String → List String → Failure
  unfolding trim_space join_texts
  read_body name lines =
      let body =
        read_lines lines (record { message = []; stack = []; shot = ""; retried = false }) in
      classified
        (record {
          test_name = name;
          message = tail (trim_space (join_texts "\n" body.message));
          stack_trace = join_texts "\n" body.stack;
          screenshot_key = body.shot;
          category = FailureCategory.implementation_defect;
        })
        body.retried

  -- A report that has begun, by its title and its lines so far, where there is one.
  abbrev pub flush : Option (String × List String) → List Failure
  flush none = []
  flush (some (name, lines)) = read_body name lines ∷ []

  abbrev pub with_line : String → Option (String × List String) → Option (String × List String)
  with_line line none = none
  with_line line (some (name, lines)) = some (name, lines ++ (line ∷ []))

  unfoldable pub parse_lines : Option (String × List String) → List String → List Failure
  parse_lines report [] = flush report
  parse_lines report (line ∷ lines) = elim (failure_title line) [
    | none ↦ parse_lines (with_line line report) lines
    | some title ↦ flush report ++ parse_lines (some (title, [])) lines
  ]

  unfoldable pub parse_failures : String → List Failure
  unfolding split_text
  parse_failures output = parse_lines none (split_text 10 output)

  abbrev pub step_failure : Step → Failure
  step_failure s =
      classified
        (record {
          test_name = s.name;
          message = tail (trim_space s.output);
          stack_trace = "";
          screenshot_key = "";
          category = FailureCategory.implementation_defect;
        })
        false

  -- A failed step in which no test is named is a failure itself.
  abbrev pub or_step : Step → List Failure → List Failure
  or_step s [] = step_failure s ∷ []
  or_step s (f ∷ failures) = f ∷ failures

  unfoldable pub step_failures : List Step → List Failure
  step_failures [] = []
  step_failures (s ∷ steps) =
      let rest = step_failures steps in
      if s.failed then or_step s (parse_failures s.output) ++ rest else rest

  unfoldable pub first_image : String → List String → String
  unfolding contains
  first_image name [] = ""
  first_image name (image ∷ images) =
      let rest = first_image name images in
      if not (is_blank name) && contains (slug image) name then image else rest

  abbrev pub with_screenshot : List String → Failure → Failure
  with_screenshot images f =
      if is_blank f.screenshot_key
      then record f { screenshot_key = first_image (slug f.test_name) images }
      else f

  unfoldable pub attach_screenshots : Bool → List String → List Failure → List Failure
  attach_screenshots has_report_dir images [] = []
  attach_screenshots has_report_dir images (f ∷ failures) =
      (if has_report_dir then with_screenshot images f else f)
      ∷ attach_screenshots has_report_dir images failures

  -- `images` are the paths of imagesUnderReportDir, which walks a directory.
  unfoldable pub collect_failures : Bool → List String → List Step → List Failure
  collect_failures has_report_dir images steps =
      attach_screenshots has_report_dir images (merge (step_failures steps))
