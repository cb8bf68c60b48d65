-- ===== src/Supervisor/Examples.antt =====
-- supervisor: the theorems at concrete inputs, and small runs.
use parallel_workspace_serve.Supervisor.Session.Terminal.{
  Held, SessionClient, Tmux, send_input_from, held_clients,
}
use parallel_workspace_serve.Supervisor.Session.Alone.{Alone, send_input_from-Alone}
use parallel_workspace_serve.Prelude.{◌++◌, inl, inr}
use parallel_workspace_serve.Prelude.{
  any, inl, inr, str_eq, ◌+◌, ◌≤◌, String, true, false, List, [], ◌∷◌, none, some, refl, ◌≡◌, arith,
  if◌then◌else◌,
}
use parallel_workspace_serve.Prelude.Outcome.{final}
use parallel_workspace_serve.Supervisor.Evacuation.DirtyPaths.{dirty_paths}
use parallel_workspace_serve.Supervisor.Evacuation.DirtyPaths.Roundtrip.{
  Entry, IsEntry, AllEntries, print, captured, dirty_paths-print,
}
use parallel_workspace_serve.Supervisor.Evacuation.Trigger.{
  Turn, turn, turn_error, start_watching, watch_tick, watch_turns, Polls, refused_at, settle,
  evacuate_when_settled,
}
use parallel_workspace_serve.Supervisor.Evacuation.Watching.{
  marks, completions, watch_turns-completions,
}
use parallel_workspace_serve.Supervisor.Evacuation.Settled.{EndsBy, evacuate_when_settled-EndsBy}
use parallel_workspace_serve.Supervisor.Testrun.Runner.{
  Config, Failure, implementation_defect, Step, RunResult, Run, RunEnv, e2e_argv, step, step_served,
  unit_suite, e2e_suite, execute_suites, execute,
}
use parallel_workspace_serve.Supervisor.Testrun.Passing.{Truthful, execute-Truthful}
use parallel_workspace_serve.Supervisor.Testrun.Serving.{Balanced, execute-Balanced}
use parallel_workspace_serve.Supervisor.Testrun.Failures.{Library, merge_key, merge}
use parallel_workspace_serve.Supervisor.Testrun.Failures.Merge.{covers, entries_of, merge-covers}
use parallel_workspace_serve.Supervisor.Testrun.Heal.{
  failed_tests_from, failed_tests, next_only, decimal_from, run_id, publish, run, report, heal_from,
  heal,
}
use parallel_workspace_serve.Supervisor.Testrun.Attempts.{
  runs, requests, Verdict, Reported, heal-bounded,
}
use parallel_workspace_serve.Supervisor.Testrun.Reverify.{RanUnit, execute_reverifies}
use parallel_workspace_serve.Prelude.{◌*◌}
use parallel_workspace_serve.Supervisor.Testrun.Watch.{
  Tick, baseline, watch_loop, changes, last_of, watch_loop-bounded,
}
use parallel_workspace_serve.Supervisor.Session.Model.{Reading, turn_model, turn_failed, watch}
use parallel_workspace_serve.Supervisor.Session.Mismatches.{switches, passes, told, watch-switches}

-- " M a", "R  b" from "a", and a file of the editor server.
abbrev modified : Entry
modified = record { index = b' '; work_tree = b'M'; path = b'a' ∷ []; from = none }

abbrev renamed : Entry
renamed = record { index = b'R'; work_tree = b' '; path = b'b' ∷ []; from = some (b'a' ∷ []) }

abbrev entries : List Entry
entries = modified ∷ renamed ∷ []

modified-IsEntry : IsEntry modified
modified-IsEntry = record {
  index_nul = λ e. ground arith;
  work_tree_nul = λ e. ground arith;
  path_nul = ((λ e. ground arith), tt);
  path_some = omega arith;
  source = refl;
}

renamed-IsEntry : IsEntry renamed
renamed-IsEntry = record {
  index_nul = λ e. ground arith;
  work_tree_nul = λ e. ground arith;
  path_nul = ((λ e. ground arith), tt);
  path_some = omega arith;
  source = (refl, ((λ e. ground arith), tt));
}

entries-AllEntries : AllEntries entries
entries-AllEntries = (modified-IsEntry, (renamed-IsEntry, tt))

dirty_paths-print_example : dirty_paths (print entries) ≡ captured entries
dirty_paths-print_example = dirty_paths-print entries entries-AllEntries (inr refl, (inl refl, tt))

-- A baseline, an error, the same mark, then two completions.
abbrev readings : List Turn
readings =
    turn true ""
    ∷ turn_error
    ∷ turn false ""
    ∷ turn false "t1"
    ∷ turn true "t1"
    ∷ turn false "t2"
    ∷ []

readings_twice : watch_turns start_watching readings ≡ 2
unfolding watch_turns watch_tick
readings_twice = refl

watch_turns-completions_example : watch_turns start_watching readings ≡ completions (marks readings)
watch_turns-completions_example = watch_turns-completions readings

-- A turn that never ends, one poll for each unit of time.
abbrev stuck : Polls
stuck = record { reading = λ n. turn true ""; time = λ n. 100 + n; cancelled = λ n. false }

stuck_refused : evacuate_when_settled stuck 100 3 10 ≡ refused_at 3
unfolding evacuate_when_settled settle
stuck_refused = refl

evacuate_when_settled-EndsBy_example : EndsBy stuck 103 (evacuate_when_settled stuck 100 3 10)
evacuate_when_settled-EndsBy_example =
    evacuate_when_settled-EndsBy stuck 100 3 10 5 (omega arith) (omega arith)

-- A repository with both suites and an application.
abbrev declared : Config
declared = record {
  app = "npm" ∷ "start" ∷ [];
  unit_test = "npm" ∷ "test" ∷ [];
  e2e_test = "playwright" ∷ [];
  e2e_test_filter = "playwright" ∷ "-g" ∷ [];
}

-- Every command fails, and every other call succeeds.
abbrev failing : RunEnv
failing = record {
  prepare = λ t id. true;
  exec = λ t argv. ("1 failed", true);
  serve = λ t argv. true;
  write_log = λ t dir name. true;
  publish = λ t id. some "https://store/report";
  request = λ t id. true;
}

abbrev failure_of : String → Failure
failure_of name = record {
  test_name = name;
  message = "";
  stack_trace = "";
  screenshot_key = "";
  category = implementation_defect;
}

abbrev by_step : List Step → List Failure
by_step [] = []
by_step (s ∷ steps) = if s.failed then failure_of s.name ∷ by_step steps else by_step steps

abbrev first_run : Run
first_run = record { id = "s-1"; attempt = 1; only_tests = [] }

execute-Truthful_example :
    Truthful failing declared by_step [] (execute failing declared by_step first_run [])
execute-Truthful_example = execute-Truthful failing declared by_step first_run []

execute-Balanced_example : Balanced [] (final (execute failing declared by_step first_run []))
execute-Balanced_example = execute-Balanced failing declared by_step first_run []

heal-bounded_example :
    let o = heal failing declared by_step true true "s" [] in
    (runs (final o) ≤ runs [] + 4)
    × (requests (final o) ≤ requests [] + 3)
    × Verdict failing declared by_step true true (requests [] + 3) o
    × Reported failing declared by_step true true o
heal-bounded_example = heal-bounded failing declared by_step true true "s" []

-- Here the bounds are reached.
all_runs : runs (final (heal failing declared by_step true true "s" [])) ≡ 4
unfolding heal heal_from run publish report execute execute_suites unit_suite e2e_suite step_served
    step e2e_argv next_only failed_tests failed_tests_from run_id decimal_from
all_runs = refl

abbrev unit_broken : RunResult
unit_broken = record {
  run_id = "s-1";
  attempt = 1;
  passed = false;
  failures = failure_of "adds" ∷ [];
  report_url = "";
  steps = record { name = "unit"; argv = "npm" ∷ "test" ∷ []; output = ""; failed = true } ∷ [];
}

execute_reverifies_example : RanUnit failing declared by_step (
    execute failing declared by_step
      (record { id = "s-2"; attempt = 2; only_tests = next_only unit_broken })
      [])
execute_reverifies_example =
    execute_reverifies failing declared by_step unit_broken "s-2" 2 [] refl refl

-- Texts as they are, and a model answers to its own name only.
abbrev plain : String → String
plain s = s

abbrev models : List Reading
models =
    turn_model "opus"
    ∷ turn_model "haiku"
    ∷ turn_failed
    ∷ turn_model "haiku"
    ∷ turn_model ""
    ∷ turn_model "opus"
    ∷ []

watch-switches_example :
    watch plain plain str_eq "opus" "" models
    ≡ switches (passes plain plain str_eq "opus") none (told models)
watch-switches_example = watch-switches plain plain str_eq "opus" models refl

-- A library that changes no text.
abbrev unchanging : Library
unchanging = record {
  match_string = λ pattern s. false;
  first_group = λ pattern s. none;
  replace_all = λ pattern by s. s;
  trim_right_set = λ cut s. s;
  trim_set = λ cut s. s;
  to_lower = λ s. s;
  slice_from = λ s n. s;
}

-- A listing and a detail of one test.
abbrev listed : Failure
listed = record {
  test_name = "signs in";
  message = "";
  stack_trace = "";
  screenshot_key = "shot.png";
  category = implementation_defect;
}

abbrev detailed : Failure
detailed = record listed { test_name = "auth › signs in"; message = "timeout"; screenshot_key = "" }

merge-covers_example :
    (any (covers unchanging detailed) (merge unchanging (listed ∷ detailed ∷ [])) ≡ true)
    × (entries_of unchanging
          (merge_key unchanging detailed)
          (merge unchanging (listed ∷ detailed ∷ []))
        ≤ 1)
merge-covers_example = merge-covers unchanging detailed (listed ∷ detailed ∷ []) (inr (inl refl))

-- A turn of a developer, and then one that the healing itself left.
abbrev ticks : List Tick
ticks =
    record { completed_at = some "t1"; session_id = "s"; after = some "t2" }
    ∷ record { completed_at = some "t2"; session_id = "s"; after = none }
    ∷ []

watch_loop-bounded_example :
    requests (final (watch_loop failing declared by_step true true (baseline "t0") ticks []))
    ≤ requests [] + 3 * changes (last_of (baseline "t0")) ticks
watch_loop-bounded_example =
    watch_loop-bounded failing declared by_step true true (baseline "t0") ticks []

one_healing : changes (last_of (baseline "t0")) ticks ≡ 1
one_healing = refl

-- One client is attached to read, and another holds the session and types.
abbrev running_tmux : Tmux
running_tmux = record {
  has_session = true;
  attached = some (record { id = "reader"; writable = false } ∷ []);
  syncs = true;
  sends = true;
}

abbrev held_by_typist : Held
held_by_typist = ("typist", 3) ∷ []

typist_sends : (send_input_from running_tmux held_by_typist "typist").0 ≡ true
unfolding send_input_from
typist_sends = refl

send_input_from-Alone_example :
    (running_tmux.has_session ≡ true)
    × (attached : List SessionClient) × (running_tmux.attached ≡ some attached)
    × Alone "typist" (attached ++ held_clients held_by_typist)
send_input_from-Alone_example =
    send_input_from-Alone running_tmux held_by_typist "typist" typist_sends
