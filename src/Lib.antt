-- ===== src/Lib.antt =====
-- Parallel workspace server: a control plane that runs many development workspaces side by side,
-- one for each branch, each with an agent's session in it.
--
-- The program has three processes, and the library a module for each.
--
--   * Controller (controller/internal/controller) reconciles the objects in the API server.
--     Controller.Types has the objects of controller/api/v1alpha1. Controller.TaskQueue is
--     `TaskQueueReconciler` of taskqueue.go: State the settings, the in-process state and the calls,
--     Pass and Reconcile one pass of `Reconcile`, the other files what holds of it. Controller.Quota
--     is quota.go, Controller.Naming naming.go, Controller.Templates workspacetemplate_types.go.
--     Controller.Workspaces is `WorkspaceReconciler`: Cluster and Calls the environment, Reconcile
--     `Reconcile` of workspace_controller.go, Provisioning its `reconcileProvisioning` with the
--     calls of the adapters, Owners `findCanonical`, and Rollback `mirrorCanonical`, `requeueOrFail`
--     and `failAndRollback`. Resources is resources.go, Admission admission.go, Credentials
--     git_credential_reconciler.go, Blackboard blackboard.go, Documents claudemd.go, Conflicts
--     conflict.go, Evacuation evacuation.go, and Lifecycle, Passes and Ready lifecycle.go. Captures
--     and Safe have what has to come before a stop or a delete, Provisioning/Steps and Ordered the
--     order of a creation, Provisioning/Complete its end, Notices what is reported and what a
--     duplicate touches.
--   * Gateway (gateway/internal/gateway) serves browsers. Gateway.BrowserSessions and Handover are
--     handover.go, UserStore userstore.go, SessionIssuer session_issuer.go, Workspaces
--     workspaces.go, Identity identity.go, and Routing, Exchange and Handler the routes and
--     handlers of handler.go and authroutes.go, with the look-ups that identify a caller and what
--     opening and closing a socket reports. Bridge couples a socket to Session.Terminal.
--   * Supervisor (supervisor/internal) runs in the workspace. Evacuation.Agent is
--     `Evacuate` of evacuation/snapshot.go and `Restore` of evacuation/restore.go, over the parser
--     of git's status (DirtyPaths), the archive (Archive), its paths (FilePaths), git (Git) and the
--     client of evacuation/s3.go (ObjectStore); Trigger is evacuation/trigger.go. Testrun is
--     testrun/runner.go, testrun/heal.go (Heal and Watch) and testrun/failure.go (Failures).
--     Session.Model is `ModelMonitor` of session/model.go, and Session.Transcript, Health, Probe
--     and Terminal are session/transcript.go, health.go, probe.go and session.go.
--
-- They meet in the objects of the API server and over HTTP: the controller asks the supervisor to
-- evacuate before it stops the compute, and the gateway asks it about and tells it of writers.
--
-- How the code is modelled. A Go method that returns an error is a step of the monad of
-- Prelude.Outcome, which keeps the state on an error. What the code calls outside itself (the API
-- server, the supervisor over HTTP, commands, the object store, the clock) is an environment: each
-- call joins a trace, newest first, and is answered by a function of the trace before it, so an
-- answer is arbitrary, may change between two calls and may be a failure. A pass is then a function
-- of the environment and the trace so far, and the theorems quantify over both. A handler of the
-- gateway makes each call at most once, so there the answers are arguments and the calls are
-- returned in order. The evacuation agent is a step on the repository, the files and the objects of
-- the store, with git, the operating system and the store's server as functions on them. The helpers
-- meta.SetStatusCondition and its siblings, bcrypt, the JWT library, the hash, the parser of
-- quantities and the regular expressions are arguments with their documented laws as hypotheses
-- where one is needed. Times are seconds (the issuer's are nanoseconds), and percentages, which are
-- only compared, are natural numbers. Texts are native texts, but for git's output, paths and
-- contents of files and the terminal's log, which are lists of bytes. A method of browserSessions
-- holds its mutex, so it is one step, and an interleaving is a sequence of steps.
--
-- Bounds and fuel. The healing loop has the source's bound of three requests, and the user store's
-- loop its five attempts. The wait for a settled turn is a loop on fuel, and a poll at or past the
-- deadline within the fuel is enough for its end. All other loops are over lists.
--
-- Not modelled: the verifier of foreign tokens and the signing of certificates, the bootstraps of
-- the gateway's secrets, tmux, the restart of a session, the adapters for routing and databases, and
-- the wiring in the three main.go: input and output, or parts that are left for later. Of a
-- Kubernetes object the owner reference and the namespace are left out, and of an error its text
-- where the API's library prints it. Retries of a Kubernetes update by the caller, and the JSON and
-- base64 codecs, are outside too; what the JSON of the terminal's output does to its bytes is an
-- argument of `Gateway.Bridge.frames`.
mod Prelude
pub mod Controller
pub mod Gateway
pub mod Supervisor
