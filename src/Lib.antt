-- ===== src/Lib.antt =====
-- kubeagent: a model of the program's core, with the theorems that make it correct.
--
-- kubeagent scans a Kubernetes cluster and reports what is broken. One scan yields a `scan.Result`;
-- inventory.Assemble groups its pods into workloads, inventory.Prioritize picks what is shown, and
-- rootcause attributes the failing ones; findings.Flatten projects it into one list of findings;
-- the gate turns that list into a verdict and an exit code for a pipeline; the watch daemon runs
-- the scan again and again, folds the issues of each run into a tracker, and rolls the tracker's
-- active records up into alerts per object. A fix that the operator approves is applied by one
-- guarded write. A fleet sweep runs the gate on many clusters through a pool of workers and reduces
-- the verdicts to one.
--
-- Which file models which part (paths from the repository's root):
--   Prelude       names of the library passed on, Boolean tests, lists, texts as lists of bytes,
--                 sorting by a comparison, association lists for maps, decimal numerals, integers
--   Glob          internal/glob/glob.go: Match
--   Findings      internal/findings/findings.go: the findings, their order, Flatten, FromPolicy and
--                 FromBaseline; Findings/Sources holds the fields they read of the issue types of
--                 internal/{svchealth,pvchealth,termhealth,pdbhealth,hpahealth,
--                 webhookhealth,quotahealth,scan,policy,baseline}
--   Gate          internal/gate/gate.go: Decide
--   Watchstate    internal/watchstate/watchstate.go: the tracker; Watchstate/Passes holds Observe
--   Alertstate    internal/alertstate/alertstate.go: the roller; Alertstate/Roll holds Roll
--   Tui           internal/tui: Tui/Keys is key.go, Tui/Update is model.go (Update, clamp,
--                 drainKeys), Tui/Runes is utf8.DecodeRune of Go's standard library
--   Policy        internal/policy: the values and operators; Policy/Path is walkFrom of path.go,
--                 Policy/Op is op.go, Policy/Check is the check of a path and unreadableFor of eval.go,
--                 Policy/Related is relation.go, Policy/Select is matches of eval.go
--   Oncall        internal/oncall/throttle.go: Oncall/Throttle is the throttle of model calls, whose
--                 mutex serialises its methods, so that a method is one step of the model
--   Remediate     internal/remediate/remediate.go: Remediate/Plan is Plan and Inverse,
--                 Remediate/Revisions picks the ReplicaSets, Remediate/Changes is the preview,
--                 Remediate/Apply, Forward and Nodes are the four kinds of write behind Apply
--   Rolloutwait   internal/rolloutwait/rolloutwait.go: Rolloutwait/Target is ParseTarget,
--                 Rolloutwait/Poll is Wait and observe
--   Fleet         internal/fleet: Fleet/Summarize is summarize.go, Fleet/Correlate is correlate.go,
--                 Fleet/Sweep is Sweep of fleet.go
--   Parallel      internal/parallel/parallel.go: Do, as steps of its workers
--   Inventory     internal/inventory/inventory.go: the types; Inventory/Pods is what a pod adds, Owners is
--                 PodOwners, Seeds and Assemble are Assemble, Prioritize is Prioritize
--   Rootcause     internal/rootcause/rootcause.go: Rootcause/Node is Annotate, Claim is AnnotatePVC,
--                 Registry is AnnotateRegistry
--   Safetext      internal/safetext/safetext.go: Line
--
-- Conventions. A definition has the name of the Go function in snake_case. A string is the list of
-- its bytes. A map is an association list with one entry for a key at most; the Go code iterates
-- over a map in no fixed order, and what the model returns is sorted wherever the code sorts it. A
-- time is a number of time units since the zero time, which is 0, so that `IsZero` is the test for
-- 0, and `now.Sub(t) > d` is written `t + d < now`. A loop over a slice is structural recursion.
-- Goroutines are the steps of a relation, in any interleaving (`Parallel`); all else is sequential.
-- State that a method changes through its receiver is passed in and returned. int64 counters wrap
-- at 2^64 as they do in Go's unsigned reading. What the API server answers is given: to each run of
-- the closure that `retry.RetryOnConflict` retries belongs a record of the answers to its calls,
-- where an access review is answered by a function of the verb, group, resource, namespace and name
-- that were asked, and the closure runs again on a conflict as long as there are further ones, as the
-- library documents. What is sent is the second component of the outcome, with its answer (`Saved`).
-- A conflict, which the API documents as an update that was refused, was not stored. Any other error
-- leaves that open, as when the answer is lost to a timeout: whether the object was stored is then
-- part of what is given, and the program does not see it.
--
-- Bounds and fuel. The backtracking loop of `Match` runs on fuel (len(s) + 1) * (len(pattern) + 1),
-- and `Glob.Correct.run-decides` shows that this is enough. `drain` runs on one unit more than
-- there are bytes pending, and `Tui.Drain.drain-returns` shows that this is enough. The loop of
-- `wait` runs on one unit more than the timeout has time units, and `Rolloutwait.Paced.wait-Within`
-- shows that this is enough.
--
-- What is not modelled. Calls of the Kubernetes API, of a language model and of the terminal are
-- I/O. Types of client-go are third-party; only the fields that the modelled code reads of them and
-- of the program's own issue types appear. The passes that a scan runs between Assemble, Prioritize
-- and the attribution (batchhealth, createhealth, rollouthealth, netpolicy, rollout) are not
-- modelled. Floating-point rates are a parameter (`Rates`), with no law assumed of them; what a
-- policy parses and prints of numbers and quantities is one too (`Numbers`). What a container and a
-- pod spec hold beside the fields that are read, with its semantic equality, is a parameter
-- (`Kube`). The throttle's float64 arithmetic is a parameter (`Floats`), and what is used of it are
-- the hypotheses `Laws`. What inventory calls of Go's time and UTF-8 packages is a parameter
-- (`Runtime`), its clock is read in whole seconds, and the tables of the unicode package are a
-- parameter (`Unicode`) of which `HasRunes` says what is documented of two runes. Constant metadata
-- of the JSON documents, such as the schema version, is left out.
pub mod Prelude
pub mod Alertstate
pub mod Findings
pub mod Fleet
pub mod Gate
pub mod Glob
pub mod Inventory
pub mod Oncall
pub mod Parallel
pub mod Policy
pub mod Remediate
pub mod Rolloutwait
pub mod Rootcause
pub mod Safetext
pub mod Tui
pub mod Watchstate
