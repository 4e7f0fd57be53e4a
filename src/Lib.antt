-- ===== src/Lib.antt =====
-- A model of the test network function (a Go program which certifies network functions that run in
-- a Kubernetes cluster) and theorems about it.
--
-- A test is a chain of handlers. pkg/tnf drives the chain through a shell session: pkg/tnf/reel
-- sends what a handler's step says, waits for one of its expectations, and asks the handler for
-- the next step. What a handler saw becomes the result of the test, and the results of all tests
-- form a claim, which pkg/gradetool grades against a policy.
--
-- The files:
--   Prelude     shared names, lists, texts as bytes, association lists, results that may be errors,
--               signed integers
--   Strings     the functions of Go's packages strings and strconv that the program calls, written
--               from their documentation; Strings/Splitting has their laws
--   Json        a decoded JSON value, which Go holds as interface{}
--   Grade       pkg/gradetool/gradetool.go: generateTestResultsKey, processTestResults, doGrading,
--               validatePolicy
--   Reel        pkg/tnf/reel/reel.go: Step and Run with all that they call; the handler and the
--               session are arguments
--   Tnf         pkg/tnf/test.go: Test as a handler over its chain, Run, RunWithCallbacks,
--               RunAndValidate, ExitCodeMap
--   Generic     pkg/tnf/handlers/generic: the handler that a JSON file describes, with
--               generic/condition and generic/assertion
--   Handlers    the handlers of pkg/tnf/handlers that are written in Go, one definition for each
--               ReelMatch, and the sessions that they ask for
--   Platform    test-network-function/platform/suite.go: the comparisons of a node's hugepages with
--               its machine config, the reading of kernel arguments, the decoding of taints;
--               Platform/Boot has the boot parameters and the sysctl settings, with ArgListToMap
--               and FilterArray of pkg/utils/utils.go, Platform/Cluster the whole test of the
--               hugepages
--   Config      pkg/config/configsections; Config/Nodes, Config/Environment, Config/Sessions and
--               Config/Refresh are pkg/config/config.go: the nodes and their labels, the creation
--               of containers, sessions, refreshes and resets; with ResetOc, the closing of
--               pkg/tnf/interactive/oc.go
--   Autodiscover
--               pkg/config/autodiscover: the pods, deployments, operators and nodes that are found
--               by label or by namespace, and the containers of the partner pods
--   Lifecycle   test-network-function/lifecycle/suite.go: the recreation of pods with its cordons,
--               and in Lifecycle/Scaling the scaling of deployments and their restoration
--   AccessControl
--               test-network-function/accesscontrol/suite.go: the namespaces of pods and of custom
--               resources, and the commands run on pods, with pkg/tnf/testcases/base.go
--   Junit       pkg/junit/convert.go and test-network-function/results/results.go: the results
--               read from a report, and their recording
--   Tests       the theorems at concrete inputs
--
-- A Go string is the list of its bytes. An int is a signed integer; where the program adds or
-- multiplies what it read, the result is wrapped to 64 bits (wrap_int), and strconv.Atoi refuses
-- numbers beyond int64, as in Go.
-- A nil pointer is none, a panic is the error of a Result, and a method that changes its receiver
-- returns the changed one.
--
-- The loop of Step runs until a handler has no further step, so it is recursion on fuel, which
-- counts rounds; that enough fuel exists is a theorem about the handler, whose state must have a
-- rank that falls with each step. Errors of goexpect, timeouts and what the error channel
-- delivers are arguments: a Session says what ExpectBatch answers in each round. Go's package
-- regexp is an argument in the same way.
--
-- Go ranges over a map in an arbitrary order; a loop over a map takes the order of the association
-- list, which the theorems leave open. The commands that a suite runs are arguments: the record
-- Kube of Autodiscover has which commands succeed and what they print, decoded, the record World
-- of Lifecycle what the cluster answers to a history of commands, and the record Answers of
-- Platform/Cluster what nodes and machine configs answer. A call of pkg/config that panics leaves
-- the environment as it is then, in the record Halted; what autodiscovery has written into a
-- target or a partner when it panics is an argument. Config/Environment takes the discovery as an
-- interface, which Autodiscover/Partners fills. A session is a reference, and what was closed is a
-- list of them, in order.
--
-- Not modelled: the spawning of sessions (pkg/tnf/interactive), the decoding of JSON, YAML and XML,
-- the Ginkgo specs that only run a handler and report its result (test-network-function), the
-- catalogs of test identifiers, which are constants, and the command line (cmd). They are input
-- and output, or calls of other packages. Of the handlers in Go, those are left out that keep the
-- text they match, and bootconfigentries, clusterversion, containerid, ipaddr, nodedebug,
-- nodetainted and serviceaccount, which read one field of it.
pub mod Prelude
pub mod Json
pub mod Grade
pub mod Strings
pub mod Reel
pub mod Tnf
pub mod Generic
pub mod Handlers
pub mod Platform
pub mod Config
pub mod Autodiscover
pub mod Lifecycle
pub mod AccessControl
pub mod Junit
mod Tests
