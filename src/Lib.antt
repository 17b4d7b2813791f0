-- ===== src/Lib.antt =====
-- goss validates the state of a machine against a gossfile. A gossfile is read into a GossConfig
-- (goss_config.go), whose resources (resource/) are validated one by one; each property of a
-- resource is fetched from the machine (system/), compared by a matcher (matchers/), and reported
-- as a TestResult. If some resource has dependencies, the resources run by the schedule of
-- dependency_scheduler.go.
--
-- Patterns: matchers/have_patterns.go. Leaves: matchers/be_numerically_matcher.go and
-- matchers/semver_constraint.go, and the call of the pattern search. Transform:
-- matchers/type_conversion.go. Matcher: the data type of matchers and their Match; Matcher.Parse:
-- matcherToGomegaMatcher of resource/gomega.go; Matcher.Report: FailureResult and
-- NegatedFailureResult, both as they answer behind a Match of the same value and, where nothing
-- was matched, as `fresh`.
-- TestResult and Validation: resource/validate.go and resource/resource.go. ValidateGomegaValue is
-- fetching (found_value), building the matcher (choose_matcher), and concluding (conclude).
-- Kinds and Checks: the structs of resource/*.go and their Validate methods. Resource: the
-- interface of the same name, over all kinds, with resource/key.go and resource/skip.go.
-- Config: goss_config.go and discovery_config.go. Schedule and its children: dependency_scheduler.go,
-- with Build for buildSchedule up to its search for cycles, Cycles for detectDependencyCycles, and
-- Start for the functions that put them together. Outputs: the counts and exit codes of
-- outputs/*.go. Run: the retry loop of validate.go, and Run.Disabled: applyDisabledTypes.
-- Run.Parallel: validateParallel; Run.Start: runValidation; Run.Whole: from there to the exit code.
-- Discovery: discovery_config.go and discovery_validate.go. Store: store.go and template.go, with
-- Vars for the variables of templates and Load for loadGossConfig (validate.go) and
-- loadGossConfigWithDiscover (discovery_load.go), and Write for RenderJSON and WriteJSON.
-- System: what the system objects answer, as a record. Its children model how some of them find the
-- answers: Ports, Processes, Dns, Mounts, Files, Http and Accounts for the files port.go, process.go,
-- dns.go, mount.go, file.go, file_posix.go, http.go, user*.go and group.go of system/, and Detect for
-- the choices of system/system.go.
-- Health: the endpoint of serve.go.
-- Options: util/config.go, with Options.Whitelist for the attributes that a section may have.
-- ResourceMaps: resource/resource_list.go, by its template resource_list_genny.go, with New and NewWhole
-- for the New functions of resource/*.go and Methods for the reading of all its map types. Add: add.go and logs.go.
--
-- What stands outside of src/ (gomega, gjson, semver, regexp, strconv) is a field of
-- Libraries.Libraries, or, for files and templates, of Store.Host, or stands in the records beside the
-- models of the system objects. What the system objects answer is a field of System.System. All of
-- these are arguments of every definition that uses them. The table of mounts and a web server may answer
-- differently from one look-up or request to the next, so these are numbered. A clock gives the start and the end of each
-- check. What the program around an add or a request answers is AddMachine, AddHost and HttpHost.
-- A Go call ends as a value, an error or a panic (Errors.Result). A map is an association list, in
-- the order in which one run of Go visits it. The order in which the workers of a round finish is
-- an argument of the schedule; `status` and `completed`, which the workers write without a lock,
-- are taken as one map that is written by whole steps.
-- The rounds of the schedule are recursion on fuel, one for each item. That is enough, since a
-- round that does not end the loop runs some item, and it is part of what is proved. The retry
-- loop has fuel for one attempt more than its time has units. The search for cycles has fuel for
-- one reference more than the schedule mentions, and the recursion over included gossfiles for the
-- depth at which the code gives up; both are proved to be enough.
--
-- Not modelled: the command line, the functions that templates call, the queries of the operating
-- system behind commands, packages, services and interfaces, the metrics of prometheus,
-- and the rendering of texts; MarshalJSON of the matchers; the lists of missing, extra and found
-- elements in a matcher's report.
pub mod Base
pub mod Errors
pub mod Value
pub mod Patterns
pub mod Libraries
pub mod Transform
pub mod Leaves
pub mod Matcher
pub mod TestResult
pub mod Validation
pub mod System
pub mod Kinds
pub mod Checks
pub mod Resource
pub mod Config
pub mod Discovery
pub mod Store
pub mod Schedule
pub mod Options
pub mod Outputs
pub mod ResourceMaps
pub mod Add
pub mod Run
pub mod Health
pub mod Samples
