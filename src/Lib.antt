-- ===== src/Lib.antt =====
-- A model of the runtime contracts of the package pkg/contracts: the validators that the services
-- run on what they exchange, and theorems on what an accepted message guarantees.
--
-- The package is a library of wire structures and of pure functions on them. A Control Panel issues
-- a command to an Updater, which leases it, asks for grants to mutate a host, reports progress and
-- ends with one result; a port change by version 2 carries a plan of three snapshots, B before the
-- change, T its target and R its rollback, and its result says which of them was observed. Apart
-- from that an encoder answers requests to show or hide a video cover. Each message has a validator
-- that returns nil or an error, and the validators of a later message call those of an earlier one:
-- grant and result call the lease's, which calls the command's, which calls the plan's. The executor
-- of a port change rewrites its root policy by a delta between two references of the plan, with the
-- listener's or the container's configuration under a digest.
--
-- Files, and the code that each models:
--   Common     the shared helpers: Go's `==` as a class, integers, int64 with its wrap-around
--              (Common/Int), errors as values (Common/Outcome), lists
--   Text       the patterns of pkg/contracts/updater_runtime_validation.go and the loops over bytes
--              of visual_runtime_validation.go; Text/Digest is ComputeSystemUpdatePortBytesSHA256
--   Json       JSON documents; Json/Canonical is appendUpdaterJCS, the canonical form under digests;
--              Json/Canonical/Layout spells that form out for members in order;
--              Json/Strict is decodeUpdaterStrictJSON, Json/Entry the shape of the raw entry points
--   Port       system_update_port_v2.go: Port/Plan is ValidateSystemUpdatePortPlan, Port/Result is
--              ValidateSystemUpdatePortResult; Port/Create is ValidateSystemUpdatePortCreate of
--              system_update_port_validation.go; Port/Wire is the JSON form of a plan; Port/Baseline is
--              ValidateUpdaterPortPolicyBaseline, Port/DockerConfig SystemUpdatePortDockerConfig;
--              Port/Document and Port/Entry are the raw entry points
--   Listener   node_listener_config.go: NodeListenerConfig.Validate and MarshalNodeListenerConfig;
--              Listener/Parse is ParseNodeListenerConfig
--   Policy     system_update_port_policy.go: Policy/Root is decodeSystemUpdatePortRootPolicy,
--              Policy/Target and Policy/Allowed the tests of ApplySystemUpdatePortPolicyDelta and
--              what it assigns, Policy/Delta its loop
--   Updater    updater_runtime_validation.go and types_updater_protocol.go: Updater/Command is
--              ValidateUpdaterCommand, Updater/Lease the leases, progress and grants, Updater/Result
--              is ValidateUpdaterResult with validateUpdaterPortResultBinding; Updater/Document and
--              Updater/Entry are the raw entry points;
--              Updater/Wire and Port/Wire are the JSON forms under a command's digest, and their
--              modules Read readers of them
--   Visual     visual_runtime_validation.go and types_visual.go: Visual/State is
--              validVideoCoverRuntimeState, Visual/Response the validators of requests and responses,
--              Visual/Entry the raw entry points
--   Preparation  encoder_start_preparation.go
--   Permissions  permissions.go
--   Release    release_manifest.go; Release/Read is a reader of what it encodes
-- A module of constants has the values of one named string type. Types has the structures, Samples
-- the test data, Running the lists of definitions that a run opens, Tests the runs.
--
-- How the code corresponds. A structure is a record with the names of its JSON members; a pointer is
-- an Option, a slice a List. Go's int and int64 are integers, and a sum in the code is add64, which
-- wraps at 64 bits; uint64 is a number, since nothing is computed with one. A time is a number of
-- nanoseconds whose 0 is Go's zero time. A validator returns a Check, with the error that the code
-- returns; a guard that returns an error when a test fails is `require` of the test, negated by De
-- Morgan's laws, and a chain of guards with the same error may stand as one conjunction. A string is
-- a list of characters, so it is valid UTF-8; its length in bytes is that of its UTF-8 form. The
-- loops are over lists, and over the characters of a string. Only the printer of numerals has fuel,
-- decimal_from (Json/Decimal): a number has as many rounds as the number itself, which is enough
-- since each round divides by ten.
--
-- Parameters, for what the package calls from outside: SHA-256, with the length of a sum and the
-- range of its bytes as laws (Text/Digest); the compiled JSON schema of a desired operation and
-- time.Time.MarshalJSON, without laws (Updater/Platform); netip.ParseAddrPort and encoding/json on a
-- listener configuration (Listener); encoding/json on a root policy, url.Parse and net.ParseIP
-- (Policy/Root); hex.DecodeString (Release). A raw entry point has a codec, encoding/json: the
-- reading of one document to its end, which keeps repeated keys, and the decoding of a document into
-- a structure, which refuses unknown fields (Port/Entry, Updater/Entry, Visual/Entry, Preparation);
-- the compiled schemas are in it too. A property that needs a law of them has it as a premise.
--
-- Where a structure is encoded before its digest, the model encodes to a document and takes the
-- canonical form of it; the reading and printing between these two in the code is not modelled.
-- ValidateUpdaterCommand would panic on a plan of version 2 without B or T under another operation
-- than a port change, which the schema excludes; the model rejects it.
--
-- Not modelled: the loading of schemas, which compiles embedded files by a third-party package; the
-- policy snapshots of system_update_port_policy.go and their identity; and the structures that no
-- validator reads, among them the stream inside a request to prepare a start.
pub mod Common
pub mod Json
pub mod Listener
pub mod Permissions
pub mod Policy
pub mod Port
pub mod Preparation
pub mod Release
pub mod Text
pub mod Updater
pub mod Visual
