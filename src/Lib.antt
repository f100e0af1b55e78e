-- ===== src/Lib.antt =====
-- Verification of the host configuration program in src/: a plan is a list of resources with
-- dependencies, an executor sorts it into levels and converges the resources of a level
-- concurrently, and backends compare a resource with the host and change what differs.
--
-- How the parts interact. src/main.rs detects the host facts, loads the config, and calls one
-- method of `Context` (src/bundles.rs) for each bundle that is named; a method builds its bundle
-- once and then answers from a memo, and a build calls the methods of the bundles that it needs.
-- A bundle calls `Plan::add` (src/plan.rs) for each resource and uses the
-- ids it gets as dependencies of later ones. `Executor::run` (src/executor.rs) sorts the plan,
-- and for each level skips what `skip_when` excludes, groups the rest by `batch_family`, gives each
-- group with a batcher to it and every other resource to its own `converge_one`, and collects
-- outcomes. After a level, the ids that changed are recorded in the `Env` (src/env.rs), where
-- `Command` and `Service` look for their triggers.
--
-- Files, with the code they model:
--   Common, Common/*      helpers: lists, counts, results of actions, and the text functions of
--                         the standard library that the code calls (lines, split, trim, parse)
--   Resource, Resource/*  src/resource.rs and src/batcher.rs; the traits are the records `Trait` and
--                         `Batcher`, over a type of states of the host
--   Env, Error, Plan      src/env.rs, src/error.rs, src/plan.rs
--   Executor/Report       `Report` and `ResourceOutcome` of src/executor.rs
--   Executor/Topo         `compute_topo_levels`; its modules Edges to Backward hold the proofs
--   Executor/Run          `run`, `run_level`, `run_batched`, `run_one`; its modules hold the proofs
--   Host                  what the backends call outside the repository, as the record `Host`
--   Backends/X            src/backends/x.rs: the record of the resource and its `converge_one`;
--                         Fs and Accounts are the helpers that several of these files repeat;
--                         Accounts/Lookups reads the ids that getent prints
--   Backends/Registry     the implementations of `Resource` as one data type
--   Backends/Batchers     both batchers, and the table that `Executor::new` builds
--   Backends/AptPackage/* what dpkg-query prints, and how it is read
--   Backends/Batchers/*   a batch next to its single resources, and what it runs
--   Backends/Views        what a file looks like, and what the file system is assumed to do
--   Backends/Forecast/*   what a dry run announces, beside the run that writes
--   Backends/Notify       the triggers of `Command` and `Service`, through the executor
--   Backends/Markers      what `Service` and `Command` see of a marker that they watch
--   Backends/Defaults     `Default::default()` of each resource
--   System                the executor over the backends, as src/main.rs runs it
--   Config, Config/*      src/config.rs; the YAML parser is a parameter
--   Env/Detect            the `detect_*` functions of src/env.rs, over `Host`; Found holds the proofs
--   Bundles               src/bundles.rs: `Context`, the memo, and `add`
--   Bundles/X             src/bundles/x.rs, with every resource, dependency and text of its build;
--                         Bundles/Docker/Units is the last part of docker.rs, and
--                         Bundles/Iptables/Rules are the rules that iptables.rs renders,
--                         Lines and Accepts beside it say which lines they have
--   Bundles/Fits, Fits/*  the invariant of `Context` through every build
--   Bundles/Registers     which resources a build adds; Memo: builds that leave the memo alone
--   Main                  src/main.rs: the bundles, the plan they make, the run, the exit code
--   Main/*                Soundness (the plan), Repeats (the memo), Runs (the run), Accounts and
--                         Granted (the users)
--   Tests/*               a small host, small plans, and the theorems at concrete data
--
-- Stateful code is a function from a state to a result and the next state (`Action` in
-- Common/Results), where an error keeps the state that it left behind. The host is a parameter:
-- `Host` has one field per call of std::fs, tokio::process, reqwest and regex. Its laws are stated
-- where they are used: `IsReadOnly` (the child processes that only look change nothing) and
-- `IsFileSystem` (what the manual pages say of create, write, chmod, chown, rename and mkdir).
-- `IsDpkg` says that dpkg-query prints its database in the format it is given.
--
-- The tasks of a level run one after another, in any order: the schedule is an argument of the run
-- and the theorems hold for every schedule. This covers the unspecified order of the hash map and
-- of the join set, and not interleavings inside two tasks. The first error ends the run.
-- Whether a task panicked is the host's answer in the state that the task leaves (`join_error`); how
-- far the work of a task that panics has gone is not modelled, only that it ends the run.
-- Numbers are natural numbers: `usize` counters are bounded by the length of the plan. The `u32` of
-- an account is checked when it is parsed. The loop of the sort runs on as many rounds as the plan
-- has nodes, which is enough since every round but the last visits a node.
-- Attributes that only steer logging are left out, and so are the logged diffs.
--
-- A bundle is an action on the `Context` (`Build` in Bundles) for a fixed `Setting`: the host facts
-- and the config, which no build changes, and the names in /etc/profile.d, which common_tweaks.rs
-- lists while the plan is assembled. A helper whose result goes into a list returns what the source
-- pushes on that list. `BTreeMap`s of the config are lists of their entries in the order of the keys.
--
-- Not modelled: the parsing of the arguments and of the YAML text, and all logging, which are
-- libraries; the synthetic environments of src/env.rs, which tests use; e2e-tests/ and tests/; the
-- Ansible roles.
pub mod Backends
pub mod Bundles
pub mod Common
pub mod Config
pub mod Env
pub mod Error
pub mod Executor
pub mod Host
pub mod Main
pub mod Plan
pub mod Resource
pub mod System
pub mod Tests
