-- ===== src/Lib.antt =====
-- ovn-fabric: what runs on a host of the fabric, from a plan's units of work down to the command
-- lines, with the theorems that make it correct.
--
-- The program. A host's network (switches and routers of OVN, bridges of OVS, links in network
-- namespaces, containers) is described by objects (deployer/primitives_*.py). Each object renders
-- to a primitive: a key, raw nodes that describe it, commands that create it and commands that
-- delete it; the command lines come from ladops/. A `LifecycleController` (deployer/lifecycle.py)
-- runs a queue of such operations: CREATE goes forward and ends at the first failure, DELETE goes
-- backward and does what it can. The operations reflect themselves in a raw graph, which is
-- validated (raw_reconciler/graph.py reads such a graph back, with indexes of its references), and
-- hand values on by references that are resolved when an operation runs. A unit of work comes from
-- the declarations over an IR (deployer/ir_common.py), which a plan's emitter (fabric/plan.py) cuts
-- into units, and travels to its host as serialized steps (fabric/units.py). The apply task
-- (fabric/services/apply.py) sends a plan's units, as requests on a connection (runtime/peer.py),
-- to the executor one after the other and skips, on a create, what an earlier failure has made
-- impossible. Jobs wait for dependencies (deployer/jobtree.py), whose packages are installed with
-- retries (fabric/services/sysdeps.py, deployer/dependency.py).
--
-- The files.
--   Prelude     tests on numbers and texts, lists, Python's `dict`, decimal numbers and joins
--   Value       the values of operations and raw nodes; `_resolve` (deployer/lifecycle.py)
--   Lifecycle   RawGraph is `RawGraphBuilder`; Effects has the host and the run's state; Operations
--               the operations as data; Commands `run_cmd` and `capture_cmd`; Steps `create` and
--               `delete` of each operation (deployer/primitives_fs.py too); Queue `execute`.
--               Order, BestEffort, Strict, Captures and GraphLaws have the theorems.
--   Units       Json and Steps are fabric/units.py; JsonLaws and RoundTrip have the theorems.
--   Ladops      the builders of command lines in ladops/ovs.py, ovn.py, linux_net.py and netns.py
--   Primitives  Ovs, Ovn, Docker, Net, NetnsLink, Netns, Inside and Routing are
--               deployer/primitives_*.py;
--               Objects joins those of the bridge, of OVN, of Docker and of Net in one type. Objects,
--               Owners, LinkLaws and Teardown have the theorems.
--   Apply       `apply`, `_run` and (Failures) `Failed` of fabric/services/apply.py; Skips and
--               Outcome have the theorems.
--   Peer        `Request` and the keeping of requests in `Peer` of runtime/peer.py, with the steps of
--               a connection, the reading of a request among them; Received and Closing have the
--               theorems, and Invariant and Reading lead to them.
--   Snapshot    `graph_from_snapshot` of raw_reconciler/graph.py; Inverse and Success have the
--               theorems.
--   Plan        Calls has the calls of a declaration on its emitter (`Emitter` of
--               deployer/ir_common.py), Units the emitter `PlanEmitter` of fabric/plan.py;
--               Discipline and Growth have the theorems.
--   Cluster     `_emit_cluster_body` of deployer/ir_common.py and what it calls. Orderly, Valid,
--               Choices and Prefixes have the theorems; Owned, OwnedAcls, OwnedRouters and
--               OwnersFirst lead to Valid.
--   Kernel      the kernel routers of deployer/ir_common.py: Nodes has the IR, Filters the rules of
--               a security group (`_emit_security_group_rules`), Network `_apply_side_network`,
--               Container and Apps `_emit_kernel_app_rules`, Router `_emit_kernel_router_owner`.
--               Iptables has what is relied on of iptables, Policy what a group asks for; Rows,
--               Verdicts and Refines lead to Firewall, Stays to Orderly, Closed, Devices and Places to
--               Valid, and Misplaced is about an app that cannot be planned. Decimals reads ports
--               back.
--   Waiter      `DepWaiter` of deployer/jobtree.py; Once has the theorem.
--   Retry       `_retry` of fabric/services/sysdeps.py and `_apt_retry` of deployer/dependency.py;
--               Backoff has the theorems.
--   Sysdeps     `_Resolver` of fabric/services/sysdeps.py: Manager has the package manager and the
--               clock, Worker the jobs (`_install`, `_refresh`, `_update`), Names the test on
--               package names, Requests what `resolve` and `_wait` do between two awaits, Steps
--               the system of steps, Response the end of `_wait`. Settling, Regular, Places,
--               Balance, Invariant, Drain, Lost and Options have the theorems, and Queries leads to
--               Options.
--   Tests       the theorems at concrete inputs
--
-- The model. The host is a parameter: a function that answers each action (a command, a file call)
-- and may let the answer depend on all actions before. A run carries the store of captured values,
-- the raw graph, the trace of actions and what was warned of; an exception is a result. The
-- executor of units, the runs of a package manager and its `permanent` test are parameters too, and
-- the manager's answers may depend on all that it was asked. The tasks of the resolver are a step
-- relation: each step is what one task does between two awaits, or that a request is cancelled at
-- one of them; the steps come in any order, a job
-- of the worker is one step (no request reads what a job has done so far), and a result reaches the
-- requests that wait for it when it is set. A declaration is the list of its calls on the emitter,
-- with each unit named by how many were opened before it. Its raw graph is the one of all its
-- objects together, though each unit starts with an empty graph when it is executed. Loops are by recursion on the queue, the
-- plan or the attempts left, and need no fuel; a capture recurs on its `retries`. A JSON text is
-- the data that it denotes. Numbers are natural numbers: limits, tags and delays are never negative
-- there, and delays are in whole seconds.
--
-- What Python's `ipaddress`, `:g`, `shlex.quote` and `posixpath.dirname` answer is a parameter
-- (`Library`), and so is what iptables does with its rules (`Netfilter`), with its documented laws.
--
-- Not modelled: texts of messages and plans, probes (never run), logs, the transport of messages,
-- the declarations of services and hosts (deployer/ir_common.py), the printing of a deployer
-- (deployer/ir_to_python.py), and what system tools print.
pub mod Prelude
pub mod Value
pub mod Kernel
pub mod Lifecycle
pub mod Units
pub mod Ladops
pub mod Primitives
pub mod Apply
pub mod Snapshot
pub mod Waiter
pub mod Sysdeps
pub mod Plan
pub mod Cluster
pub mod Peer
pub mod Retry
pub mod Tests
