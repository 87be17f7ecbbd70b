-- ===== src/Lib.antt =====
-- kiac runs Kubernetes clusters whose nodes are lightweight virtual machines on a Mac. This library
-- models parts of its Go code and proves what makes them correct.
--
-- The parts and how they interact:
--   * cmd/kiac-edge-proxy runs on every node. It polls the cluster's Services, EndpointSlices and
--     Nodes, redirects Service traffic to itself with iptables, and proxies each connection to an
--     endpoint: directly on its own node, or by a tunnel to the proxy on the endpoint's node.
--   * pkg/runtime drives the machines: Apple's container runtime, with other backends behind one
--     routed runtime, the host directories that are mounted into a node and the ports that are
--     published. The krunkit backend keeps an inventory of machines and of their networks in files,
--     and starts, stops and finds the processes behind them.
--   * internal/gpudriver offers a node's GPU to Kubernetes while a watchdog reports it healthy.
--
-- The files:
--   * Base: equality tests, lists, texts, integers, results, maps as association lists (Base.Dict)
--     and programs with a state and an error (Base.Exec: an error keeps the state reached).
--   * Go: what the code uses of Go's strings, strconv, net and net/netip, over ASCII texts, with
--     their laws.
--   * EdgeProxy (cmd/kiac-edge-proxy/main.go): Cluster is parseClusterState and its objects;
--     Endpoints is matchingEndpoints and routeFor; Iptables is the interface to the nat tables;
--     Node is the state of proxyApp with families, binFor, ipt and iptOK; Hooks is resetHook,
--     ensureHook, cleanup and rulesMissing; Routes is addServiceRules, backendRoute and
--     tunnelTargetAllowed; Sync is syncRules, setRoutes and syncLoop; Tunnel is handleConn,
--     handleTunnel, the header and the token; Streams is proxyTCP and copyTCP.
--   * Runtime: Mount is pkg/runtime/mount.go, Routed is pkg/runtime/routed.go over the interface of
--     pkg/runtime/backend.go, Publish is pkg/runtime/publish.go.
--   * Runtime.Krunkit (pkg/runtime/krunkit.go, krunkit_state.go and krunkit_address.go): Network is
--     ensureNetwork, loadNetwork and validateKrunkitNetwork; Sizes is parseSizeBytes, parseCPUCount
--     and effectiveGPUMemoryMiB; Nodes is the inventory with readState, writeState and Owns; Process
--     is processOwned and the signals; World is what the lifecycle changes; Stop is stopLocked,
--     Start is startState, Remove is Remove and removeUnusedNetwork, Plan and Create are RunDetached,
--     Listing is List, updateState and the record of an address in execContext and IP; GuestMounts,
--     Mac and Address are nodeAddress and its checks; Linked, Separated and Reachable are the
--     invariants of sequences of operations.
--   * GpuDriver: Health is internal/gpudriver/health.go, Plugin is
--     internal/gpudriver/device_plugin.go.
--   * The modules named Examples hold concrete runs and instances of the theorems.
--
-- Conventions: a text is the list of its ASCII codes. A method of proxyApp is a function from the
-- state to a result and a state; the field `draft` is the local variable `routes` of syncRules. A
-- Go map is an association list, and the set of allowed targets a list. Times are nanoseconds on
-- the natural numbers. A machine integer is an integer; Atoi refuses what is out of int64. The
-- product of parseSizeBytes and the hash of fnv32 wrap around as in Go. What the host answers to an
-- operation on krunkit machines, which calls fail among it, is a record that the operation takes;
-- where the code ignores the errors of a listing, it says which names are listed and read. A wait
-- with a deadline is the list of the looks at a process until then. The signals of a world are the
-- calls of kill, to a process group or a process alone. A state file is what the JSON decoder makes
-- of it: unreadable, malformed or a record. But for those listings, a file that can be read once is
-- read each time.
--
-- Fuel: the loops `for a.ipt(bin, "-D", ...) == nil {}` take fuel, which is enough if it is more
-- than the copies of the rule in the chain; `decimal` takes n + 1 for the digits of n. The search
-- for a subnet has the 145 rounds of the source.
--
-- Parameters: iptables (a record of operations and the laws that its manual gives), the JSON
-- decoders, the files and devices of the system, the machines behind the runtimes, SHA-256, and the
-- order in which Go goes over a map.
--
-- Not modelled: sockets and their options, the bytes that are copied, processes and their output,
-- the other packages of pkg/ and the command line; of the krunkit backend, commands over SSH, the
-- keys, disks and logs, and the atomic replacement of files. But for Streams, whose goroutines take turns in
-- any order, the methods run one after the other: a lock is held in each place where they share
-- state.
pub mod Base
pub mod Go
pub mod EdgeProxy
pub mod Runtime
pub mod GpuDriver
