-- ===== src/Lib.antt =====
-- Weave Flux: a network of services whose instances are containers on many hosts. A store holds the
-- services, the rules that select their containers, and their instances. On each host an agent turns
-- the containers that run there into instances, and a balancer forwards the connections to a service
-- to its instances.
--
-- Files, and the code they model (paths from the repository's root):
--   Common, GoMap, GoStrings: what all share. A Go map is an association list, a nil map an empty
--     one where only reads see it; a call that may panic has the type Run.
--   Net: common/netutil/netutil.go, IPPort. Package net, strconv and fmt are the record Platform.
--     Net/Text has the printing and parsing of addresses, with the record Network; RoundTrip is about it.
--   Store/Data: common/store/data.go, the options of store.go, and the update of watch.go.
--   Store/InMemState, Store/InMem, Store/InMem/Session: common/store/inmem/inmem.go. A method is a
--     function on the state with the error that it returns; channels are what has been sent on them.
--     Ending, Calls, Aligned, Listing, Reads and Notifies under Store/InMem are about it.
--   Store/Etcd: common/store/etcdstore. Keys has the keys of etcd and parseKey, Nodes what is read
--     from nodes, Requests the methods that write, Watch the two watches, and Collection gc.go. The
--     client of etcd and encoding/json are the records Etcd and Codec of Client, and net's parsing
--     and printing of addresses are functions. KeyRoundTrip, Reading, Watch/Forgotten,
--     Collection/OnlyDead and Agreement are about them; Agreement relates the two stores, where etcd's
--     watches are as documented.
--   Store/WatchServices: common/store/watch.go; what comes on the channel is a list of changes, each
--     with the store as it then is.
--   Agent/Container: agent/sync_instances.go, extractInstance and what it calls.
--   Agent/SyncState, Agent/SyncInstances: the rest of agent/sync_instances.go; `step` is a round of
--     the loop of `run`, and `run` a sequence of rounds. The modules under it are about the updates
--     that it sends.
--   Balancer/Model: balancer/model/model.go and watch_services.go.
--   Balancer/Services: balancer/services.go. The rules and listeners that it opens and closes are
--     counted in a World, with the rules that are left behind; what the operating system refuses, the
--     deletion of a rule too, is a parameter.
--   Agent/SetInstances: agent/set_instances.go, on the in-memory store; Pruning and Syncing are about it.
--   Agent/DockerListener: agent/docker_listener.go; docker's answers are a parameter.
--   Balancer/IpTables: balancer/iptables.go; the iptables command is a parameter.
--   Balancer/ServerSide: balancer/serverside/serverside.go; its calls of forwarders and of the
--     store are a list of effects.
--   Balancer/Pool: balancer/forwarder/pool.go. Pool has the instances, which Go shares by pointers
--     and which here have numbers, and the retry queue; Calls and Updating have the methods. The
--     package container/heap is the record Heap, the swaps that it makes. Slices, Indices, Removal,
--     Retries, Failing and Updates are about it.
--   Balancer/Forwarder: balancer/forwarder/forwarder.go, the attempts made for a connection, on the
--     pool; what a connection leads to is a list of effects. Attempts is about it.
--   Balancer/BalAgent: balancer/balagent/balagent.go, the updater; a round is one of its own or a
--     reception by the generator. Snapshots, Known and Following are about it; in Interleaving its watch and the
--     calls of an in-memory store take turns in any order.
--   Daemon/Dependencies: common/daemon/deps.go, the dependencies of the configured parts and their order;
--     a key is a number. Requests has the method Dependency and the filling of slots. Counts, Sorting,
--     Order, Filling and Asking are about them.
--   Daemon/Supervision: common/daemon/component.go, Restart and Reset, as step relations; Children is
--     about them.
--   Fluxctl/Selectors, Fluxctl/Commands: fluxctl, the rules that flags give and the commands that write, on the
--     in-memory store; Writing is about them. Fluxctl/Query is fluxctl/query.go, with the printing of a row
--     as a parameter; Visits and Reported are about it.
--   Modules named Tests run the code on small inputs.
--
-- The order of a range loop over a map is the order of the association list. Locks make the methods
-- of the store atomic, and a component's goroutine handles one event at a time; an interleaving is
-- the order of a sequence of calls or events.
-- The one loop on fuel is that of deleteChainRule, which deletes a rule until the command fails: fuel
-- above the number of copies of the rule is enough. The loop of processRetries takes one instance
-- from the queue in each round: as many rounds as the queue is long are enough. The loop of the
-- sort of dependencies has as many rounds as there are dependencies, each of which it takes once. The
-- calls of Dependency have a bound on their depth, which is enough above a bound on the keys.
--
-- Not modelled: the etcd client's own code, the docker client, forwarding of bytes, HTTP, metrics, flags
-- and printing; the goroutines of Aggregate and Par, the ticker, the heartbeat and the tee, which only
-- wait and send. Logging is left out.
pub mod Common
pub mod GoMap
pub mod GoStrings
pub mod Net
pub mod Store
pub mod Agent
pub mod Balancer
pub mod Daemon
pub mod Fluxctl
