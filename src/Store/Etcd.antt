-- ===== src/Store/Etcd.antt =====
-- common/store/etcdstore: the store that keeps its data in etcd, as a tree of nodes.
pub mod Keys
pub mod KeyRoundTrip
pub mod Client
pub mod Nodes
pub mod Requests
pub mod Watch
pub mod Collection
pub mod Agreement
pub mod Reading
mod Tests
