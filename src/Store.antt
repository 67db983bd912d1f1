-- ===== src/Store.antt =====
-- common/store: the data that every part of the program shares, the stores, and the services watch.
pub mod Data
pub mod InMemState
pub mod InMem
mod Tests
pub mod Etcd
pub mod WatchServices
