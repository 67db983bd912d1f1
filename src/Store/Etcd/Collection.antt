-- ===== src/Store/Etcd/Collection.antt =====
-- common/store/etcdstore/gc.go: the values of sessions that have ended are deleted.
pub mod OnlyDead
use ambergreen.Common.{
  ℕ, String, Bool, true, false, ◌||◌, Option, none, some, List, [], ◌∷◌, ◌==◌, string_eq,
  if◌then◌else◌,
}
use ambergreen.GoMap
use ambergreen.GoMap.{Map}
use ambergreen.Net.{IpPort}
use ambergreen.Store.Etcd.Keys.{service_root, host_root, instance_path, ingress_instance_path}
use ambergreen.Store.Etcd.Client
use ambergreen.Store.Etcd.Client.{
  Node, Nodes, node, nil, cons, Error, bad_json, Answer, answered, failed, Etcd, Codec,
}
use ambergreen.Store.Etcd.Nodes.{index_dir, get_dir_node, live_sessions, Sessions}

module _ {W : Type 0} (etcd : Etcd W) (codec : Codec) (parse_ip_port : String → Option IpPort) where
  -- Deletes are not checked for errors; the error is that of json.Unmarshal.
  unfoldable pub cull_session_values : Nodes → Sessions → W → W × Option Error
  cull_session_values nil live w = (w, none)
  cull_session_values (cons n ns) live w = elim (codec.session_value.decode (Client.value n)) [
    | none ↦ (w, some bad_json)
    | some session ↦ cull_session_values ns live (
        if session == "" || GoMap.has session live
        then w
        else (etcd.delete_at (Client.key n) (Client.modified_index n) w).0)
  ]

  abbrev pub cull_dir : Option Node → Sessions → W → W × Option Error
  cull_dir none live w = (w, none)
  cull_dir (some n) live w = cull_session_values (Client.nodes n) live w

  abbrev pub and_then : W × Option Error → (W → W × Option Error) → W × Option Error
  and_then (w, none) next = next w
  and_then (w, some err) next = (w, some err)

  -- The loop over the services.
  unfoldable pub cull_services : Nodes → Sessions → W → W × Option Error
  unfolding cull_session_values
  cull_services nil live w = (w, none)
  cull_services (cons n ns) live w =
      let svc_dir = index_dir (some n) in
      and_then
        (and_then (cull_dir (GoMap.lookup instance_path svc_dir) live w)
          (cull_dir (GoMap.lookup ingress_instance_path svc_dir) live))
        (cull_services ns live)

  unfoldable pub do_collection : W → W × Option Error
  unfolding cull_services cull_session_values
  do_collection w = elim (get_dir_node codec parse_ip_port etcd host_root true true w) [
    | failed e ↦ (w, some e)
    | answered (host_dir, i) ↦
        elim (get_dir_node codec parse_ip_port etcd service_root true true w) [
          | failed e ↦ (w, some e)
          | answered (service_dir, j) ↦ elim (live_sessions codec parse_ip_port etcd w) [
            | failed e ↦ (w, some e)
            | answered live ↦
                and_then (cull_session_values (Client.nodes host_dir) live w)
                  (cull_services (Client.nodes service_dir) live)
          ]
        ]
  ]
