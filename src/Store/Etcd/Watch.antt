-- ===== src/Store/Etcd/Watch.antt =====
-- common/store/etcdstore/etcdstore.go: WatchServices and WatchHosts. A watcher of etcd gives the
-- responses one by one, and each is turned into changes.
pub mod Forgotten
use ambergreen.Common.{
  String, Bool, true, false, ◌||◌, Option, none, some, List, [], ◌∷◌, ◌++◌, map, ◌==◌, string_eq, ℕ,
  if◌then◌else◌,
}
use Prim.Native.String.{count}
use ambergreen.GoMap
use ambergreen.GoMap.{Map, keys}
use ambergreen.Store.Data.{HostChange, ServiceChange, QueryServiceOptions}
use ambergreen.Store.Etcd.Keys.{
  host_root, drop, ParsedKey, parsed_root, parsed_service_root, parsed_service, parsed_rule,
  parsed_instance, parsed_ingress_instance, no_key, parse_key, relevant_to,
}
use ambergreen.Store.Etcd.Client.{Node}
use ambergreen.Store.Etcd.Nodes.{index_dir, mark}

-- The action and the node's key of an etcd.Response.
pub record Response : Type 0 where
  pub action : String
  pub key : String

-- The services that are known, and the changes that are sent.
abbrev pub Watched : Type 0
Watched = Map String (Unit {0}) × List ServiceChange

abbrev pub gone : String → ServiceChange
gone name = record { name = name; service_deleted = true }

abbrev pub changed : String → ServiceChange
changed name = record { name = name; service_deleted = false }

abbrev pub relevant_change : Map String (Unit {0}) → Option (Bool × String) → Watched
relevant_change svcs none = (svcs, [])
relevant_change svcs (some (relevant, service)) =
    (svcs, if relevant then changed service ∷ [] else [])

unfoldable pub handle_delete : QueryServiceOptions → ParsedKey → Map String (Unit {0}) → Watched
unfolding relevant_to
handle_delete opts parsed_root svcs = ([], map gone (keys svcs))
handle_delete opts (parsed_service_root s) svcs = (GoMap.delete s svcs, gone s ∷ [])
handle_delete opts key svcs = relevant_change svcs (relevant_to key opts)

unfoldable pub handle_set : QueryServiceOptions → ParsedKey → Map String (Unit {0}) → Watched
unfolding relevant_to
handle_set opts (parsed_service s) svcs = (GoMap.insert s tt svcs, changed s ∷ [])
handle_set opts key svcs = relevant_change svcs (relevant_to key opts)

-- handleResponse of WatchServices.
unfoldable pub handle_response : QueryServiceOptions → Response → Map String (Unit {0}) → Watched
unfolding handle_delete handle_set
handle_response opts r svcs =
    if r.action == "delete"
    then handle_delete opts (parse_key r.key) svcs
    else if r.action == "set"
    then handle_set opts (parse_key r.key) svcs
    else (svcs, [])

-- The services that WatchServices knows when it begins to watch.
unfoldable pub watch_start : Node → Map String (Unit {0})
unfolding mark index_dir
watch_start n = mark (keys (index_dir (some n))) []

-- The loop of the goroutine.
unfoldable pub handle_responses :
    QueryServiceOptions → List Response → Map String (Unit {0}) → Watched
unfolding handle_response
handle_responses opts [] svcs = (svcs, [])
handle_responses opts (r ∷ rs) svcs =
    let (svcs', changes) = handle_response opts r svcs in
    let (last, later) = handle_responses opts rs svcs' in (last, changes ++ later)

-- handleResponse of WatchHosts: the hosts that are known, and the change that is sent, if one is.
-- `r.Node.Key[len(HOST_ROOT):]` is for a key below that root.
unfoldable pub handle_host_response :
    Response → Map String (Unit {0}) → Map String (Unit {0}) × Option HostChange
handle_host_response r hosts =
    let host_id = drop (count host_root) r.key in
    if r.action == "delete" || r.action == "expire"
    then (GoMap.delete host_id hosts, some (record { name = host_id; host_departed = true }))
    else if r.action == "set"
    then (GoMap.insert host_id tt hosts, some (record { name = host_id; host_departed = false }))
    else (hosts, none)
