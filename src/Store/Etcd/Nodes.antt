-- ===== src/Store/Etcd/Nodes.antt =====
-- common/store/etcdstore/etcdstore.go: what is read from the nodes of etcd.
use ambergreen.Common.{
  ℕ, String, Bool, true, false, ◌||◌, Option, none, some, List, [], ◌∷◌, string_eq, if◌then◌else◌,
}
use ambergreen.GoMap
use ambergreen.GoMap.{Map, keys}
use ambergreen.GoStrings.{cut_last}
use ambergreen.Net.{IpPort, ip_port_eq}
use ambergreen.Store.Data.{
  ContainerRule, Instance, IngressInstance, ServiceInfo, Host, QueryServiceOptions,
}
use ambergreen.Store.InMemState.{Sessioned}
use ambergreen.Store.Etcd.Keys.{
  service_root, host_root, session_root, instance_path, detail_path, rule_path,
  ingress_instance_path, service_root_key,
}
use ambergreen.Store.Etcd.Client
use ambergreen.Store.Etcd.Client.{
  Node, Nodes, node, nil, cons, key_not_found, Error, etcd_error, expected_dir, missing_details,
  bad_address, Answer, answered, failed, ◌>>=◌, Fetched, fetched, refused, Etcd, Codec, decoded,
}

-- The part of a key behind its last slash.
unfoldable pub base_name : String → String
base_name key = elim (cut_last b'/' key) [ none ↦ key | some (path, name) ↦ name ]

-- The loop of indexDir.
unfoldable pub index_nodes : Nodes → Map String Node → Map String Node
unfolding base_name
index_nodes nil res = res
index_nodes (cons n ns) res = index_nodes ns (GoMap.insert (base_name (Client.key n)) n res)

-- indexDir; `none` is a nil node.
unfoldable pub index_dir : Option Node → Map String Node
unfolding index_nodes
index_dir none = []
index_dir (some n) = index_nodes (Client.nodes n) []

-- The live sessions are the keys of a map.
abbrev pub Sessions : Type 0
Sessions = Map String (Unit {0})

-- A loop `set[name] = struct{}{}`.
unfoldable pub mark : List String → Map String (Unit {0}) → Map String (Unit {0})
mark [] set = set
mark (name ∷ names) set = mark names (GoMap.insert name tt set)

-- `&etcd.Node{}`
abbrev pub no_node : Node
no_node = node "" "" false 0 nil

-- The reply to a Get, as getDirNode takes it.
unfoldable pub dir_node : String → Bool → Fetched → Answer (Node × ℕ)
dir_node key missing_ok (refused (key_not_found index)) =
    if missing_ok then answered (no_node, index) else failed (etcd_error (key_not_found index))
dir_node key missing_ok (refused err) = failed (etcd_error err)
dir_node key missing_ok (fetched n index) =
    if Client.dir n then answered (n, index) else failed (expected_dir key)

-- A value that is shown only while its session is live.
abbrev pub shown {ℓ} :
    {K : Type ℓ} {V : Type 0}
    → (K → V → Map K V → Map K V)
    → Sessions
    → K
    → Sessioned V
    → Map K V
    → Map K V
shown put live name v m = if GoMap.has v.session live then put name v.details m else m

module _ (codec : Codec) (parse_ip_port : String → Option IpPort) where
  unfoldable pub read_instances :
      Sessions → Map String Node → Map String Instance → Answer (Map String Instance)
  read_instances live [] insts = answered insts
  read_instances live ((name, n) ∷ dir) insts =
      decoded (codec.instance_.decode (Client.value n)) >>= λ inst.
      read_instances live dir (shown GoMap.insert live name inst insts)

  unfoldable pub read_rules :
      Map String Node → Map String ContainerRule → Answer (Map String ContainerRule)
  read_rules [] rules = answered rules
  read_rules ((name, n) ∷ dir) rules = decoded (codec.rule.decode (Client.value n)) >>= λ rule.
      read_rules dir (GoMap.insert name rule rules)

  abbrev pub parsed_address : String → Answer IpPort
  parsed_address text = elim (parse_ip_port text) [
    | none ↦ failed (bad_address text)
    | some addr ↦ answered addr
  ]

  unfoldable pub read_ingress_instances :
      Sessions → Map String Node → Map IpPort IngressInstance → Answer (Map IpPort IngressInstance)
  read_ingress_instances live [] insts = answered insts
  read_ingress_instances live ((text, n) ∷ dir) insts = parsed_address text >>= λ addr.
      decoded (codec.ingress_instance.decode (Client.value n)) >>= λ inst.
      read_ingress_instances live dir (shown GoMap.insert live addr inst insts)

  -- serviceInfoFromNode, given the node of the service's own details.
  unfoldable pub info_from_dir :
      String → Map String Node → QueryServiceOptions → Sessions → Option Node → Answer ServiceInfo
  unfolding read_instances read_rules read_ingress_instances index_dir
  info_from_dir key dir opts live none = failed (missing_details key)
  info_from_dir key dir opts live (some details) =
      decoded (codec.service.decode (Client.value details)) >>= λ svc.
      (if opts.with_instances
        then read_instances live (index_dir (GoMap.lookup instance_path dir)) []
        else answered [])
      >>= λ insts.
          (if opts.with_container_rules
            then read_rules (index_dir (GoMap.lookup rule_path dir)) []
            else answered [])
          >>= λ rules.
              (if opts.with_ingress_instances
                then read_ingress_instances live
                    (index_dir (GoMap.lookup ingress_instance_path dir)) []
                else answered [])
              >>= λ ingress. answered (record {
                service = svc;
                instances = insts;
                container_rules = rules;
                ingress_instances = ingress;
              })

  unfoldable pub service_info_from_node : Node → QueryServiceOptions → Sessions → Answer ServiceInfo
  unfolding info_from_dir index_dir
  service_info_from_node n opts live =
      let dir = index_dir (some n) in
      info_from_dir (Client.key n) dir opts live (GoMap.lookup detail_path dir)

  -- The loop of GetAllServices.
  unfoldable pub infos_from_dir :
      Map String Node
      → QueryServiceOptions
      → Sessions
      → Map String ServiceInfo
      → Answer (Map String ServiceInfo)
  unfolding service_info_from_node
  infos_from_dir [] opts live svcs = answered svcs
  infos_from_dir ((name, n) ∷ dir) opts live svcs = elim (Client.dir n) [
    | false ↦ infos_from_dir dir opts live svcs
    | true ↦ service_info_from_node n opts live >>= λ svc.
        infos_from_dir dir opts live (GoMap.insert name svc svcs)
  ]

  -- The loop of GetHosts.
  unfoldable pub hosts_from_nodes : Nodes → Sessions → Answer (List Host)
  hosts_from_nodes nil live = answered []
  hosts_from_nodes (cons n ns) live = decoded (codec.host.decode (Client.value n)) >>= λ host.
      hosts_from_nodes ns live >>= λ hosts.
      answered (if GoMap.has host.session live then host.details ∷ hosts else hosts)

  module _ {W : Type 0} (etcd : Etcd W) where
    unfoldable pub get_dir_node : String → Bool → Bool → W → Answer (Node × ℕ)
    unfolding dir_node
    get_dir_node key missing_ok recursive w = dir_node key missing_ok (etcd.get key recursive w)

    -- The names of the nodes under the sessions' root.
    unfoldable pub live_sessions : W → Answer Sessions
    unfolding get_dir_node index_dir
    live_sessions w = get_dir_node session_root true false w >>= λ (n, index).
        answered (mark (keys (index_dir (some n))) [])

    unfoldable pub get_service : String → QueryServiceOptions → W → Answer ServiceInfo
    unfolding live_sessions get_dir_node service_info_from_node
    get_service service_name opts w = live_sessions w >>= λ live.
        get_dir_node (service_root_key service_name) false
          (opts.with_instances || opts.with_container_rules || opts.with_ingress_instances) w
        >>= λ (n, index). service_info_from_node n opts live

    unfoldable pub get_all_services : QueryServiceOptions → W → Answer (Map String ServiceInfo)
    unfolding live_sessions get_dir_node infos_from_dir
    get_all_services opts w = live_sessions w >>= λ live.
        get_dir_node service_root true true w >>= λ (n, index).
        infos_from_dir (index_dir (some n)) opts live []

    unfoldable pub get_hosts : W → Answer (List Host)
    unfolding live_sessions get_dir_node hosts_from_nodes
    get_hosts w = live_sessions w >>= λ live.
        get_dir_node host_root true false w >>= λ (n, index). hosts_from_nodes (Client.nodes n) live
