-- ===== src/Agent/Container.antt =====
-- agent/sync_instances.go, lines 248-405: what is read from a container.
use Prim.Native.String.{◌++◌ as append}
use ambergreen.Common.{
  ℕ, String, Bool, false, ◌||◌, Option, none, some, List, [], ◌∷◌, Run, ok, panic, ◌>>=◌, ◌==◌,
  nat_eq, string_eq, if◌then◌else◌,
}
use ambergreen.GoMap
use ambergreen.GoMap.{Map}
use ambergreen.GoStrings.{split, split_2, cut_last, cut_prefix}
use ambergreen.Net.{Ip, IpPort, new_ip_port, Platform}
use ambergreen.Store.Data.{ContainerRule, Service, Instance, Labeled, text_at, rule_includes}

pub record PortBinding : Type 0 where
  pub host_ip : String
  pub host_port : String

-- The fields of a docker.Container that the program reads.
pub record Container : Type 0 where
  pub id : String
  pub image : String
  pub labels : Map String String
  pub env : List String
  pub network_mode : String
  pub ports : Map String (List PortBinding)
  pub ip_address : String

-- The part of syncInstancesConfig that is no channel, and the platform.
pub record SyncConfig : Type 0 where
  pub platform : Platform
  pub host_ip : Ip
  pub network : String

abbrev pub global_network : String
global_network = "global"

abbrev pub local_network : String
local_network = "local"

unfoldable pub image_tag : String → String
image_tag image = elim (cut_last b':' image) [ none ↦ "latest" | some (name, tag) ↦ tag ]

unfoldable pub image_name : String → String
image_name image = elim (cut_last b':' image) [ none ↦ image | some (name, tag) ↦ name ]

-- `keyval[0] == key` decides; `keyval[1]` panics where the entry has no `=`.
env_entry : String → List String → Run String → Run String
env_entry key [] rest = panic
env_entry key (name ∷ []) rest = if name == key then panic else rest
env_entry key (name ∷ value ∷ more) rest = if name == key then ok value else rest

unfoldable pub env_value : List String → String → Run String
unfolding env_entry
env_value [] key = ok ""
env_value (entry ∷ env) key = env_entry key (split b'=' entry) (env_value env key)

-- containerLabels.Label
unfoldable pub container_label : Container → Labeled
container_label c label =
    if label == "image"
    then ok (image_name c.image)
    else if label == "tag"
    then ok (image_tag c.image)
    else elim (cut_prefix "env." label) [
      | none ↦ ok (text_at label c.labels)
      | some key ↦ if key == "" then ok (text_at label c.labels) else env_value c.env key
    ]

-- The loop over Env: `kv[1]` panics where the entry has no `=`.
unfoldable pub env_labels : List String → Map String String → Run (Map String String)
env_labels [] labels = ok labels
env_labels (v ∷ env) labels = elim (split_2 b'=' v) [
  | [] ↦ panic
  | name ∷ values ↦ elim values [
    | [] ↦ panic
    | value ∷ more ↦ env_labels env (GoMap.insert (append "env." name) value labels)
  ]
]

unfoldable pub copy_labels : Map String String → Map String String → Map String String
copy_labels [] labels = labels
copy_labels ((k, v) ∷ from) labels = copy_labels from (GoMap.insert k v labels)

module _ (cf : SyncConfig) where
  -- The `switch` on a binding's HostIP: false for `continue`.
  unfoldable pub binding_matches : PortBinding → Bool
  binding_matches b =
      b.host_ip == "" || b.host_ip == "0.0.0.0" || (elim (cf.platform.parse_ip b.host_ip) [
        | none ↦ false
        | some ip ↦ cf.platform.ip_equal ip cf.host_ip
      ])

  unfoldable pub bindings_address : List PortBinding → Option IpPort
  bindings_address [] = none
  bindings_address (b ∷ bindings) =
      let rest = bindings_address bindings in
      let here : Option IpPort = elim (cf.platform.atoi b.host_port) [
        | none ↦ none
        | some port ↦ some (new_ip_port cf.host_ip port)
      ] in
      if binding_matches b then here else rest

  unfoldable pub mapped_port_address : Container → ℕ → Option IpPort
  mapped_port_address c port = elim (GoMap.lookup (cf.platform.tcp_port port) c.ports) [
    | none ↦ none
    | some bindings ↦ bindings_address bindings
  ]

  unfoldable pub fixed_port_address : Container → ℕ → Option IpPort
  fixed_port_address c port = elim (cf.platform.parse_ip c.ip_address) [
    | none ↦ none
    | some ip ↦ some (new_ip_port ip port)
  ]

  unfoldable pub extract_address : Container → Service → ContainerRule → Option IpPort
  extract_address c svc rule =
      let port = if nat_eq rule.instance_port 0 then svc.instance_port else rule.instance_port in
      if nat_eq port 0
      then none
      else if c.network_mode == "host"
      then some (new_ip_port cf.host_ip port)
      else if cf.network == local_network
      then mapped_port_address c port
      else if cf.network == global_network
      then fixed_port_address c port
      else none

  unfoldable pub extract_instance : Container → Service → ContainerRule → Run (Option Instance)
  extract_instance c svc rule = rule_includes rule (container_label c) >>= λ included.
      if included
      then (env_labels c.env (
            copy_labels c.labels (
              GoMap.insert "image" (image_name c.image)
                (GoMap.insert "tag" (image_tag c.image) [])))
          >>= λ labels. ok (
              some (record {
                host = record { ip = cf.host_ip };
                container_rule = "";
                address = extract_address c svc rule;
                labels = labels;
              })))
      else ok none
