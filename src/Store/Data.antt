-- ===== src/Store/Data.antt =====
-- common/store/data.go, the options of store.go and the update of watch.go.
use ambergreen.Common.{
  ℕ, String, Bool, true, false, Option, none, some, [], ◌∷◌, Run, ok, ◌>>=◌, ◌==◌, string_eq,
  if◌then◌else◌,
}
use ambergreen.GoMap
use ambergreen.GoMap.{Map}
use ambergreen.Net.{Ip, IpPort, Platform}

abbrev pub Selector : Type 0
Selector = Map String String

-- `sel.Empty()`
unfoldable pub empty : Selector → Bool
empty [] = true
empty (e ∷ sel) = false

pub record Host : Type 0 where
  pub ip : Ip

pub record HostChange : Type 0 where
  pub name : String
  pub host_departed : Bool

pub record ContainerRule : Type 0 where
  pub selector : Selector
  pub instance_port : ℕ

pub record Service : Type 0 where
  pub address : Option IpPort
  pub instance_port : ℕ
  pub protocol : String

pub record Instance : Type 0 where
  pub host : Host
  pub container_rule : String
  pub address : Option IpPort
  pub labels : Map String String

pub record IngressInstance : Type 0 where
  pub weight : ℕ

-- The embedded Service is a field of its own; a nil map has no entries.
pub record ServiceInfo : Type 0 where
  pub service : Service
  pub instances : Map String Instance
  pub container_rules : Map String ContainerRule
  pub ingress_instances : Map IpPort IngressInstance

pub record ServiceChange : Type 0 where
  pub name : String
  pub service_deleted : Bool

pub record QueryServiceOptions : Type 0 where
  pub with_instances : Bool
  pub with_container_rules : Bool
  pub with_ingress_instances : Bool

-- A service that has gone is a key with `none`.
pub record ServiceUpdate : Type 0 where
  pub services : Map String (Option ServiceInfo)
  pub reset : Bool

-- The interface Labeled is its one method, which may panic for a container.
abbrev pub Labeled : Type 0
Labeled = String → Run String

-- `m[k]` for a map of texts: the empty text for a missing key.
abbrev pub text_at : String → Map String String → String
text_at k m = elim (GoMap.lookup k m) [ none ↦ "" | some v ↦ v ]

abbrev pub host_label : String
host_label = "host"

abbrev pub state_label : String
state_label = "state"

abbrev pub rule_label : String
rule_label = "rule"

unfoldable pub label : Platform → Instance → String → String
label p inst k =
    if k == host_label
    then p.ip_string inst.host.ip
    else if k == state_label
    then elim inst.address [ none ↦ "no address" | some a ↦ "live" ]
    else if k == rule_label
    then inst.container_rule
    else text_at k inst.labels

-- Selector.Includes: the first label that differs ends the loop.
unfoldable pub includes : Selector → Labeled → Run Bool
includes [] s = ok true
includes ((label, value) ∷ sel) s =
    let rest = includes sel s in s label >>= λ v. if v == value then rest else ok false

-- ContainerRule.Includes
unfoldable pub rule_includes : ContainerRule → Labeled → Run Bool
unfolding includes
rule_includes spec s = includes spec.selector s
