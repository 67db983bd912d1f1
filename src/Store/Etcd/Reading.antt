-- ===== src/Store/Etcd/Reading.antt =====
-- About what GetService of the etcd store shows of a service's nodes.
use ambergreen.Common.{
  String, ◌≡◌, refl, sym, ap, ◌∙◌, Bool, true, false, Option, none, some, [], ◌∷◌, string_eq,
  if◌then◌else◌, arith, subst,
}
use ambergreen.GoMap
use ambergreen.GoMap.{Map, Unique, insert-Unique}
use ambergreen.Net.{IpPort, ip_port_eq}
use ambergreen.Store.Data.{ContainerRule, Instance, ServiceInfo, QueryServiceOptions}
use ambergreen.Store.InMemState.{Sessioned}
use ambergreen.Store.Etcd.Keys.{instance_path, detail_path, rule_path, ingress_instance_path}
use ambergreen.Store.Etcd.Client
use ambergreen.Store.Etcd.Client.{
  Node, Nodes, nil, cons, Answer, answered, failed, ◌>>=◌, Codec, Json, decoded,
}
use ambergreen.Store.Etcd.Nodes.{
  index_nodes, index_dir, base_name, Sessions, shown, read_instances, read_rules,
  read_ingress_instances, info_from_dir, service_info_from_node,
}

pub answered-injective {ℓ} : {A : Type ℓ} {a b : A} → answered a ≡ answered b → a ≡ b
answered-injective e = cc

>>=-eq-answered {κ ℓ} :
    {S : Type κ} {A : Type ℓ} (m : Answer S) (next : S → Answer A) {a : A}
    → (m >>= next) ≡ answered a
    → (s : S) × (m ≡ answered s) × (next s ≡ answered a)
>>=-eq-answered (answered s) next e = (s, refl, e)
>>=-eq-answered (failed err) next e = cc

decoded-eq {ℓ} : {A : Type ℓ} (o : Option A) {a : A} → decoded o ≡ answered a → o ≡ some a
decoded-eq none e = cc
decoded-eq (some b) e = cc e

index_nodes-Unique : (ns : Nodes) (res : Map String Node) → Unique res → Unique (index_nodes ns res)
unfolding index_nodes
index_nodes-Unique nil res u = u
index_nodes-Unique (cons n ns) res u =
    index_nodes-Unique ns _ (insert-Unique (base_name (Client.key n)) n res u)

index_dir-Unique : (o : Option Node) → Unique (index_dir o)
unfolding index_dir
index_dir-Unique none = tt
index_dir-Unique (some n) = index_nodes-Unique (Client.nodes n) [] tt

-- A value of a session, where the session is live.
abbrev pub while_live : {V : Type 0} → Sessions → Option (Sessioned V) → Option V
while_live live none = none
while_live live (some v) = if GoMap.has v.session live then some v.details else none

-- What a node holds.
abbrev pub held_in : {V : Type 0} → Json V → Option Node → Option V
held_in json none = none
held_in json (some n) = json.decode (Client.value n)

abbrev or_else {ℓ} : {A : Type ℓ} → Option A → Option A → Option A
or_else none other = other
or_else (some a) other = some a

or_else-none {ℓ} : {A : Type ℓ} (o : Option A) → or_else o none ≡ o
or_else-none none = refl
or_else-none (some a) = refl

module _ (codec : Codec) (parse_ip_port : String → Option IpPort) where
  read_instances-lookup :
      (live : Sessions) (dir : Map String Node) (acc insts : Map String Instance) (name : String)
      → Unique dir
      → read_instances codec parse_ip_port live dir acc ≡ answered insts
      → GoMap.lookup name insts
        ≡ or_else
            (while_live live (held_in codec.instance_ (GoMap.lookup name dir)))
            (GoMap.lookup name acc)
  unfolding read_instances GoMap.lookup GoMap.has
  read_instances-lookup live [] acc insts name u e =
      ap (GoMap.lookup name) (sym (answered-injective e))
  read_instances-lookup live ((j, n) ∷ dir) acc insts name u e =
      let (inst, read, rest) =
        >>=-eq-answered (decoded (codec.instance_.decode (Client.value n))) _ e in
      ground (
        arith,
        decoded-eq (codec.instance_.decode (Client.value n)) read,
        read_instances-lookup live dir (shown GoMap.insert live j inst acc) insts name u.1 rest,
        GoMap.lookup-insert j name inst.details acc,
        string_eq.beq_iff j name,
        u.0,
      )

  read_rules-lookup :
      (dir : Map String Node) (acc rules : Map String ContainerRule) (name : String)
      → Unique dir
      → read_rules codec parse_ip_port dir acc ≡ answered rules
      → GoMap.lookup name rules
        ≡ or_else (held_in codec.rule (GoMap.lookup name dir)) (GoMap.lookup name acc)
  unfolding read_rules GoMap.lookup GoMap.has
  read_rules-lookup [] acc rules name u e = ap (GoMap.lookup name) (sym (answered-injective e))
  read_rules-lookup ((j, n) ∷ dir) acc rules name u e =
      let (rule, read, rest) = >>=-eq-answered (decoded (codec.rule.decode (Client.value n))) _ e in
      ground (
        arith,
        decoded-eq (codec.rule.decode (Client.value n)) read,
        read_rules-lookup dir (GoMap.insert j rule acc) rules name u.1 rest,
        GoMap.lookup-insert j name rule acc,
        string_eq.beq_iff j name,
        u.0,
      )

  asked_instances :
      (asked : Bool) (live : Sessions) (dir : Map String Node) (insts : Map String Instance)
      (name : String)
      → Unique dir
      → (if asked then read_instances codec parse_ip_port live dir [] else answered [])
        ≡ answered insts
      → GoMap.lookup name insts ≡ (
          if asked then while_live live (held_in codec.instance_ (GoMap.lookup name dir)) else none)
  unfolding GoMap.lookup
  asked_instances true live dir insts name u e =
      read_instances-lookup live dir [] insts name u e ∙ or_else-none _
  asked_instances false live dir insts name u e =
      ap (GoMap.lookup name) (sym (answered-injective e))

  asked_rules :
      (asked : Bool) (dir : Map String Node) (rules : Map String ContainerRule) (name : String)
      → Unique dir
      → (if asked then read_rules codec parse_ip_port dir [] else answered []) ≡ answered rules
      → GoMap.lookup name rules
        ≡ (if asked then held_in codec.rule (GoMap.lookup name dir) else none)
  unfolding GoMap.lookup
  asked_rules true dir rules name u e = read_rules-lookup dir [] rules name u e ∙ or_else-none _
  asked_rules false dir rules name u e = ap (GoMap.lookup name) (sym (answered-injective e))

  -- What the nodes of a service hold: its details, and by name the instances of live sessions and
  -- the rules, as far as the options ask for them.
  pub record Reads (n : Node) (opts : QueryServiceOptions) (live : Sessions) (info : ServiceInfo)
      : Type 0 where
    pub service :
        held_in codec.service (GoMap.lookup detail_path (index_dir (some n))) ≡ some info.service
    pub instances :
        (name : String)
        → GoMap.lookup name info.instances ≡ (
            if opts.with_instances
            then while_live live (
                held_in codec.instance_
                  (GoMap.lookup name (index_dir (GoMap.lookup instance_path (index_dir (some n))))))
            else none)
    pub rules :
        (name : String)
        → GoMap.lookup name info.container_rules ≡ (
            if opts.with_container_rules
            then held_in codec.rule
                (GoMap.lookup name (index_dir (GoMap.lookup rule_path (index_dir (some n)))))
            else none)

  -- An answer of serviceInfoFromNode shows what the nodes of the service hold: the details, the rules,
  -- and exactly the instances whose session is live, each as the options ask.
  pub service_info_from_node-Reads :
      (n : Node) (opts : QueryServiceOptions) (live : Sessions) (info : ServiceInfo)
      → service_info_from_node codec parse_ip_port n opts live ≡ answered info
      → Reads n opts live info
  unfolding service_info_from_node info_from_dir
  service_info_from_node-Reads n opts live info e =
      from_details (GoMap.lookup detail_path (index_dir (some n))) refl e
    where
      entries_of : String → Map String Node
      entries_of path = index_dir (GoMap.lookup path (index_dir (some n)))

      from_details :
          (o : Option Node)
          → GoMap.lookup detail_path (index_dir (some n)) ≡ o
          → info_from_dir codec parse_ip_port (Client.key n) (index_dir (some n)) opts live o
            ≡ answered info
          → Reads n opts live info
      from_details none q r = absurd (ground (arith, r))
      from_details (some d) q r =
          let (svc, read, r₁) =
            >>=-eq-answered (decoded (codec.service.decode (Client.value d))) _ r in
          let (insts, got_insts, r₂) =
            >>=-eq-answered
              (if opts.with_instances
                then read_instances codec parse_ip_port live (entries_of instance_path) []
                else answered [])
              _ r₁ in
          let (rules, got_rules, r₃) =
            >>=-eq-answered
              (if opts.with_container_rules
                then read_rules codec parse_ip_port (entries_of rule_path) []
                else answered [])
              _ r₂ in
          let (ingress, got_ingress, last) =
            >>=-eq-answered
              (if opts.with_ingress_instances
                then read_ingress_instances codec parse_ip_port live
                    (entries_of ingress_instance_path) []
                else answered [])
              _ r₃ in
          subst (Reads n opts live) (answered-injective last) (record {
            service =
                ap (held_in codec.service) q
                ∙ decoded-eq (codec.service.decode (Client.value d)) read;
            instances = λ name.
                asked_instances opts.with_instances live (entries_of instance_path) insts name
                  (index_dir-Unique (GoMap.lookup instance_path (index_dir (some n)))) got_insts;
            rules = λ name.
                asked_rules opts.with_container_rules (entries_of rule_path) rules name
                  (index_dir-Unique (GoMap.lookup rule_path (index_dir (some n)))) got_rules;
          })
