-- ===== src/Store/Etcd/Collection/OnlyDead.antt =====
-- About what the collection deletes.
use ambergreen.Common.{
  ℕ, String, ◌≡◌, refl, true, false, ◌||◌, Option, none, some, ◌==◌, string_eq, if◌then◌else◌,
  arith, inl, inr, Bool-cases, ◌⊎◌,
}
use ambergreen.GoMap
use ambergreen.Net.{IpPort}
use ambergreen.Store.Etcd.Keys.{service_root, host_root, instance_path, ingress_instance_path}
use ambergreen.Store.Etcd.Client
use ambergreen.Store.Etcd.Client.{
  Node, Nodes, nil, cons, Error, Answer, answered, failed, Etcd, Codec,
}
use ambergreen.Store.Etcd.Nodes.{index_dir, get_dir_node, live_sessions, Sessions}
use ambergreen.Store.Etcd.Collection.{
  cull_session_values, cull_dir, and_then, cull_services, do_collection,
}

-- The node's value belongs to a session, and the session is not live.
pub record Dead (codec : Codec) (live : Sessions) (n : Node) : Type 0 where
  pub session : String
  pub decodes : codec.session_value.decode (Client.value n) ≡ some session
  pub is_session : (session == "") ≡ false
  pub ended : GoMap.has session live ≡ false

-- The node is one of the list.
abbrev pub In : Node → Nodes → Type 0
In n nil = ⊥
In n (cons m ns) = (n ≡ m) ⊎ In n ns

-- The node is under the directory.
abbrev pub Under : Node → Option Node → Type 0
Under n none = ⊥
Under n (some d) = In n (Client.nodes d)

-- The node is an instance of a service of the list, or a place where one listens.
abbrev pub InServices : Node → Nodes → Type 0
InServices n nil = ⊥
InServices n (cons s ns) =
    (Under n (GoMap.lookup instance_path (index_dir (some s)))
      ⊎ Under n (GoMap.lookup ingress_instance_path (index_dir (some s))))
    ⊎ InServices n ns

module _ {W : Type 0} (etcd : Etcd W) (codec : Codec) (parse_ip_port : String → Option IpPort)
    (P : W → Type 0) (live : Sessions) where
  -- The deletion of a dead node of the kind keeps P.
  abbrev pub Keeps : (Node → Type 0) → Type 0
  Keeps Kind =
      (n : Node) (w : W)
      → Kind n
      → Dead codec live n
      → P w
      → P (etcd.delete_at (Client.key n) (Client.modified_index n) w).0

  cull-keeps :
      (ns : Nodes) (w : W)
      → Keeps (λ n. In n ns)
      → P w
      → P (cull_session_values etcd codec parse_ip_port ns live w).0
  unfolding cull_session_values
  cull-keeps nil w keep p = p
  cull-keeps (cons n ns) w keep p =
      by_session (codec.session_value.decode (Client.value n)) refl
        (λ u. cull-keeps ns u (λ m v i. keep m v (inr i)))
    where
      by_session :
          (o : Option String)
          → codec.session_value.decode (Client.value n) ≡ o
          → ((u : W) → P u → P (cull_session_values etcd codec parse_ip_port ns live u).0)
          → P
              (elim o as (λ _. W × Option Error) [
                | none ↦ (w, some Client.bad_json)
                | some session ↦ cull_session_values etcd codec parse_ip_port ns live (
                    if session == "" || GoMap.has session live
                    then w
                    else (etcd.delete_at (Client.key n) (Client.modified_index n) w).0)
              ]).0
      by_session none q rest = p
      by_session (some session) q rest =
          elim (Bool-cases (session == "" || GoMap.has session live)) [
            | inl kept ↦ rw kept (rest w p)
            | inr gone ↦ rw gone (
                rest _ (
                  keep n w (inl refl)
                    (record {
                      session = session;
                      decodes = q;
                      is_session = ground (arith, gone);
                      ended = ground (arith, gone);
                    })
                    p))
          ]

  cull_dir-keeps :
      (o : Option Node) (w : W)
      → Keeps (λ n. Under n o)
      → P w
      → P (cull_dir etcd codec parse_ip_port o live w).0
  cull_dir-keeps none w keep p = p
  cull_dir-keeps (some n) w keep p = cull-keeps (Client.nodes n) w keep p

  and_then-keeps :
      (first : W × Option Error) (next : W → W × Option Error)
      → P first.0
      → ((w : W) → P w → P (next w).0)
      → P (and_then etcd codec parse_ip_port first next).0
  and_then-keeps (w, none) next p q = q w p
  and_then-keeps (w, some err) next p q = p

  cull_services-keeps :
      (ns : Nodes) (w : W)
      → Keeps (λ n. InServices n ns)
      → P w
      → P (cull_services etcd codec parse_ip_port ns live w).0
  unfolding cull_services
  cull_services-keeps nil w keep p = p
  cull_services-keeps (cons n ns) w keep p =
      let svc_dir = index_dir (some n) in
      let insts = GoMap.lookup instance_path svc_dir in
      let ingress = GoMap.lookup ingress_instance_path svc_dir in
      let first = cull_dir etcd codec parse_ip_port insts live w in
      let second = cull_dir etcd codec parse_ip_port ingress live in
      and_then-keeps (and_then etcd codec parse_ip_port first second)
        (cull_services etcd codec parse_ip_port ns live)
        (and_then-keeps first second (cull_dir-keeps insts w (λ m v i. keep m v (inl (inl i))) p)
          (λ u. cull_dir-keeps ingress u (λ m v i. keep m v (inl (inr i)))))
        (λ u. cull_services-keeps ns u (λ m v i. keep m v (inr i)))

  -- A collection deletes only hosts, instances and places where one listens, of those that it fetched,
  -- whose session is not among the live ones that it fetched: whatever holds of etcd, and is kept by
  -- each deletion of such a node, holds after the collection, also where it ends early.
  pub do_collection-keeps :
      (w : W) (host_dir service_dir : Node) (i j : ℕ)
      → get_dir_node codec parse_ip_port etcd host_root true true w ≡ answered (host_dir, i)
      → get_dir_node codec parse_ip_port etcd service_root true true w ≡ answered (service_dir, j)
      → live_sessions codec parse_ip_port etcd w ≡ answered live
      → Keeps (λ n. In n (Client.nodes host_dir) ⊎ InServices n (Client.nodes service_dir))
      → P w
      → P (do_collection etcd codec parse_ip_port w).0
  unfolding do_collection
  do_collection-keeps w host_dir service_dir i j hosts services alive keep p =
      let first = cull_session_values etcd codec parse_ip_port (Client.nodes host_dir) live w in
      let next = cull_services etcd codec parse_ip_port (Client.nodes service_dir) live in
      rw (hosts, services, alive, do_collection)
        (and_then-keeps first next
          (cull-keeps (Client.nodes host_dir) w (λ m v k. keep m v (inl k)) p)
          (λ u. cull_services-keeps (Client.nodes service_dir) u (λ m v k. keep m v (inr k))))
