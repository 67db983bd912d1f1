-- ===== src/Store/Etcd/Tests.antt =====
-- Runs of the store on etcd, with the service web.
use ambergreen.Common.{
  String, ◌≡◌, refl, sym, ap, ◌∙◌, subst, true, false, Option, none, some, List, [], ◌∷◌, ◌++◌,
  ◌==◌, string_eq, if◌then◌else◌, inl, inr, ◌⊎◌,
}
use ambergreen.GoMap
use ambergreen.GoMap.{contains}
use ambergreen.GoStrings.{has_char, cut_last}
use ambergreen.Net.{IpPort}
use ambergreen.Store.Data.{Service, Instance, ServiceInfo, QueryServiceOptions}
use ambergreen.Store.InMemState.{
  InMem, new_in_mem, service_watcher, service_notice, fire_service_change, service_notices,
}
use ambergreen.Store.Etcd.Requests
use ambergreen.Store.InMem
use ambergreen.Store.InMem.Calls
use ambergreen.Store.Etcd.Keys.{
  instance_entry, key_of, parsed_of, parse_key, host_root, service_root, session_root,
}
use ambergreen.Store.Etcd.KeyRoundTrip.{parse_key-key_of}
use ambergreen.Store.Etcd.Client
use ambergreen.Store.Etcd.Client.{
  Node, Nodes, node, nil, cons, Answer, answered, Etcd, EtcdError, etcd_error, key_not_found,
  refused, Codec, fetched, Fetched,
}
use ambergreen.Store.Etcd.Nodes.{
  base_name, index_nodes, index_dir, mark, Sessions, dir_node, get_dir_node, live_sessions,
  service_info_from_node, info_from_dir, read_instances, read_rules, read_ingress_instances,
}
use ambergreen.Store.Etcd.Watch.{Response, handle_delete, handle_response, handle_responses}
use ambergreen.Store.Etcd.Watch.Forgotten.{reports, handle_responses-reports}
use ambergreen.Store.Etcd.Collection.{do_collection}
use ambergreen.Store.Etcd.Collection.OnlyDead.{Dead, In, InServices, Keeps, do_collection-keeps}
use ambergreen.Store.Etcd.Agreement.{did, requested}
use ambergreen.Store.Etcd.Reading.{Reads, service_info_from_node-Reads}

abbrev web : Service
web = record { address = none; instance_port = 80; protocol = "http" }

abbrev web_instance : Instance
web_instance = record {
  host = record { ip = "10.0.0.1" };
  container_rule = "default";
  address = none;
  labels = [];
}

abbrev everything : QueryServiceOptions
everything = record {
  with_instances = true;
  with_container_rules = true;
  with_ingress_instances = true;
}

-- The text of a value is its session.
abbrev by_session : Codec
by_session = record {
  service = record { encode = λ v. some "web"; decode = λ t. some web };
  rule = record {
    encode = λ v. some "rule";
    decode = λ t. some (record { selector = []; instance_port = 80 });
  };
  instance_ = record {
    encode = λ v. some v.session;
    decode = λ t. some (record { details = web_instance; session = t });
  };
  ingress_instance = record {
    encode = λ v. some v.session;
    decode = λ t. some (record { details = record { weight = 1 }; session = t });
  };
  host = record {
    encode = λ v. some v.session;
    decode = λ t. some (record { details = record { ip = "10.0.0.1" }; session = t });
  };
  session_value = record { encode = λ t. some t; decode = λ t. some t };
}

abbrev no_address : String → Option IpPort
no_address t = none

abbrev fixed_address : IpPort → String
fixed_address a = "10.0.0.1:80"

web_plain : has_char b'/' "web" ≡ false
unfolding has_char
web_plain = refl

c1_plain : has_char b'/' "c1" ≡ false
unfolding has_char
c1_plain = refl

parse_key-key_of_example :
    parse_key (key_of (instance_entry "web" "c1")) ≡ parsed_of (instance_entry "web" "c1")
parse_key-key_of_example = parse_key-key_of (instance_entry "web" "c1") (web_plain, c1_plain)

abbrev web_known : Sessions
web_known = ("web", tt) ∷ []

abbrev web_deleted : List Response
web_deleted = did "delete" "/weave-flux/service/web" ∷ []

known : GoMap.has "web" web_known ≡ true
unfolding GoMap.has GoMap.lookup
known = refl

forgotten : GoMap.has "web" (handle_responses everything web_deleted web_known).0 ≡ false
unfolding GoMap.has GoMap.lookup GoMap.delete handle_responses handle_response handle_delete
    parse_key
forgotten = refl

handle_responses-reports_example :
    reports "web" (handle_responses everything web_deleted web_known).1 ≡ true
handle_responses-reports_example =
    handle_responses-reports everything "web" web_deleted web_known known forgotten

abbrev watched : InMem
watched = record new_in_mem { watchers = service_watcher 7 everything ∷ [] }

-- An etcd that holds keys, and what it has sent to those who watch it; it does not delete a key that is not
-- there.
abbrev Journal : Type 0
Journal = List String × List Response

abbrev put_key : String → Journal → Journal × Option EtcdError
put_key key (ks, rs) = ((key ∷ ks, rs ++ did "set" key ∷ []), none)

abbrev cut_key : String → Journal → Journal × Option EtcdError
cut_key key (ks, rs) =
    if contains key ks
    then ((ks, rs ++ did "delete" key ∷ []), none)
    else ((ks, rs), some (key_not_found 0))

abbrev journal : Etcd Journal
journal = record {
  get = λ key recursive x. refused (key_not_found 0);
  set = λ key text x. put_key key x;
  set_ttl = λ key text ttl x. put_key key x;
  delete = λ key recursive x. cut_key key x;
  delete_at = λ key index x. cut_key key x;
}

-- The removal of a service that is not there, in both stores.
removes_missing :
    (requested by_session fixed_address journal (Calls.remove_service "web") ([], [])
      ≡ (([], []), some (etcd_error (key_not_found 0))))
    × ((InMem.remove_service "web" watched).0.sent
        ≡ service_notice 7 (record { name = "web"; service_deleted = true }) ∷ [])
unfolding requested Requests.remove_service Requests.delete_recursive contains InMem.remove_service
    fire_service_change service_notices
removes_missing = (refl, refl)

abbrev leaf : String → String → Node
leaf key text = node key text false 1 nil

abbrev web_node : Node
web_node = node "/weave-flux/service/web" "" true 1 (
    cons (leaf "/weave-flux/service/web/spec" "web") (
      cons
        (node "/weave-flux/service/web/instances" "" true 1 (
          cons (leaf "/weave-flux/service/web/instances/c1" "s1")
            (cons (leaf "/weave-flux/service/web/instances/c2" "s2") nil)))
        nil))

abbrev s1_live : Sessions
s1_live = ("s1", tt) ∷ []

abbrev web_info : ServiceInfo
web_info = record {
  service = web;
  instances = ("c1", web_instance) ∷ [];
  container_rules = [];
  ingress_instances = [];
}

reads : service_info_from_node by_session no_address web_node everything s1_live ≡ answered web_info
unfolding service_info_from_node info_from_dir index_dir index_nodes base_name cut_last GoMap.insert
    GoMap.lookup GoMap.has read_instances read_rules read_ingress_instances
reads = refl

service_info_from_node-Reads_example :
    Reads by_session no_address web_node everything s1_live web_info
service_info_from_node-Reads_example =
    service_info_from_node-Reads by_session no_address web_node everything s1_live web_info reads

abbrev hosts_node : Node
hosts_node =
    node "/weave-flux/host/" "" true 1
      (cons (leaf "/weave-flux/host/a" "s1") (cons (leaf "/weave-flux/host/b" "s2") nil))

abbrev empty_dir : Node
empty_dir = node "/weave-flux/service/" "" true 1 nil

abbrev sessions_node : Node
sessions_node =
    node "/weave-flux/session/" "" true 1 (cons (leaf "/weave-flux/session/s1" "s1") nil)

-- An etcd whose state is the keys that were deleted, with two hosts, of which one has a session.
abbrev two_hosts : Etcd (List String)
two_hosts = record {
  get = λ key recursive w.
      if key == host_root
      then fetched hosts_node 1
      else if key == session_root
      then fetched sessions_node 1
      else fetched empty_dir 1;
  set = λ key text w. (w, none);
  set_ttl = λ key text ttl w. (w, none);
  delete = λ key recursive w. (key ∷ w, none);
  delete_at = λ key index w. (key ∷ w, none);
}

-- The host with a session was not deleted.
abbrev IsSpared : List String → Type 0
IsSpared w = GoMap.contains "/weave-flux/host/a" w ≡ false

sessions : live_sessions by_session no_address two_hosts [] ≡ answered s1_live
unfolding live_sessions get_dir_node dir_node index_dir index_nodes base_name cut_last mark
    GoMap.insert
sessions = refl

hosts_fetched :
    get_dir_node by_session no_address two_hosts host_root true true [] ≡ answered (hosts_node, 1)
unfolding get_dir_node dir_node
hosts_fetched = refl

services_fetched :
    get_dir_node by_session no_address two_hosts service_root true true [] ≡ answered (empty_dir, 1)
unfolding get_dir_node dir_node
services_fetched = refl

nothing_yet : IsSpared []
unfolding GoMap.contains
nothing_yet = refl

other_host :
    (n : Node) (w : List String)
    → n ≡ leaf "/weave-flux/host/b" "s2"
    → IsSpared w
    → IsSpared (Client.key n ∷ w)
unfolding GoMap.contains
other_host n w e p = rw e p

live_host : (n : Node) → n ≡ leaf "/weave-flux/host/a" "s1" → Dead by_session s1_live n → ⊥
unfolding GoMap.has GoMap.lookup
live_host n e d =
    let is_s1 : some "s1" ≡ some d.session = sym (ap (λ m. some (Client.value m)) e) ∙ d.decodes in
    let same : "s1" ≡ d.session = cc in
    let ended : GoMap.has "s1" s1_live ≡ false =
      subst (λ t. GoMap.has t s1_live ≡ false) (sym same) d.ended in
    cc

spares :
    Keeps two_hosts by_session no_address IsSpared s1_live
      (λ n. In n (Client.nodes hosts_node) ⊎ InServices n (Client.nodes empty_dir))
spares n w (inl (inl first)) d p = absurd (live_host n first d)
spares n w (inl (inr (inl second))) d p = other_host n w second p
spares n w (inl (inr (inr i))) d p = absurd i
spares n w (inr i) d p = absurd i

do_collection-keeps_example : IsSpared (do_collection two_hosts by_session no_address []).0
do_collection-keeps_example =
    do_collection-keeps two_hosts by_session no_address IsSpared s1_live [] hosts_node empty_dir 1 1
      hosts_fetched services_fetched sessions spares nothing_yet
