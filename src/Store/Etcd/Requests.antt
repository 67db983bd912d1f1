-- ===== src/Store/Etcd/Requests.antt =====
-- common/store/etcdstore/etcdstore.go: the methods that write. The store's own state is its session,
-- which its first heartbeat makes.
use ambergreen.Common.{ℕ, String, true, false, Option, none, some}
use ambergreen.Net.{IpPort}
use ambergreen.Store.Data.{ContainerRule, Service, Instance, IngressInstance, Host}
use ambergreen.Store.Etcd.Keys.{
  service_root, service_root_key, service_key, rule_key, instance_key, ingress_instance_key,
  host_key, session_key,
}
use ambergreen.Store.Etcd.Client.{
  EtcdError, Error, etcd_error, bad_json, fetched, refused, Etcd, Json, Codec,
}

abbrev pub Written : Type 0 → Type 0
Written W = W × Option Error

abbrev pub written : {W : Type 0} → W × Option EtcdError → Written W
written (w, none) = (w, none)
written (w, some err) = (w, some (etcd_error err))

-- What waits for the session: `none` while `sessionReady` is open.
abbrev pub Waiting : Type 0 → Type 0
Waiting W = Option (Written W)

module _ {W : Type 0} (etcd : Etcd W) (codec : Codec) (address : IpPort → String) where
  -- json.Marshal, and Set with what it gives.
  unfoldable pub set_json : {A : Type 0} → Json A → String → A → W → Written W
  set_json json key val w = elim (json.encode val) [
    | none ↦ (w, some bad_json)
    | some text ↦ written (etcd.set key text w)
  ]

  unfoldable pub delete_recursive : String → W → Written W
  delete_recursive key w = written (etcd.delete key true w)

  unfoldable pub check_registered_service : String → W → Option Error
  check_registered_service service_name w =
      elim (etcd.get (service_root_key service_name) false w) [
        | fetched n index ↦ none
        | refused err ↦ some (etcd_error err)
      ]

  unfoldable pub add_service : String → Service → W → Written W
  unfolding set_json
  add_service name details w = set_json codec.service (service_key name) details w

  unfoldable pub remove_service : String → W → Written W
  unfolding delete_recursive
  remove_service service_name w = delete_recursive (service_root_key service_name) w

  unfoldable pub remove_all_services : W → Written W
  unfolding delete_recursive
  remove_all_services w = delete_recursive service_root w

  unfoldable pub set_container_rule : String → String → ContainerRule → W → Written W
  unfolding set_json
  set_container_rule service_name rule_name spec w =
      set_json codec.rule (rule_key service_name rule_name) spec w

  unfoldable pub remove_container_rule : String → String → W → Written W
  unfolding delete_recursive
  remove_container_rule service_name rule_name w =
      delete_recursive (rule_key service_name rule_name) w

  -- `<-es.sessionReady`
  abbrev pub with_session : Option String → (String → Written W) → Waiting W
  with_session none next = none
  with_session (some session) next = some (next session)

  unfoldable pub add_instance : Option String → String → String → Instance → W → Waiting W
  unfolding set_json
  add_instance ready service_name instance_name inst w = with_session ready λ session.
      set_json codec.instance_ (instance_key service_name instance_name)
        (record { details = inst; session = session }) w

  unfoldable pub remove_instance : String → String → W → Written W
  unfolding delete_recursive
  remove_instance service_name instance_name w =
      delete_recursive (instance_key service_name instance_name) w

  unfoldable pub add_ingress_instance :
      Option String → String → IpPort → IngressInstance → W → Waiting W
  unfolding set_json
  add_ingress_instance ready service_name addr details w = with_session ready λ session.
      set_json codec.ingress_instance (ingress_instance_key service_name (address addr))
        (record { details = details; session = session }) w

  unfoldable pub remove_ingress_instance : String → IpPort → W → Written W
  unfolding delete_recursive
  remove_ingress_instance service_name addr w =
      delete_recursive (ingress_instance_key service_name (address addr)) w

  unfoldable pub register_host : Option String → String → Host → W → Waiting W
  unfolding set_json
  register_host ready identity details w = with_session ready λ session.
      set_json codec.host (host_key identity) (record { details = details; session = session }) w

  unfoldable pub deregister_host : String → W → Written W
  unfolding delete_recursive
  deregister_host identity w = delete_recursive (host_key identity) w

  -- The session is made once; `fresh` is what makeSessionID would make.
  abbrev pub session_for : Option String → String → String
  session_for none fresh = fresh
  session_for (some session) fresh = session

  unfoldable pub heartbeat : Option String → String → ℕ → W → Option String × Written W
  heartbeat ready fresh ttl w =
      let session = session_for ready fresh in
      (some session, written (etcd.set_ttl (session_key session) session ttl w))

  -- Without a session yet, the key is that of the empty text.
  unfoldable pub end_session : Option String → W → Written W
  end_session ready w = written (etcd.delete (session_key (session_for ready "")) false w)
