-- ===== src/Store/Etcd/Agreement/Told.antt =====
-- About what a watcher of the services is told for one request.
use mathlib.Core.List.{append_assoc, append-nil}
use ambergreen.Common.{
  ℕ, String, ◌≡◌, ◌≢◌, refl, sym, ap, ◌∙◌, Bool, true, false, Option, none, some, List, [], ◌∷◌,
  ◌++◌, map, string_eq, if◌then◌else◌, arith,
}
use ambergreen.GoMap.{Map, keys}
use ambergreen.Net.{IpPort, ip_port_eq}
use ambergreen.Store.Data.{HostChange, QueryServiceOptions}
use ambergreen.Store.InMemState.{
  InMem, service_watcher, Notice, service_notice, fire_service_change, service_notices,
  host_notices,
}
use ambergreen.Store.InMem
use ambergreen.Store.InMem.{Reply, map_at}
use ambergreen.Store.Etcd.Keys.{
  Entry, IsPlainEntry, IsPlain, key_of, parsed_of, relevant_to, service_entry, rule_entry,
  instance_entry, ingress_entry, service_root_key, service_root,
}
use ambergreen.Store.Etcd.KeyRoundTrip.{
  parse_key-key_of, parse_key-service_root_key, parse_key-service_root,
}
use ambergreen.Store.Etcd.Client.{Json, Codec, Etcd, EtcdError, bad_json}
use ambergreen.Store.Etcd.Requests
use ambergreen.Store.Etcd.Requests.{Written, written}
use ambergreen.Store.Etcd.Watch.{
  Response, gone, handle_set, handle_delete, handle_response, handle_responses,
}
use ambergreen.Store.Etcd.Agreement.{did, Documented, told}

written-fine :
    {W : Type 0} (r : W × Option EtcdError)
    → (written r).1 ≡ none
    → (r.1 ≡ none) × ((written r).0 ≡ r.0)
written-fine (w, none) e = (refl, refl)
written-fine (w, some err) e = cc

module _ {W : Type 0} (etcd : Etcd W) (sent : W → List Response) (doc : Documented etcd sent)
    (codec : Codec) (address : IpPort → String) where
  pub set_json-sent :
      {A : Type 0} (json : Json A) (key : String) (v : A) (w : W)
      → (Requests.set_json etcd codec address json key v w).1 ≡ none
      → sent (Requests.set_json etcd codec address json key v w).0 ≡ sent w ++ did "set" key ∷ []
  unfolding Requests.set_json
  set_json-sent json key v w e = by_text (json.encode v) e
    where
      by_text :
          (o : Option String)
          → (elim o as (λ _. Written W) [
            | none ↦ (w, some bad_json)
            | some text ↦ written (etcd.set key text w)
          ]).1
            ≡ none
          → sent
              (elim o as (λ _. Written W) [
                | none ↦ (w, some bad_json)
                | some text ↦ written (etcd.set key text w)
              ]).0
            ≡ sent w ++ did "set" key ∷ []
      by_text none e = cc
      by_text (some text) e =
          let (fine, same) = written-fine (etcd.set key text w) e in
          ap sent same ∙ doc.sets key text w fine

  pub delete_recursive-sent :
      (key : String) (w : W)
      → (Requests.delete_recursive etcd codec address key w).1 ≡ none
      → sent (Requests.delete_recursive etcd codec address key w).0
        ≡ sent w ++ did "delete" key ∷ []
  unfolding Requests.delete_recursive
  delete_recursive-sent key w e =
      let (fine, same) = written-fine (etcd.delete key true w) e in
      ap sent same ∙ doc.deletes key true w fine

module _ (opts : QueryServiceOptions) (w : ℕ) where
  pub one_notice : Bool → String → Bool → List Notice
  one_notice sends name deleted =
      if sends
      then service_notice w (record { name = name; service_deleted = deleted }) ∷ []
      else []

  pub told_set :
      (svcs : Map String (Unit {0})) (e : Entry)
      → IsPlainEntry e
      → told opts w svcs (did "set" (key_of e) ∷ [])
        ≡ map (service_notice w) (handle_set opts (parsed_of e) svcs).1
  unfolding told handle_responses handle_response
  told_set svcs e p =
      ap (map (service_notice w))
        (append-nil _ ∙ ap (λ k. (handle_set opts k svcs).1) (parse_key-key_of e p))

  pub told_delete :
      (svcs : Map String (Unit {0})) (e : Entry)
      → IsPlainEntry e
      → told opts w svcs (did "delete" (key_of e) ∷ [])
        ≡ map (service_notice w) (handle_delete opts (parsed_of e) svcs).1
  unfolding told handle_responses handle_response
  told_delete svcs e p =
      ap (map (service_notice w))
        (append-nil _ ∙ ap (λ k. (handle_delete opts k svcs).1) (parse_key-key_of e p))

  -- Whether the watcher asked for entries of this kind, and the service of an entry.
  abbrev pub asked : Entry → Bool
  asked (service_entry name) = true
  asked (rule_entry name rule) = opts.with_container_rules
  asked (instance_entry name inst) = opts.with_instances
  asked (ingress_entry name addr) = opts.with_ingress_instances

  abbrev pub service_of : Entry → String
  service_of (service_entry name) = name
  service_of (rule_entry name rule) = name
  service_of (instance_entry name inst) = name
  service_of (ingress_entry name addr) = name

  set_notice :
      (svcs : Map String (Unit {0})) (e : Entry)
      → map (service_notice w) (handle_set opts (parsed_of e) svcs).1
        ≡ one_notice (asked e) (service_of e) false
  unfolding handle_set relevant_to parsed_of one_notice
  set_notice svcs (service_entry name) = refl
  set_notice svcs (rule_entry name rule) = ground arith
  set_notice svcs (instance_entry name inst) = ground arith
  set_notice svcs (ingress_entry name addr) = ground arith

  -- An entry of a service, other than its own details.
  abbrev pub is_part : Entry → Bool
  is_part (service_entry name) = false
  is_part e = true

  delete_notice :
      (svcs : Map String (Unit {0})) (e : Entry)
      → is_part e ≡ true
      → map (service_notice w) (handle_delete opts (parsed_of e) svcs).1
        ≡ one_notice (asked e) (service_of e) false
  unfolding handle_delete relevant_to parsed_of one_notice
  delete_notice svcs (service_entry name) h = cc
  delete_notice svcs (rule_entry name rule) h = ground arith
  delete_notice svcs (instance_entry name inst) h = ground arith
  delete_notice svcs (ingress_entry name addr) h = ground arith

  -- A change of the in-memory store that tells the watcher what the responses tell it.
  pub fire-told :
      (svcs : Map String (Unit {0})) (name : String) (deleted : Bool)
      (filter : QueryServiceOptions → Bool) (s : InMem) (rs : List Response)
      → s.watchers ≡ service_watcher w opts ∷ []
      → told opts w svcs rs ≡ one_notice (filter opts) name deleted
      → s.sent
          ++ service_notices (record { name = name; service_deleted = deleted }) filter s.watchers
        ≡ s.sent ++ told opts w svcs rs
  unfolding service_notices one_notice
  fire-told svcs name deleted filter s rs h e = rw (h, e)

  pub told_root_delete :
      (svcs : Map String (Unit {0})) (name : String)
      → IsPlain name
      → name ≢ ""
      → told opts w svcs (did "delete" (service_root_key name) ∷ []) ≡ one_notice true name true
  unfolding told handle_responses handle_response handle_delete one_notice
  told_root_delete svcs name p q =
      ap (map (service_notice w)) (
        append-nil _
        ∙ ap (λ k. (handle_delete opts k svcs).1) (parse_key-service_root_key name p q))

  pub told_all_gone :
      (svcs : Map String (Unit {0}))
      → told opts w svcs (did "delete" service_root ∷ [])
        ≡ map (service_notice w) (map gone (keys svcs))
  unfolding told handle_responses handle_response handle_delete
  told_all_gone svcs =
      ap (map (service_notice w))
        (append-nil _ ∙ ap (λ k. (handle_delete opts k svcs).1) parse_key-service_root)

  pub sent-remove_services :
      (names : List String) (s : InMem)
      → s.watchers ≡ service_watcher w opts ∷ []
      → (InMem.remove_services names s).sent ≡ s.sent ++ map (service_notice w) (map gone names)
  unfolding InMem.remove_services InMem.remove_service fire_service_change service_notices
  sent-remove_services [] s h = sym (append-nil s.sent)
  sent-remove_services (name ∷ names) s h =
      sent-remove_services names (InMem.remove_service name s).0 h ∙ rw h (append_assoc s.sent _ _)

  pub host_silent :
      (svcs : Map String (Unit {0})) (s : InMem) (ev : HostChange)
      → s.watchers ≡ service_watcher w opts ∷ []
      → s.sent ++ host_notices ev s.watchers ≡ s.sent ++ told opts w svcs []
  unfolding host_notices told handle_responses
  host_silent svcs s ev h = rw h

  -- What a set and a delete of an entry tell.
  pub put-told :
      (svcs : Map String (Unit {0})) (e : Entry)
      → IsPlainEntry e
      → told opts w svcs (did "set" (key_of e) ∷ []) ≡ one_notice (asked e) (service_of e) false
  put-told svcs e p = told_set svcs e p ∙ set_notice svcs e

  pub cut-told :
      (svcs : Map String (Unit {0})) (e : Entry)
      → is_part e ≡ true
      → IsPlainEntry e
      → told opts w svcs (did "delete" (key_of e) ∷ []) ≡ one_notice (asked e) (service_of e) false
  cut-told svcs e part p = told_delete svcs e p ∙ delete_notice svcs e part
