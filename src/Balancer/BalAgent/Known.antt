-- ===== src/Balancer/BalAgent/Known.antt =====
-- About what the balancer agent's services know of the in-memory store, given the changes that wait.
use ambergreen.Common.{
  ℕ, String, ◌≡◌, refl, ap, sym, ◌∙◌, true, false, Option, none, some, List, [], ◌∷◌, ◌++◌, ok,
  ◌==◌, string_eq, if◌then◌else◌, arith, inl, inr, Bool-cases,
}
use ambergreen.GoMap
use ambergreen.GoMap.{Map, Unique}
use ambergreen.Store.Data.{ServiceInfo, ServiceChange, QueryServiceOptions}
use ambergreen.Store.InMemState.{InMem, StoreError, service_watcher}
use ambergreen.Store.InMem
use ambergreen.Store.InMem.{make_service_info, infos}
use ambergreen.Store.InMem.Calls.{Call, perform}
use ambergreen.Store.InMem.Notifies.{mentions}
use ambergreen.Store.InMem.Notifies.EachCall.{is_kept, perform-keeps}
use ambergreen.Store.InMem.Notifies.Deletes.{changes_of, awaits, goes, perform-Tells}
use ambergreen.Store.WatchServices.{Reply, got, failed, change_update, present, change_info}
use ambergreen.Balancer.BalAgent.{Services, take_services, take_update}
use ambergreen.Balancer.BalAgent.Interleaving.{
  reply_of, in_mem, value_of, value_or, awaits-append, goes_unless, goes-append, awaits-changes_of,
}

module _ (w : ℕ) (opts : QueryServiceOptions) where
  -- What GetService gives for a name, with no service for an error.
  abbrev pub shown : String → InMem → Option ServiceInfo
  shown name s = value_of (in_mem.get_service name opts s)

  shown-none :
      (name : String) (s : InMem) → GoMap.lookup name s.services ≡ none → shown name s ≡ none
  unfolding InMem.get_service
  shown-none name s e = rw (e, InMem.get_service) refl

  -- Before the first query: the store has the one watcher, and a service whose deletion is the last
  -- change about it that waits is not there.
  pub record IsWatched (s : InMem) (waiting : List ServiceChange) : Type 0 where
    pub watchers : s.watchers ≡ service_watcher w opts ∷ []
    pub gone : (name : String) → goes name waiting ≡ true → shown name s ≡ none

  -- After it: a service that no change that waits is about is known as it is in the store.
  pub record IsFollowed (s : InMem) (waiting : List ServiceChange) (services : Services)
      : Type 0 where
    pub watched : IsWatched s waiting
    pub known :
        (name : String) → awaits name waiting ≡ false → GoMap.lookup name services ≡ shown name s

  module _ (c : Call) (s t : InMem) (waiting : List ServiceChange)
      (done : perform c (record s { sent = [] }) ≡ ok t) (kept : is_kept c ≡ true)
      (h : IsWatched s waiting) where
    shown-perform : (name : String) → mentions name t.sent ≡ false → shown name t ≡ shown name s
    unfolding InMem.get_service
    shown-perform name quiet =
        ap (λ r. value_of (reply_of r (StoreError.not_found name)))
          (perform-keeps w opts name c (record s { sent = [] }) t done kept h.watchers quiet)

    pub perform-IsWatched : IsWatched t (waiting ++ changes_of t.sent)
    perform-IsWatched = record {
      watchers =
          (perform-Tells w opts "" (record s { sent = [] }) h.watchers refl c t done kept).0
          ∙ h.watchers;
      gone = λ name g. elim (Bool-cases (awaits name (changes_of t.sent))) [
        | inl told ↦ shown-none name t (
            (perform-Tells w opts name (record s { sent = [] }) h.watchers refl c t done kept).1
              (ground (arith, told, goes-append name waiting (changes_of t.sent), g)))
        | inr quiet ↦
            shown-perform name (sym (awaits-changes_of name t.sent) ∙ quiet)
            ∙ h.gone name (ground (arith, quiet, goes-append name waiting (changes_of t.sent), g))
      ];
    }

    pub perform-IsFollowed :
        (services : Services)
        → IsFollowed s waiting services
        → IsFollowed t (waiting ++ changes_of t.sent) services
    perform-IsFollowed services f = record {
      watched = perform-IsWatched;
      known = λ name quiet.
          let parts = awaits-append name waiting (changes_of t.sent) in
          f.known name (ground (arith, parts, quiet))
          ∙ sym (
              shown-perform name
                (sym (awaits-changes_of name t.sent) ∙ ground (arith, parts, quiet)));
    }

  -- What a change is answered with, deleted or not.
  change_info-deleted :
      (c : ServiceChange) (s : InMem) (svc : Option ServiceInfo)
      → change_info in_mem opts c s ≡ got svc
      → c.service_deleted ≡ true
      → svc ≡ none
  unfolding change_info
  change_info-deleted c s svc e d = sym (ap (value_or none) (rw (d, change_info) at e))

  change_info-shown :
      (c : ServiceChange) (s : InMem) (svc : Option ServiceInfo)
      → change_info in_mem opts c s ≡ got svc
      → c.service_deleted ≡ false
      → shown c.name s ≡ svc
  unfolding change_info
  change_info-shown c s svc e d =
      by_reply (in_mem.get_service c.name opts s) (rw (d, change_info) at e)
    where
      by_reply : (r : Reply StoreError ServiceInfo) → present r ≡ got svc → value_of r ≡ svc
      by_reply (got i) e = ap (value_or none) e
      by_reply (failed x) e = absurd (ground (arith, e))

  change_at :
      (n name : String) (svc : Option ServiceInfo) (services : Services)
      → GoMap.lookup name (take_update (change_update n svc) services)
        ≡ (if n == name then svc else GoMap.lookup name services)
  unfolding take_update take_services
  change_at n name none services = GoMap.lookup-delete n name services
  change_at n name (some svc) services = GoMap.lookup-insert n name svc services

  module _ (c : ServiceChange) (s : InMem) (waiting : List ServiceChange) (services : Services)
      (svc : Option ServiceInfo) (e : change_info in_mem opts c s ≡ got svc)
      (f : IsFollowed s (c ∷ waiting) services) where
    receive-shown :
        (name : String) → (c.name == name) ≡ true → awaits name waiting ≡ false → svc ≡ shown name s
    receive-shown name same quiet = elim (Bool-cases c.service_deleted) [
      | inl d ↦
          change_info-deleted c s svc e d
          ∙ sym (f.watched.gone name (ground (arith, same, quiet, d)))
      | inr d ↦
          sym (change_info-shown c s svc e d)
          ∙ ap (λ n. shown n s) ((string_eq.beq_iff c.name name).0 same)
    ]

    pub receive-IsFollowed : IsFollowed s waiting (take_update (change_update c.name svc) services)
    receive-IsFollowed = record {
      watched = record {
        watchers = f.watched.watchers;
        gone = λ name g. f.watched.gone name (ground (arith, g, goes_unless name waiting));
      };
      known = λ name quiet.
          change_at c.name name svc services ∙ (elim (Bool-cases (c.name == name)) [
            | inl same ↦ rw (same) (receive-shown name same quiet)
            | inr other ↦ rw (other) (f.known name (ground (arith, other, quiet)))
          ]);
    }
