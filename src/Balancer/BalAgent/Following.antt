-- ===== src/Balancer/BalAgent/Following.antt =====
-- About the balancer agent's services and those of the in-memory store that it watches.
use ambergreen.Common.{
  ℕ, String, ◌≡◌, refl, ap, sym, subst, ◌∙◌, Option, none, some, List, [], ◌∷◌, map, ok, >>=-eq-ok,
  ok-injective, string_eq, arith, inl, inr, Option-cases,
}
use ambergreen.GoMap
use ambergreen.GoMap.{Map, Unique}
use ambergreen.Store.Data.{ServiceInfo, ServiceChange, ServiceUpdate, QueryServiceOptions}
use ambergreen.Store.InMemState.{InMem, StoreError, service_watcher}
use ambergreen.Store.InMem
use ambergreen.Store.InMem.{make_service_info, infos}
use ambergreen.Store.InMem.Listing.{infos-lookup, infos-Unique}
use ambergreen.Store.InMem.Calls.{Call, perform}
use ambergreen.Store.WatchServices
use ambergreen.Store.WatchServices.{
  Reply, got, failed, Reader, all_present, first_update, change_update, present, change_info,
  watch_changes,
}
use ambergreen.Balancer.BalAgent.{Services, take_update}
use ambergreen.Balancer.BalAgent.Interleaving.{
  in_mem, take_updates, updates_of, error_of, Step, calls, receives, Waiting, call, play, serve,
  AllKept, lookup-take_all,
}
use ambergreen.Balancer.BalAgent.Known.{
  shown, IsWatched, IsFollowed, perform-IsWatched, perform-IsFollowed, receive-IsFollowed,
}

module _ (w : ℕ) (opts : QueryServiceOptions) where
  abbrev Played : Type 0
  Played = List (ServiceChange × InMem) × Waiting

  -- The services follow the store at the end of rounds that raised no error.
  abbrev EndsFollowed : Services → Played → Type 0
  EndsFollowed services (rounds, (t, left)) =
      (watch_changes in_mem opts rounds).1 ≡ none
      → IsFollowed w opts t left (take_updates (watch_changes in_mem opts rounds).0 services)

  receive-EndsFollowed :
      (c : ServiceChange) (s : InMem) (waiting : List ServiceChange) (services : Services)
      (r : Played)
      → IsFollowed w opts s (c ∷ waiting) services
      → ((services : Services) → IsFollowed w opts s waiting services → EndsFollowed services r)
      → EndsFollowed services ((c, s) ∷ r.0, r.1)
  unfolding watch_changes
  receive-EndsFollowed c s waiting services (rounds, (t, left)) f again fine =
      by_info (change_info in_mem opts c s) refl fine
    where
      answered : Reply StoreError (Option ServiceInfo) → List ServiceUpdate × Option StoreError
      answered (failed x) = ([], some x)
      answered (got svc) = (
        change_update c.name svc ∷ (watch_changes in_mem opts rounds).0,
        (watch_changes in_mem opts rounds).1,
      )

      by_info :
          (r : Reply StoreError (Option ServiceInfo))
          → change_info in_mem opts c s ≡ r
          → (answered r).1 ≡ none
          → IsFollowed w opts t left (take_updates (answered r).0 services)
      by_info (failed x) q fine = absurd (ground (arith, fine))
      by_info (got svc) q fine =
          again (take_update (change_update c.name svc) services)
            (receive-IsFollowed w opts c s waiting services svc q f) fine

  -- The rounds of the watch, with what else goes on in the store.
  play-EndsFollowed :
      (steps : List Step) (s : InMem) (waiting : List ServiceChange) (services : Services)
      (r : Played)
      → AllKept steps
      → play steps (s, waiting) ≡ ok r
      → IsFollowed w opts s waiting services
      → EndsFollowed services r
  unfolding play watch_changes
  play-EndsFollowed [] s waiting services r kept e f =
      subst (EndsFollowed services) (ok-injective e) (λ fine. f)
  play-EndsFollowed (calls c ∷ steps) s waiting services r kept e f =
      let (y, called, rest) = >>=-eq-ok (call c (s, waiting)) _ e in
      let (v, performed, same) = >>=-eq-ok (perform c (record s { sent = [] })) _ called in
      play-EndsFollowed steps y.0 y.1 services r kept.1 rest (
        subst (λ (y : Waiting). IsFollowed w opts y.0 y.1 services) (ok-injective same)
          (perform-IsFollowed w opts c s v waiting performed kept.0 f.watched services f))
  play-EndsFollowed (receives ∷ steps) s [] services r kept e f =
      play-EndsFollowed steps s [] services r kept e f
  play-EndsFollowed (receives ∷ steps) s (c ∷ waiting) services r kept e f =
      let (q, played, last) = >>=-eq-ok (play steps (s, waiting)) _ e in
      subst (EndsFollowed services) (ok-injective last) (
        receive-EndsFollowed c s waiting services q f
          (λ later g. play-EndsFollowed steps s waiting later q kept played g))

  -- The calls before the first query.
  serve-IsWatched :
      (before : List Call) (s : InMem) (waiting : List ServiceChange) (r : Waiting)
      → AllKept (map calls before)
      → serve before (s, waiting) ≡ ok r
      → IsWatched w opts s waiting
      → IsWatched w opts r.0 r.1
  unfolding serve
  serve-IsWatched [] s waiting r kept e h =
      subst (λ (y : Waiting). IsWatched w opts y.0 y.1) (ok-injective e) h
  serve-IsWatched (c ∷ before) s waiting r kept e h =
      let (y, called, rest) = >>=-eq-ok (call c (s, waiting)) _ e in
      let (v, performed, same) = >>=-eq-ok (perform c (record s { sent = [] })) _ called in
      serve-IsWatched before y.0 y.1 r kept.1 rest (
        subst (λ (y : Waiting). IsWatched w opts y.0 y.1) (ok-injective same)
          (perform-IsWatched w opts c s v waiting performed kept.0 h))

  query-IsFollowed :
      (s : InMem) (waiting : List ServiceChange) (services : Services)
      → Unique s.services
      → s.injected_error ≡ none
      → IsWatched w opts s waiting
      → IsFollowed w opts s waiting (take_update (first_update (infos opts s s.services)) services)
  unfolding take_update InMem.get_service
  query-IsFollowed s waiting services u fine h = record {
    watched = h;
    known = λ name quiet.
        let known =
          lookup-take_all (infos opts s s.services) [] name (infos-Unique opts s s.services u) in
        ground (
          arith,
          known,
          fine,
          infos-lookup opts s s.services name,
          GoMap.lookup_empty {V = ServiceInfo} name,
        );
  }

  run-queried :
      (s : InMem) (rounds : List (ServiceChange × InMem))
      → s.injected_error ≡ none
      → WatchServices.run in_mem opts s rounds ≡ (
        first_update (infos opts s s.services) ∷ (watch_changes in_mem opts rounds).0,
        (watch_changes in_mem opts rounds).1,
      )
  unfolding WatchServices.run InMem.get_all_services
  run-queried s rounds e = rw (e) refl

  -- The one watcher of the in-memory store registers; then others call the store, then the watch makes its
  -- first query, and then its rounds and other calls take their turns in any order, so that a round may
  -- see a store that has changed again. When no call has panicked or was the end of a session, no key of the
  -- services stood twice at the query, no change waits at the end, and the watch has posted no error, its
  -- updates make of any services exactly what GetService then answers for each name.
  pub run-Follows :
      (before : List Call) (steps : List Step) (s s' t : InMem) (waiting : List ServiceChange)
      (rounds : List (ServiceChange × InMem)) (services : Services)
      → s.watchers ≡ service_watcher w opts ∷ []
      → AllKept (map calls before)
      → AllKept steps
      → serve before (s, []) ≡ ok (s', waiting)
      → Unique s'.services
      → play steps (s', waiting) ≡ ok (rounds, (t, []))
      → (WatchServices.run in_mem opts s' rounds).1 ≡ none
      → (name : String)
      → GoMap.lookup name (take_updates (WatchServices.run in_mem opts s' rounds).0 services)
        ≡ shown w opts name t
  unfolding WatchServices.run InMem.get_all_services
  run-Follows before steps s s' t waiting rounds services one kept kept' served u played fine name =
      elim (Option-cases s'.injected_error) [
        | inr (err, e) ↦ absurd (ground (arith, rw (e, WatchServices.run) at fine))
        | inl e ↦
            let start : IsWatched w opts s [] = record { watchers = one; gone = λ n g. cc } in
            let first =
              query-IsFollowed s' waiting services u e
                (serve-IsWatched before s [] (s', waiting) kept served start) in
            let all = run-queried s' rounds e in
            let ended =
              play-EndsFollowed steps s' waiting
                (take_update (first_update (infos opts s' s'.services)) services) (rounds, (t, []))
                kept' played first (sym (ap error_of all) ∙ fine) in
            ap (λ r. GoMap.lookup name (take_updates (updates_of r) services)) all
            ∙ ended.known name refl
      ]
