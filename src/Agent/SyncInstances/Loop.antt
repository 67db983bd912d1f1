-- ===== src/Agent/SyncInstances/Loop.antt =====
-- The main loop, for a consumer that takes every update that is sent.
use ambergreen.Common.{
  String, ◌≡◌, refl, Bool, true, false, Option, none, some, List, [], ◌∷◌, ok, >>=-eq-ok,
  ok-injective, for_each, for_each-inv, string_eq, is_some, arith, inl, inr, Bool-cases, subst,
}
use ambergreen.GoMap
use ambergreen.GoMap.{Map, AllEntries}
use ambergreen.Store.Data.{Instance, ServiceInfo, ServiceUpdate}
use ambergreen.Agent.Container.{Container, SyncConfig}
use ambergreen.Agent.SyncState.{
  InstanceKey, instance_key_eq, InstanceUpdate, ContainerUpdate, SyncInstances, SyncEvent,
  container_update, service_update, instance_updates_reset,
}
use ambergreen.Agent.SyncInstances.{
  clear_instances, instances_of, container_change, service_change, process_container_update,
  process_service_update, handle, step, start, run, request_reset,
}
use ambergreen.Agent.SyncInstances.Views.{view}
use ambergreen.Agent.SyncInstances.Keeping.{
  Running, add_container-Running, remove_container-Running,
}
use ambergreen.Agent.SyncInstances.Services.{remove_service-Running}
use ambergreen.Agent.SyncInstances.Updating.{update_service-Running}
use ambergreen.Agent.SyncInstances.Consumer.{
  is_full, receive, Follows, sent, fresh, Running-Follows, fresh-Running, cleared-Running,
}

container_changes-Running :
    (cf : SyncConfig) (v : InstanceKey → Option Instance) (r bs bc : Bool)
    (cs : Map String (Option Container)) (s t : SyncInstances)
    → Running v r bs bc s
    → for_each (container_change cf) cs s ≡ ok t
    → Running v r bs bc t
unfolding container_change
container_changes-Running cf v r bs bc =
    for_each-inv (Running v r bs bc) (container_change cf) change
  where
    change :
        (c : String × Option Container) (s t : SyncInstances)
        → Running v r bs bc s
        → container_change cf c s ≡ ok t
        → Running v r bs bc t
    change (id, none) s t h e =
        subst (Running v r bs bc) (ok-injective e) (remove_container-Running v r bs bc id s h)
    change (id, some cont) s t h e = add_container-Running v r bs bc cf cont s t h e

service_changes-Running :
    (cf : SyncConfig) (v : InstanceKey → Option Instance) (r bs bc : Bool)
    (cs : Map String (Option ServiceInfo)) (s t : SyncInstances)
    → Running v r bs bc s
    → for_each (service_change cf) cs s ≡ ok t
    → Running v r bs bc t
unfolding service_change
service_changes-Running cf v r bs bc = for_each-inv (Running v r bs bc) (service_change cf) change
  where
    change :
        (c : String × Option ServiceInfo) (s t : SyncInstances)
        → Running v r bs bc s
        → service_change cf c s ≡ ok t
        → Running v r bs bc t
    change (name, none) s t h e =
        subst (Running v r bs bc) (ok-injective e) (remove_service-Running v r bs bc name s h)
    change (name, some info) s t h e = update_service-Running v r bs bc cf name info s t h e

module _ (cf : SyncConfig) (v : InstanceKey → Option Instance) (si t : SyncInstances)
    (h : Follows v si) where
  container_update-Follows :
      (u : ContainerUpdate)
      → process_container_update cf u (fresh si) ≡ ok t
      → Follows (receive (sent t) v) t
  unfolding process_container_update clear_instances
  container_update-Follows u e = elim (Bool-cases u.reset) [
    | inl reset ↦
        let known = is_some si.services in
        Running-Follows (λ _. none) v known known true t
          (container_changes-Running cf (λ _. none) known known true u.containers _ t
            (cleared-Running si.services (some []) known (fresh si) h.named) (rw reset at e))
          (λ s c key. ground (arith, s))
    | inr keep ↦
        Running-Follows (view si) v false (is_some si.services) (is_some si.containers) t
          (container_changes-Running cf (view si) false _ _ u.containers (fresh si) t
            (fresh-Running v si h) (rw keep at e))
          (λ s c key. h.agrees (ground (arith, s, c)) key)
  ]

  service_update-Follows :
      (u : ServiceUpdate)
      → process_service_update cf u (fresh si) ≡ ok t
      → Follows (receive (sent t) v) t
  unfolding process_service_update clear_instances
  service_update-Follows u e = elim (Bool-cases u.reset) [
    | inl reset ↦
        let known = is_some si.containers in
        Running-Follows (λ _. none) v known true known t
          (service_changes-Running cf (λ _. none) known true known u.services _ t
            (cleared-Running (some []) si.containers known (fresh si) tt) (rw reset at e))
          (λ s c key. ground (arith, c))
    | inr keep ↦
        Running-Follows (view si) v false (is_some si.services) (is_some si.containers) t
          (service_changes-Running cf (view si) false _ _ u.services (fresh si) t
            (fresh-Running v si h) (rw keep at e))
          (λ s c key. h.agrees (ground (arith, s, c)) key)
  ]

  handle-Follows :
      (ev : SyncEvent) → handle cf ev (fresh si) ≡ ok t → Follows (receive (sent t) v) t
  unfolding handle request_reset view instances_of GoMap.lookup
  handle-Follows (container_update u) e = container_update-Follows u e
  handle-Follows (service_update u) e = service_update-Follows u e
  handle-Follows instance_updates_reset e =
      subst (λ t. Follows (receive (sent t) v) t) (ok-injective e)
        (record { named = tt; idle = λ _ key. refl; agrees = λ full key. cc })

-- After a round, a consumer that followed the component and takes what the round sends still
-- follows it: once services and containers are known it holds exactly the component's instances.
pub step-Follows :
    (cf : SyncConfig) (ev : SyncEvent) (v : InstanceKey → Option Instance) (si t : SyncInstances)
    (out : Option InstanceUpdate)
    → Follows v si
    → step cf ev si ≡ ok (t, out)
    → Follows (receive out v) t
unfolding step
step-Follows cf ev v si t out h e =
    let (u, handled, rest) = >>=-eq-ok (handle cf ev (fresh si)) _ e in
    let same = ok-injective rest in
    subst (λ (p : SyncInstances × Option InstanceUpdate). Follows (receive p.1 v) p.0) same
      (handle-Follows cf v si u h ev handled)

-- What a consumer holds after a sequence of rounds.
unfoldable pub receive_all :
    List (Option InstanceUpdate) → (InstanceKey → Option Instance) → InstanceKey → Option Instance
receive_all [] v = v
receive_all (out ∷ outs) v = receive_all outs (receive out v)

run-Follows :
    (cf : SyncConfig) (evs : List SyncEvent) (v : InstanceKey → Option Instance)
    (si t : SyncInstances) (outs : List (Option InstanceUpdate))
    → Follows v si
    → run cf evs si ≡ ok (t, outs)
    → Follows (receive_all outs v) t
unfolding run receive_all
run-Follows cf [] v si t outs h e =
    subst (λ (p : SyncInstances × List (Option InstanceUpdate)). Follows (receive_all p.1 v) p.0)
      (ok-injective e) h
run-Follows cf (ev ∷ evs) v si t outs h e =
    let ((s, out), first, rest) = >>=-eq-ok (step cf ev si) _ e in
    let ((u, more), then_, last) = >>=-eq-ok (run cf evs s) _ rest in
    subst (λ (p : SyncInstances × List (Option InstanceUpdate)). Follows (receive_all p.1 v) p.0)
      (ok-injective last)
      (run-Follows cf evs (receive out v) s u more (step-Follows cf ev v si s out h first) then_)

pub start-Follows : (v : InstanceKey → Option Instance) → Follows v start
unfolding start request_reset view instances_of GoMap.lookup
start-Follows v = record { named = tt; idle = λ _ key. refl; agrees = λ full key. cc }

-- The main loop, from its start and over any sequence of events that it handles without a panic:
-- whatever a consumer held at first, when services and containers are both known after the last
-- round, it holds at every key exactly the instance that the component holds.
pub run-receive_all :
    (cf : SyncConfig) (evs : List SyncEvent) (v : InstanceKey → Option Instance) (t : SyncInstances)
    (outs : List (Option InstanceUpdate))
    → run cf evs start ≡ ok (t, outs)
    → is_full t ≡ true
    → (key : InstanceKey) → receive_all outs v key ≡ view t key
run-receive_all cf evs v t outs e full =
    (run-Follows cf evs v start t outs (start-Follows v) e).agrees full
