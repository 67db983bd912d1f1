-- ===== src/Agent/SyncInstances/Consumer.antt =====
-- A consumer that takes every update that the main loop sends, at the ends of a round.
use ambergreen.Common.{
  String, ◌≡◌, refl, sym, ◌∙◌, Bool, true, false, ◌&&◌, ◌||◌, not, Option, none, some, [], ◌∷◌,
  string_eq, is_some, if◌then◌else◌, arith,
}
use ambergreen.GoMap
use ambergreen.GoMap.{Map, AllEntries}
use ambergreen.Store.Data.{Instance}
use ambergreen.Agent.SyncState.{
  InstanceKey, instance_key_eq, InstanceUpdate, SyncService, SyncContainer, SyncInstances,
  on_entries, no_update,
}
use ambergreen.Agent.SyncInstances.{clear_instances, instances_of, is_empty}
use ambergreen.Agent.SyncInstances.Views.{view, consume, IsNamed, lookup-map_entries}
use ambergreen.Agent.SyncInstances.Keeping.{Running}

abbrev pub is_full : SyncInstances → Bool
is_full si = is_some si.services && is_some si.containers

-- What a consumer that held `v` holds after it has taken what was sent, if anything was.
unfoldable pub receive :
    Option InstanceUpdate → (InstanceKey → Option Instance) → InstanceKey → Option Instance
unfolding consume
receive none v = v
receive (some u) v = consume u.instances (if u.reset then (λ _. none) else v)

-- Between two rounds: once services and containers are both known, the consumer holds exactly the
-- instances that the component does.
pub record Follows (v : InstanceKey → Option Instance) (si : SyncInstances) : Type 0 where
  pub named : IsNamed si.services
  pub idle : is_some si.containers ≡ false → (key : InstanceKey) → view si key ≡ none
  pub agrees : is_full si ≡ true → (key : InstanceKey) → v key ≡ view si key

-- What a round sends.
abbrev pub sent : SyncInstances → Option InstanceUpdate
sent t = if not (is_empty t.update.instances) || t.update.reset then some t.update else none

consume_pointwise :
    (u : Map InstanceKey (Option Instance)) (v w : InstanceKey → Option Instance)
    (key : InstanceKey)
    → v key ≡ w key
    → consume u v key ≡ consume u w key
unfolding consume
consume_pointwise u v w key e = ground (arith, e)

receive-sent :
    (v : InstanceKey → Option Instance) (t : SyncInstances) (key : InstanceKey)
    → receive (sent t) v key
      ≡ consume t.update.instances (if t.update.reset then (λ _. none) else v) key
unfolding receive is_empty consume GoMap.lookup
receive-sent v t key = by_parts t.update.instances t.update.reset
  where
    by_parts :
        (is : Map InstanceKey (Option Instance)) (reset : Bool)
        → receive
            (if not (is_empty is) || reset
              then some (record { instances = is; reset = reset })
              else none)
            v
            key
          ≡ consume is (if reset then (λ _. none) else v) key
    by_parts [] false = refl
    by_parts [] true = refl
    by_parts (x ∷ is) reset = refl

-- The end of a round.
pub Running-Follows :
    (w v : InstanceKey → Option Instance) (r bs bc : Bool) (t : SyncInstances)
    → Running w r bs bc t
    → (bs ≡ true → bc ≡ true → (key : InstanceKey) → (if r then (λ _. none) else v) key ≡ w key)
    → Follows (receive (sent t) v) t
Running-Follows w v r bs bc t h same = record {
  named = h.named;
  idle = λ q key. h.idle (sym h.containers ∙ q) key;
  agrees = λ full key.
      receive-sent v t key
      ∙ consume_pointwise t.update.instances _ w key (
          rw h.reset
            (same (ground (arith, full, h.services)) (ground (arith, full, h.containers)) key))
      ∙ h.synced key;
}

view-clear : (si : SyncInstances) (key : InstanceKey) → view (clear_instances si) key ≡ none
unfolding view clear_instances instances_of
view-clear si key = ground (
  arith,
  lookup-map_entries key.service (λ (s : SyncService). record s { instances = [] }) si.services,
  GoMap.lookup_empty {V = Instance} key.instance_name,
)

-- The state in which a round begins.
abbrev pub fresh : SyncInstances → SyncInstances
fresh si = record si { update = no_update }

-- A consumer that holds what the component does, at the beginning of a round.
pub fresh-Running :
    (v : InstanceKey → Option Instance) (si : SyncInstances)
    → Follows v si
    → Running (view si) false (is_some si.services) (is_some si.containers) (fresh si)
unfolding view consume GoMap.lookup
fresh-Running v si h = record {
  synced = λ key. refl;
  named = h.named;
  idle = h.idle;
  reset = refl;
  services = refl;
  containers = refl;
}

clear-IsNamed :
    (ss : Option (Map String SyncService))
    → IsNamed ss
    → IsNamed (on_entries (GoMap.map_values λ s. record s { instances = [] }) ss)
clear-IsNamed none h = tt
clear-IsNamed (some m) h =
    GoMap.AllEntries-map_values (λ n s. s.name ≡ n) (λ s. record s { instances = [] }) m
      (λ j s e. e) h

is_some-on_entries :
    {V : Type 0} (f : Map String V → Map String V) (m : Option (Map String V))
    → is_some (on_entries f m) ≡ is_some m
is_some-on_entries f none = refl
is_some-on_entries f (some m) = refl

-- A consumer that holds nothing, at the beginning of a round that resets.
pub cleared-Running :
    (ss : Option (Map String SyncService)) (cs : Option (Map String SyncContainer)) (r : Bool)
    (si : SyncInstances)
    → IsNamed ss
    → Running
        (λ _. none)
        r
        (is_some ss)
        (is_some cs)
        (record (clear_instances (record si { services = ss; containers = cs })) {
          update = record { instances = []; reset = r };
        })
unfolding clear_instances view consume GoMap.lookup
cleared-Running ss cs r si h =
    let before : SyncInstances = record si { services = ss; containers = cs } in
    record {
      synced = λ key. sym (view-clear before key);
      named = clear-IsNamed ss h;
      idle = λ _ key. view-clear before key;
      reset = refl;
      services = is_some-on_entries _ ss;
      containers = is_some-on_entries _ cs;
    }
