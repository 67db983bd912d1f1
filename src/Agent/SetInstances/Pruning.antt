-- ===== src/Agent/SetInstances/Pruning.antt =====
-- About what an update removes from the store, and what it writes.
use ambergreen.Common.{
  String, ◌≡◌, refl, ap, sym, ◌∙◌, Bool, true, false, not, ◌&&◌, ◌||◌, Option, none, some, [], ◌∷◌,
  ok, >>=-eq-ok, ok-injective, for_each, ◌==◌, string_eq, if◌then◌else◌, arith,
}
use ambergreen.GoMap
use ambergreen.GoMap.{Map, Unique, AllEntries}
use ambergreen.Net.{Ip, Platform}
use ambergreen.Store.Data.{Instance, ServiceInfo}
use ambergreen.Store.InMemState.{Sessioned}
use ambergreen.Store.InMem
use ambergreen.Store.InMem.{Reply, map_at, details_of, make_service_info, infos, get_all_services}
use ambergreen.Store.InMem.Ending.{instance_at}
use ambergreen.Store.InMem.Reads.{instance_at-add_instance, instance_at-remove_instance}
use ambergreen.Agent.SyncState.{InstanceKey, instance_key_eq}
use ambergreen.Agent.SetInstances.{
  SetInstances, remove_instance, is_set, prune_instances, prune_services, set_change,
}

abbrev pub key_of : String → String → InstanceKey
key_of n i = record { service = n; instance_name = i }

-- What an entry of an update makes of an instance.
abbrev pub written :
    String → Option (Option Instance) → Option (Sessioned Instance) → Option (Sessioned Instance)
written session none old = old
written session (some none) old = none
written session (some (some inst)) old = some (record { details = inst; session = session })

-- What a reset leaves: the instances of this host are those of the update alone.
abbrev pub kept :
    Platform
    → Ip
    → Option (Option Instance)
    → Option (Sessioned Instance)
    → Option (Sessioned Instance)
kept p host_ip new none = none
kept p host_ip new (some v) =
    if p.ip_equal host_ip v.details.host.ip && not (is_set new) then none else some v

module _ (p : Platform) (host_ip : Ip) where
  set_change-written :
      (session n i : String) (key : InstanceKey) (inst : Option Instance) (si t : SetInstances)
      → set_change p host_ip session (key, inst) si ≡ ok t
      → instance_at t.store n i
        ≡ (if key == key_of n i then written session (some inst) none else instance_at si.store n i)
  unfolding set_change remove_instance
  set_change-written session n i key none si t e =
      ap (λ (t : SetInstances). instance_at t.store n i) (sym (ok-injective e))
      ∙ ground (
        arith,
        instance_at-remove_instance key.service key.instance_name si.store n i,
        instance_key_eq.beq_iff key (key_of n i),
      )
  set_change-written session n i key (some inst) si t e =
      let (r, added, rest) =
        >>=-eq-ok (InMem.add_instance session key.service key.instance_name inst si.store) _ e in
      ap (λ (t : SetInstances). instance_at t.store n i) (sym (ok-injective rest))
      ∙ ground (
        arith,
        instance_at-add_instance session key.service key.instance_name inst si.store r n i added,
        instance_key_eq.beq_iff key (key_of n i),
      )

  pub for_each-written :
      (session n i : String) (updates : Map InstanceKey (Option Instance)) (si t : SetInstances)
      → Unique updates
      → for_each (set_change p host_ip session) updates si ≡ ok t
      → instance_at t.store n i
        ≡ written session (GoMap.lookup (key_of n i) updates) (instance_at si.store n i)
  unfolding for_each GoMap.lookup GoMap.has
  for_each-written session n i [] si t u e =
      ap (λ (t : SetInstances). instance_at t.store n i) (sym (ok-injective e))
  for_each-written session n i ((key, inst) ∷ updates) si t u e =
      let (mid, first, rest) = >>=-eq-ok (set_change p host_ip session (key, inst) si) _ e in
      let later = for_each-written session n i updates mid t u.1 rest in
      let now = set_change-written session n i key inst si mid first in
      ground (arith, later, now, u.0, instance_key_eq.beq_iff key (key_of n i))

  -- Whether the reset removes an instance.
  abbrev pub is_stale : Map InstanceKey (Option Instance) → String → String → Option Instance → Bool
  is_stale updates n i none = false
  is_stale updates n i (some inst) =
      p.ip_equal host_ip inst.host.ip && not (is_set (GoMap.lookup (key_of n i) updates))

  stays_or_goes :
      (b : Bool) (name inst : String) (si : SetInstances) (n i : String)
      → instance_at (if b then si else remove_instance (key_of name inst) si).store n i
        ≡ (if not b && ((name == n) && (inst == i)) then none else instance_at si.store n i)
  unfolding remove_instance
  stays_or_goes true name inst si n i = refl
  stays_or_goes false name inst si n i = (instance_at-remove_instance name inst si.store n i).0

  prune_instances-at :
      (updates : Map InstanceKey (Option Instance)) (name : String) (m : Map String Instance)
      (si : SetInstances) (n i : String)
      → Unique m
      → instance_at (prune_instances p host_ip updates name m si).store n i ≡ (
          if (name == n) && is_stale updates n i (GoMap.lookup i m)
          then none
          else instance_at si.store n i)
  unfolding prune_instances GoMap.lookup GoMap.has
  prune_instances-at updates name [] si n i u = ground arith
  prune_instances-at updates name ((inst_name, inst) ∷ m) si n i u =
      let stays =
        not (p.ip_equal host_ip inst.host.ip)
        || is_set (GoMap.lookup (key_of name inst_name) updates) in
      prune_instances-at updates name m
        (if stays then si else remove_instance (key_of name inst_name) si) n i u.1
      ∙ ground (
        arith,
        stays_or_goes stays name inst_name si n i,
        u.0,
        string_eq.beq_iff name n,
        string_eq.beq_iff inst_name i,
      )

  -- The same for the services of a reset.
  abbrev pub stale_in :
      Map InstanceKey (Option Instance) → String → String → Option ServiceInfo → Bool
  stale_in updates n i none = false
  stale_in updates n i (some info) = is_stale updates n i (GoMap.lookup i info.instances)

  pub prune_services-at :
      (updates : Map InstanceKey (Option Instance)) (svcs : Map String ServiceInfo)
      (si : SetInstances) (n i : String)
      → Unique svcs
      → AllEntries (λ name (info : ServiceInfo). Unique info.instances) svcs
      → instance_at (prune_services p host_ip updates svcs si).store n i
        ≡ (if stale_in updates n i (GoMap.lookup n svcs) then none else instance_at si.store n i)
  unfolding prune_services GoMap.lookup GoMap.has
  prune_services-at updates [] si n i u a = refl
  prune_services-at updates ((name, svc) ∷ svcs) si n i u a =
      prune_services-at updates svcs (prune_instances p host_ip updates name svc.instances si) n i
        u.1 a.1
      ∙ ground (
        arith,
        prune_instances-at updates name svc.instances si n i a.0,
        u.0,
        string_eq.beq_iff name n,
      )
