-- ===== src/Store/InMem/Notifies/Deletes.antt =====
-- About the notices of a call that a service is deleted.
use ambergreen.Common.{
  ℕ, String, ◌≡◌, refl, sym, ap, ◌∙◌, subst, Bool, true, false, ◌||◌, ◌&&◌, none, List, [], ◌∷◌,
  ◌++◌, ok, inl, inr, Bool-cases, Option-cases, ok-injective, ◌==◌, string_eq, if◌then◌else◌, arith,
}
use ambergreen.GoMap
use ambergreen.GoMap.{Map, keys, contains}
use ambergreen.Net.{IpPort, ip_port_eq}
use ambergreen.Store.Data.{
  HostChange, ContainerRule, Instance, IngressInstance, ServiceChange, QueryServiceOptions,
}
use ambergreen.Store.InMemState.{
  InMem, Notice, service_notice, host_notice, error_notice, service_watcher, fire_service_change,
  fire_host_change, service_notices, host_notices, with_rule_changes, with_instance_changes,
  with_ingress_instance_changes, every_watcher, Watcher,
}
use ambergreen.Store.InMem
use ambergreen.Store.InMem.{map_at}
use ambergreen.Store.InMem.Session
use ambergreen.Store.InMem.Calls.{
  Call, add_service, remove_service, remove_all_services, set_container_rule, remove_container_rule,
  add_instance, remove_instance, add_ingress_instance, remove_ingress_instance, register_host,
  deregister_host, heartbeat, end_session, perform,
}
use ambergreen.Store.InMem.Notifies.EachCall.{is_kept}

-- The changes of services among notices.
abbrev pub changes_of : List Notice → List ServiceChange
changes_of [] = []
changes_of (service_notice w c ∷ ns) = c ∷ changes_of ns
changes_of (host_notice w c ∷ ns) = changes_of ns
changes_of (error_notice w x ∷ ns) = changes_of ns

-- Whether one of the changes is about the service, and whether the last such one is its deletion.
abbrev pub awaits : String → List ServiceChange → Bool
awaits name [] = false
awaits name (c ∷ cs) = (c.name == name) || awaits name cs

abbrev pub goes : String → List ServiceChange → Bool
goes name [] = false
goes name (c ∷ cs) = if awaits name cs then goes name cs else (c.name == name) && c.service_deleted

abbrev watchers_of : InMem → List Watcher
watchers_of s = s.watchers

abbrev sent_of : InMem → List Notice
sent_of s = s.sent

lookup-remove_services :
    (name : String) (ns : List String) (s : InMem)
    → GoMap.lookup name (InMem.remove_services ns s).services
      ≡ (if contains name ns then none else GoMap.lookup name s.services)
unfolding InMem.remove_services InMem.remove_service fire_service_change contains
lookup-remove_services name [] s = refl
lookup-remove_services name (n ∷ ns) s = ground (
  arith,
  lookup-remove_services name ns (InMem.remove_service n s).0,
  GoMap.lookup-delete n name s.services,
  string_eq.beq_iff n name,
)

lookup-remove_all_services :
    (name : String) (s : InMem) → GoMap.lookup name (InMem.remove_all_services s).0.services ≡ none
unfolding InMem.remove_all_services
lookup-remove_all_services name s =
    ground
      (arith, lookup-remove_services name (keys s.services) s, GoMap.contains-keys name s.services)

module _ (w : ℕ) (opts : QueryServiceOptions) (name : String) where
  one_goes :
      (n : String) (deleted : Bool) (filter : QueryServiceOptions → Bool) (s : InMem)
      → s.watchers ≡ service_watcher w opts ∷ []
      → goes name (
          changes_of
            (service_notices (record { name = n; service_deleted = deleted }) filter s.watchers))
        ≡ (filter opts && ((n == name) && deleted))
  unfolding service_notices
  one_goes n deleted filter s h = rw h (by_filter (filter opts))
    where
      by_filter :
          (b : Bool)
          → goes name (
              changes_of (
                if b
                then service_notice w (record { name = n; service_deleted = deleted }) ∷ []
                else []))
            ≡ (b && ((n == name) && deleted))
      by_filter true = refl
      by_filter false = refl

  -- The watchers stay, and a service whose deletion is told last is not there.
  abbrev pub Tells : InMem → InMem → Type 0
  Tells s t =
      (t.watchers ≡ s.watchers)
      × (goes name (changes_of t.sent) ≡ true → GoMap.lookup name t.services ≡ none)

  module _ (s : InMem) (h : s.watchers ≡ service_watcher w opts ∷ []) (empty : s.sent ≡ []) where
    silent : (t : InMem) → t.watchers ≡ s.watchers → t.sent ≡ s.sent → Tells s t
    silent t same e = (same, λ g. absurd (ground (arith, rw (e ∙ empty) at g)))

    changes :
        (n : String) (filter : QueryServiceOptions → Bool) (u : InMem)
        → u.watchers ≡ s.watchers
        → u.sent ≡ s.sent
        → Tells s (fire_service_change n false filter u)
    unfolding fire_service_change
    changes n filter u same e =
        let fired =
          service_notices (record { name = n; service_deleted = false }) filter u.watchers in
        let all : u.sent ++ fired ≡ fired = ap (λ l. l ++ fired) (e ∙ empty) in
        (same, λ g. absurd (ground (arith, one_goes n false filter u (same ∙ h), rw all at g)))

    hosts :
        (ev : HostChange) (t : InMem)
        → t.watchers ≡ s.watchers
        → t.sent ≡ s.sent ++ host_notices ev s.watchers
        → Tells s t
    unfolding host_notices
    hosts ev t same all =
        let none_sent : t.sent ≡ [] =
          all ∙ ap (λ l. l ++ host_notices ev s.watchers) empty ∙ ap (host_notices ev) h in
        (same, λ g. absurd (ground (arith, rw none_sent at g)))

    rule_set :
        (n rule : String) (spec : ContainerRule)
        → Tells s (InMem.set_container_rule n rule spec s).0
    unfolding InMem.set_container_rule
    rule_set n rule spec = elim (Bool-cases (GoMap.has n s.group_specs)) [
      | inl there ↦
          rw (there, InMem.set_container_rule)
            (changes n with_rule_changes
              (record s { group_specs = GoMap.modify n (GoMap.insert rule spec) s.group_specs })
              refl refl)
      | inr missing ↦ rw (missing, InMem.set_container_rule) (silent s refl refl)
    ]

    rule_removed : (n rule : String) → Tells s (InMem.remove_container_rule n rule s).0
    unfolding InMem.remove_container_rule
    rule_removed n rule = elim (Bool-cases (GoMap.has n s.group_specs)) [
      | inl there ↦
          rw (there, InMem.remove_container_rule)
            (changes n with_rule_changes
              (record s { group_specs = GoMap.modify n (GoMap.delete rule) s.group_specs }) refl
              refl)
      | inr missing ↦ rw (missing, InMem.remove_container_rule) (silent s refl refl)
    ]

    instance_removed : (n inst : String) → Tells s (InMem.remove_instance n inst s).0
    unfolding InMem.remove_instance
    instance_removed n inst = elim (Bool-cases (GoMap.has inst (map_at n s.instances))) [
      | inl there ↦
          rw (there, InMem.remove_instance)
            (changes n with_instance_changes
              (record s { instances = GoMap.modify n (GoMap.delete inst) s.instances }) refl refl)
      | inr missing ↦ rw (missing, InMem.remove_instance) (silent s refl refl)
    ]

    ingress_removed :
        (n : String) (addr : IpPort) → Tells s (InMem.remove_ingress_instance n addr s).0
    unfolding InMem.remove_ingress_instance
    ingress_removed n addr = elim (Bool-cases (GoMap.has addr (map_at n s.ingress_instances))) [
      | inl there ↦
          rw (there, InMem.remove_ingress_instance)
            (changes n with_ingress_instance_changes
              (record s {
                ingress_instances = GoMap.modify n (GoMap.delete addr) s.ingress_instances;
              })
              refl refl)
      | inr missing ↦ rw (missing, InMem.remove_ingress_instance) (silent s refl refl)
    ]

    instance_added :
        (session n inst : String) (details : Instance) (t : InMem)
        → perform (add_instance session n inst details) s ≡ ok t
        → Tells s t
    unfolding perform InMem.add_instance
    instance_added session n inst details t e = elim (Option-cases (GoMap.lookup n s.instances)) [
      | inl q ↦ absurd (ground (arith, e, q))
      | inr (insts, q) ↦ subst (Tells s) (ok-injective (rw (q, InMem.add_instance) at e)) (
          changes n with_instance_changes
            (record s {
              instances =
                  GoMap.insert n
                    (GoMap.insert inst (record { details = details; session = session }) insts)
                    s.instances;
            })
            refl refl)
    ]

    ingress_added :
        (session n : String) (addr : IpPort) (details : IngressInstance) (t : InMem)
        → perform (add_ingress_instance session n addr details) s ≡ ok t
        → Tells s t
    unfolding perform InMem.add_ingress_instance
    ingress_added session n addr details t e =
        elim (Option-cases (GoMap.lookup n s.ingress_instances)) [
          | inl q ↦ absurd (ground (arith, e, q))
          | inr (insts, q) ↦
              subst (Tells s) (ok-injective (rw (q, InMem.add_ingress_instance) at e)) (
                changes n with_ingress_instance_changes
                  (record s {
                    ingress_instances =
                        GoMap.insert n
                          (GoMap.insert addr (record { details = details; session = session })
                            insts)
                          s.ingress_instances;
                  })
                  refl refl)
        ]

    service_removed : (n : String) → Tells s (InMem.remove_service n s).0
    unfolding InMem.remove_service fire_service_change
    service_removed n =
        let fired =
          service_notices (record { name = n; service_deleted = true }) every_watcher s.watchers in
        let all : s.sent ++ fired ≡ fired = ap (λ l. l ++ fired) empty in
        (
          refl,
          λ g. ground (
            arith,
            one_goes n true every_watcher s h,
            rw all at g,
            GoMap.lookup-delete n name s.services,
          ),
        )

    removed-watchers :
        (ns : List String) (u : InMem) → (InMem.remove_services ns u).watchers ≡ u.watchers
    unfolding InMem.remove_services InMem.remove_service fire_service_change
    removed-watchers [] u = refl
    removed-watchers (n ∷ ns) u = removed-watchers ns (InMem.remove_service n u).0

    -- When a call other than the end of a session has not panicked, on a store with the one watcher, the
    -- watchers stay; and where the last notice about a service is that it is deleted, it is not there.
    pub perform-Tells : (c : Call) (t : InMem) → perform c s ≡ ok t → is_kept c ≡ true → Tells s t
    unfolding perform InMem.add_service InMem.remove_all_services Session.register_host
        Session.deregister_host Session.heartbeat fire_host_change
    perform-Tells (add_service n svc) t e k = subst (Tells s) (ok-injective e) (
        changes n every_watcher
          (record s {
            services = GoMap.insert n svc s.services;
            group_specs = GoMap.insert n [] s.group_specs;
            instances = GoMap.insert n [] s.instances;
            ingress_instances = GoMap.insert n [] s.ingress_instances;
          })
          refl refl)
    perform-Tells (remove_service n) t e k = subst (Tells s) (ok-injective e) (service_removed n)
    perform-Tells remove_all_services t e k =
        subst (Tells s) (ok-injective e)
          (removed-watchers (keys s.services) s, λ g. lookup-remove_all_services name s)
    perform-Tells (set_container_rule n rule spec) t e k =
        subst (Tells s) (ok-injective e) (rule_set n rule spec)
    perform-Tells (remove_container_rule n rule) t e k =
        subst (Tells s) (ok-injective e) (rule_removed n rule)
    perform-Tells (add_instance session n inst details) t e k =
        instance_added session n inst details t e
    perform-Tells (remove_instance n inst) t e k =
        subst (Tells s) (ok-injective e) (instance_removed n inst)
    perform-Tells (add_ingress_instance session n addr details) t e k =
        ingress_added session n addr details t e
    perform-Tells (remove_ingress_instance n addr) t e k =
        subst (Tells s) (ok-injective e) (ingress_removed n addr)
    perform-Tells (register_host session identity details) t e k =
        hosts (record { name = identity; host_departed = false }) t
          (ap watchers_of (sym (ok-injective e))) (ap sent_of (sym (ok-injective e)))
    perform-Tells (deregister_host identity) t e k =
        hosts (record { name = identity; host_departed = true }) t
          (ap watchers_of (sym (ok-injective e))) (ap sent_of (sym (ok-injective e)))
    perform-Tells (heartbeat session ttl) t e k =
        silent t (ap watchers_of (sym (ok-injective e))) (ap sent_of (sym (ok-injective e)))
    perform-Tells (end_session session) t e k = cc
