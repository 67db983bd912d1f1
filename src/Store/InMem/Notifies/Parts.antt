-- ===== src/Store/InMem/Notifies/Parts.antt =====
-- About the calls that write the rules and the instances of one service.
use ambergreen.Common.{
  ℕ, String, ◌≡◌, refl, subst, false, Option, none, some, Run, ok, panic, ◌>>=◌, ok-injective,
  string_eq, arith, inl, inr, Bool-cases,
}
use ambergreen.GoMap
use ambergreen.GoMap.{Map, keys}
use ambergreen.Net.{IpPort, ip_port_eq}
use ambergreen.Store.Data.{Instance, IngressInstance, ContainerRule, QueryServiceOptions}
use ambergreen.Store.InMemState.{
  InMem, Sessioned, with_rule_changes, with_instance_changes, with_ingress_instance_changes,
  fire_service_change,
}
use ambergreen.Store.InMem
use ambergreen.Store.InMem.{map_at, get_service, make_service_info, details_of}
use ambergreen.Store.InMem.Calls.{add_instance, add_ingress_instance, perform}
use ambergreen.Store.InMem.Notifies.{not_mentioned, get_service-same, Silent}

module _ (w : ℕ) (opts : QueryServiceOptions) (name : String) where
  pub instance_added :
      (session n inst : String) (details : Instance) (s t : InMem)
      → perform (add_instance session n inst details) s ≡ ok t
      → Silent w opts name s t
  unfolding perform InMem.add_instance fire_service_change
  instance_added session n inst details s t e = found (GoMap.lookup n s.instances) refl e
    where
      write : Map String (Sessioned Instance) → InMem
      write insts = fire_service_change n false with_instance_changes (record s {
        instances =
            GoMap.insert n
              (GoMap.insert inst (record { details = details; session = session }) insts)
              s.instances;
      })

      found :
          (o : Option (Map String (Sessioned Instance)))
          → GoMap.lookup n s.instances ≡ o
          → ((elim o as (λ _. Run InMem.Reply) [
            | none ↦ panic
            | some insts ↦ ok (write insts, s.injected_error)
          ])
              >>= λ (t, err). ok t)
            ≡ ok t
          → Silent w opts name s t
      found none q e = absurd (ground (arith, e))
      found (some insts) q e = subst (Silent w opts name s) (ok-injective e) (λ h silent.
          let off = not_mentioned w opts name n false with_instance_changes s h silent in
          get_service-same w opts name s (write insts) refl
            (λ asked. ground (
              arith,
              off,
              asked,
              GoMap.lookup-insert n name
                  (GoMap.insert inst (record { details = details; session = session }) insts)
                  s.instances,
            ))
            (λ asked. refl) (λ asked. refl) refl)

  pub instance_removed :
      (n inst : String) (s : InMem) → Silent w opts name s (InMem.remove_instance n inst s).0
  unfolding InMem.remove_instance fire_service_change
  instance_removed n inst s = elim (Bool-cases (GoMap.has inst (map_at n s.instances))) [
    | inl there ↦
        rw (there, InMem.remove_instance)
          (λ h silent.
            let off = not_mentioned w opts name n false with_instance_changes s h silent in
            get_service-same w opts name s
              (fire_service_change n false with_instance_changes
                (record s { instances = GoMap.modify n (GoMap.delete inst) s.instances }))
              refl
              (λ asked.
                ground
                  (arith, off, asked, GoMap.lookup-modify n name (GoMap.delete inst) s.instances))
              (λ asked. refl) (λ asked. refl) refl)
    | inr missing ↦ rw (missing, InMem.remove_instance) (λ h silent. refl)
  ]

  pub ingress_added :
      (session n : String) (addr : IpPort) (details : IngressInstance) (s t : InMem)
      → perform (add_ingress_instance session n addr details) s ≡ ok t
      → Silent w opts name s t
  unfolding perform InMem.add_ingress_instance fire_service_change
  ingress_added session n addr details s t e = found (GoMap.lookup n s.ingress_instances) refl e
    where
      write : Map IpPort (Sessioned IngressInstance) → InMem
      write insts = fire_service_change n false with_ingress_instance_changes (record s {
        ingress_instances =
            GoMap.insert n
              (GoMap.insert addr (record { details = details; session = session }) insts)
              s.ingress_instances;
      })

      found :
          (o : Option (Map IpPort (Sessioned IngressInstance)))
          → GoMap.lookup n s.ingress_instances ≡ o
          → ((elim o as (λ _. Run InMem.Reply) [
            | none ↦ panic
            | some insts ↦ ok (write insts, s.injected_error)
          ])
              >>= λ (t, err). ok t)
            ≡ ok t
          → Silent w opts name s t
      found none q e = absurd (ground (arith, e))
      found (some insts) q e = subst (Silent w opts name s) (ok-injective e) (λ h silent.
          let off = not_mentioned w opts name n false with_ingress_instance_changes s h silent in
          get_service-same w opts name s (write insts) refl (λ asked. refl) (λ asked. refl)
            (λ asked. ground (
              arith,
              off,
              asked,
              GoMap.lookup-insert n name
                  (GoMap.insert addr (record { details = details; session = session }) insts)
                  s.ingress_instances,
            ))
            refl)

  pub ingress_removed :
      (n : String) (addr : IpPort) (s : InMem)
      → Silent w opts name s (InMem.remove_ingress_instance n addr s).0
  unfolding InMem.remove_ingress_instance fire_service_change
  ingress_removed n addr s = elim (Bool-cases (GoMap.has addr (map_at n s.ingress_instances))) [
    | inl there ↦
        rw (there, InMem.remove_ingress_instance)
          (λ h silent.
            let off = not_mentioned w opts name n false with_ingress_instance_changes s h silent in
            get_service-same w opts name s
              (fire_service_change n false with_ingress_instance_changes (record s {
                ingress_instances = GoMap.modify n (GoMap.delete addr) s.ingress_instances;
              }))
              refl (λ asked. refl) (λ asked. refl)
              (λ asked. ground (
                arith,
                off,
                asked,
                GoMap.lookup-modify n name (GoMap.delete addr) s.ingress_instances,
              ))
              refl)
    | inr missing ↦ rw (missing, InMem.remove_ingress_instance) (λ h silent. refl)
  ]

  pub rule_set :
      (n rule : String) (spec : ContainerRule) (s : InMem)
      → Silent w opts name s (InMem.set_container_rule n rule spec s).0
  unfolding InMem.set_container_rule fire_service_change
  rule_set n rule spec s = elim (Bool-cases (GoMap.has n s.group_specs)) [
    | inl there ↦
        rw (there, InMem.set_container_rule)
          (λ h silent.
            let off = not_mentioned w opts name n false with_rule_changes s h silent in
            get_service-same w opts name s
              (fire_service_change n false with_rule_changes
                (record s { group_specs = GoMap.modify n (GoMap.insert rule spec) s.group_specs }))
              refl (λ asked. refl)
              (λ asked. ground (
                arith,
                off,
                asked,
                GoMap.lookup-modify n name (GoMap.insert rule spec) s.group_specs,
              ))
              (λ asked. refl) refl)
    | inr missing ↦ rw (missing, InMem.set_container_rule) (λ h silent. refl)
  ]

  pub rule_removed :
      (n rule : String) (s : InMem) → Silent w opts name s (InMem.remove_container_rule n rule s).0
  unfolding InMem.remove_container_rule fire_service_change
  rule_removed n rule s = elim (Bool-cases (GoMap.has n s.group_specs)) [
    | inl there ↦
        rw (there, InMem.remove_container_rule)
          (λ h silent.
            let off = not_mentioned w opts name n false with_rule_changes s h silent in
            get_service-same w opts name s
              (fire_service_change n false with_rule_changes
                (record s { group_specs = GoMap.modify n (GoMap.delete rule) s.group_specs }))
              refl (λ asked. refl)
              (λ asked.
                ground
                  (arith, off, asked, GoMap.lookup-modify n name (GoMap.delete rule) s.group_specs))
              (λ asked. refl) refl)
    | inr missing ↦ rw (missing, InMem.remove_container_rule) (λ h silent. refl)
  ]
