-- ===== src/Store/InMem/Aligned.antt =====
-- About the keys of the four maps of the store that are keyed by services.
use ambergreen.Common.{
  String, ◌≡◌, refl, sym, ap, ◌∙◌, Bool, true, false, Option, none, some, List, [], ◌∷◌, Run, ok,
  panic, >>=-eq-ok, ok-injective, string_eq, arith, subst,
}
use ambergreen.GoMap
use ambergreen.GoMap.{Map, keys}
use ambergreen.Net.{IpPort, ip_port_eq}
use ambergreen.Store.Data.{ContainerRule, Service, Instance, IngressInstance}
use ambergreen.Store.InMemState.{Sessioned, InMem}
use ambergreen.Store.InMem
use ambergreen.Store.InMem.{Reply}
use ambergreen.Store.InMem.Session
use ambergreen.Store.InMem.Ending.{end_session-Ended}
use ambergreen.Store.InMem.Calls.{
  Call, add_service, remove_service, remove_all_services, set_container_rule, remove_container_rule,
  add_instance, remove_instance, add_ingress_instance, remove_ingress_instance, register_host,
  deregister_host, heartbeat, end_session, perform, IsAligned, adds_to_missing,
}

-- The four maps of `t` have the keys that those of `s` have.
record SameKeys (s t : InMem) (j : String) : Type 0 where
  services : GoMap.has j t.services ≡ GoMap.has j s.services
  rules : GoMap.has j t.group_specs ≡ GoMap.has j s.group_specs
  instances : GoMap.has j t.instances ≡ GoMap.has j s.instances
  ingress : GoMap.has j t.ingress_instances ≡ GoMap.has j s.ingress_instances

SameKeys-IsAligned : (s t : InMem) → ((j : String) → SameKeys s t j) → IsAligned s → IsAligned t
SameKeys-IsAligned s t same h j =
    let k = same j in
    record {
      rules = k.rules ∙ (h j).rules ∙ sym k.services;
      instances = k.instances ∙ (h j).instances ∙ sym k.services;
      ingress_instances = k.ingress ∙ (h j).ingress_instances ∙ sym k.services;
    }

add_service-IsAligned :
    (name : String) (svc : Service) (s : InMem)
    → IsAligned s
    → IsAligned (InMem.add_service name svc s).0
unfolding InMem.add_service
add_service-IsAligned name svc s h j =
    let a = h j in
    ground (
      arith,
      a.rules,
      a.instances,
      a.ingress_instances,
      GoMap.has-insert name j svc s.services,
      GoMap.has-insert name j [] s.group_specs,
      GoMap.has-insert name j [] s.instances,
      GoMap.has-insert name j [] s.ingress_instances,
    )

remove_service-IsAligned :
    (name : String) (s : InMem) → IsAligned s → IsAligned (InMem.remove_service name s).0
unfolding InMem.remove_service
remove_service-IsAligned name s h j =
    let a = h j in
    ground (
      arith,
      a.rules,
      a.instances,
      a.ingress_instances,
      GoMap.has-delete name j s.services,
      GoMap.has-delete name j s.group_specs,
      GoMap.has-delete name j s.instances,
      GoMap.has-delete name j s.ingress_instances,
    )

remove_services-IsAligned :
    (names : List String) (s : InMem) → IsAligned s → IsAligned (InMem.remove_services names s)
unfolding InMem.remove_services
remove_services-IsAligned [] s h = h
remove_services-IsAligned (name ∷ names) s h =
    remove_services-IsAligned names (InMem.remove_service name s).0
      (remove_service-IsAligned name s h)

-- A write below a key that is there.
has-insert_known :
    {V : Type 0} (k j : String) (v w : V) (m : Map String V)
    → GoMap.lookup k m ≡ some w
    → GoMap.has j (GoMap.insert k v m) ≡ GoMap.has j m
unfolding GoMap.has
has-insert_known k j v w m h = ground (arith, GoMap.lookup-insert k j v m, string_eq.beq_iff k j)

set_rule-SameKeys :
    (name rule : String) (spec : ContainerRule) (s : InMem) (j : String)
    → SameKeys s (InMem.set_container_rule name rule spec s).0 j
unfolding InMem.set_container_rule
set_rule-SameKeys name rule spec s j =
    ground (arith, GoMap.has-modify name j (GoMap.insert rule spec) s.group_specs)

remove_rule-SameKeys :
    (name rule : String) (s : InMem) (j : String)
    → SameKeys s (InMem.remove_container_rule name rule s).0 j
unfolding InMem.remove_container_rule
remove_rule-SameKeys name rule s j =
    ground (arith, GoMap.has-modify name j (GoMap.delete rule) s.group_specs)

remove_instance-SameKeys :
    (name inst : String) (s : InMem) (j : String)
    → SameKeys s (InMem.remove_instance name inst s).0 j
unfolding InMem.remove_instance
remove_instance-SameKeys name inst s j =
    ground (arith, GoMap.has-modify name j (GoMap.delete inst) s.instances)

remove_ingress-SameKeys :
    (name : String) (addr : IpPort) (s : InMem) (j : String)
    → SameKeys s (InMem.remove_ingress_instance name addr s).0 j
unfolding InMem.remove_ingress_instance
remove_ingress-SameKeys name addr s j =
    ground (arith, GoMap.has-modify name j (GoMap.delete addr) s.ingress_instances)

add_instance-SameKeys :
    (session name inst : String) (details : Instance) (s : InMem) (r : Reply) (j : String)
    → InMem.add_instance session name inst details s ≡ ok r
    → SameKeys s r.0 j
unfolding InMem.add_instance
add_instance-SameKeys session name inst details s r j e = found (GoMap.lookup name s.instances) refl
  where
    found :
        (o : Option (Map String (Sessioned Instance)))
        → GoMap.lookup name s.instances ≡ o
        → SameKeys s r.0 j
    found none q = absurd (ground (arith, q, e))
    found (some insts) q = ground (
      arith,
      q,
      e,
      has-insert_known name j
          (GoMap.insert inst (record { details = details; session = session }) insts) insts
          s.instances q,
    )

add_ingress-SameKeys :
    (session name : String) (addr : IpPort) (details : IngressInstance) (s : InMem) (r : Reply)
    (j : String)
    → InMem.add_ingress_instance session name addr details s ≡ ok r
    → SameKeys s r.0 j
unfolding InMem.add_ingress_instance
add_ingress-SameKeys session name addr details s r j e =
    found (GoMap.lookup name s.ingress_instances) refl
  where
    found :
        (o : Option (Map IpPort (Sessioned IngressInstance)))
        → GoMap.lookup name s.ingress_instances ≡ o
        → SameKeys s r.0 j
    found none q = absurd (ground (arith, q, e))
    found (some insts) q = ground (
      arith,
      q,
      e,
      has-insert_known name j
          (GoMap.insert addr (record { details = details; session = session }) insts) insts
          s.ingress_instances q,
    )

end_session-SameKeys :
    (session : String) (s : InMem) (j : String) → SameKeys s (Session.end_session session s) j
end_session-SameKeys session s j =
    let e = end_session-Ended session s in
    record {
      services = ap (GoMap.has j) e.services;
      rules = ap (GoMap.has j) e.group_specs;
      instances = e.instance_keys j;
      ingress = e.ingress_keys j;
    }

-- Every call that returns keeps the four maps of the store aligned.
pub perform-IsAligned : (c : Call) (s t : InMem) → IsAligned s → perform c s ≡ ok t → IsAligned t
unfolding perform Session.register_host Session.deregister_host Session.heartbeat
    InMem.remove_all_services
perform-IsAligned (add_service name svc) s t h e =
    subst IsAligned (ok-injective e) (add_service-IsAligned name svc s h)
perform-IsAligned (remove_service name) s t h e =
    subst IsAligned (ok-injective e) (remove_service-IsAligned name s h)
perform-IsAligned remove_all_services s t h e =
    subst IsAligned (ok-injective e) (remove_services-IsAligned (keys s.services) s h)
perform-IsAligned (set_container_rule name rule spec) s t h e =
    subst IsAligned (ok-injective e) (SameKeys-IsAligned s _ (set_rule-SameKeys name rule spec s) h)
perform-IsAligned (remove_container_rule name rule) s t h e =
    subst IsAligned (ok-injective e) (SameKeys-IsAligned s _ (remove_rule-SameKeys name rule s) h)
perform-IsAligned (add_instance session name inst details) s t h e =
    let (r, q, last) = >>=-eq-ok (InMem.add_instance session name inst details s) _ e in
    subst IsAligned (ok-injective last)
      (SameKeys-IsAligned s r.0 (λ j. add_instance-SameKeys session name inst details s r j q) h)
perform-IsAligned (remove_instance name inst) s t h e =
    subst IsAligned (ok-injective e)
      (SameKeys-IsAligned s _ (remove_instance-SameKeys name inst s) h)
perform-IsAligned (add_ingress_instance session name addr details) s t h e =
    let (r, q, last) = >>=-eq-ok (InMem.add_ingress_instance session name addr details s) _ e in
    subst IsAligned (ok-injective last)
      (SameKeys-IsAligned s r.0 (λ j. add_ingress-SameKeys session name addr details s r j q) h)
perform-IsAligned (remove_ingress_instance name addr) s t h e =
    subst IsAligned (ok-injective e)
      (SameKeys-IsAligned s _ (remove_ingress-SameKeys name addr s) h)
perform-IsAligned (register_host session identity details) s t h e =
    subst IsAligned (ok-injective e) (
      SameKeys-IsAligned s _
        (λ j. record { services = refl; rules = refl; instances = refl; ingress = refl }) h)
perform-IsAligned (deregister_host identity) s t h e = subst IsAligned (ok-injective e) (
    SameKeys-IsAligned s _
      (λ j. record { services = refl; rules = refl; instances = refl; ingress = refl }) h)
perform-IsAligned (heartbeat session ttl) s t h e = subst IsAligned (ok-injective e) (
    SameKeys-IsAligned s _
      (λ j. record { services = refl; rules = refl; instances = refl; ingress = refl }) h)
perform-IsAligned (end_session session) s t h e =
    subst IsAligned (ok-injective e) (SameKeys-IsAligned s _ (end_session-SameKeys session s) h)

abbrev pub panics {ℓ} : {A : Type ℓ} → Run A → Bool
panics (ok a) = false
panics panic = true

-- On an aligned store a call panics exactly where it adds an instance or an ingress instance to a
-- service that is not there.
pub perform-panics :
    (c : Call) (s : InMem) → IsAligned s → panics (perform c s) ≡ adds_to_missing c s
unfolding perform adds_to_missing InMem.add_instance InMem.add_ingress_instance GoMap.has
perform-panics (add_instance session name inst details) s h = ground (arith, (h name).instances)
perform-panics (add_ingress_instance session name addr details) s h =
    ground (arith, (h name).ingress_instances)
perform-panics (add_service name svc) s h = refl
perform-panics c s h = refl
