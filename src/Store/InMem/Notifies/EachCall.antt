-- ===== src/Store/InMem/Notifies/EachCall.antt =====
-- About the answers for the services that no notice of a call is about, call by call.
use ambergreen.Common.{
  ℕ, String, ◌≡◌, refl, sym, ◌∙◌, subst, Bool, true, false, List, [], ◌∷◌, ok, ok-injective, ◌==◌,
  string_eq, arith,
}
use ambergreen.GoMap
use ambergreen.GoMap.{Map, keys}
use ambergreen.Net.{ip_port_eq}
use ambergreen.Store.Data.{Service, QueryServiceOptions}
use ambergreen.Store.InMemState.{
  InMem, every_watcher, service_watcher, fire_service_change, fire_host_change,
}
use ambergreen.Store.InMem
use ambergreen.Store.InMem.{map_at, get_service, make_service_info, details_of}
use ambergreen.Store.InMem.Session
use ambergreen.Store.InMem.Calls.{
  Call, add_service, remove_service, remove_all_services, set_container_rule, remove_container_rule,
  add_instance, remove_instance, add_ingress_instance, remove_ingress_instance, register_host,
  deregister_host, heartbeat, end_session, perform,
}
use ambergreen.Store.InMem.Notifies.Parts.{
  instance_added, instance_removed, ingress_added, ingress_removed, rule_set, rule_removed,
}
use ambergreen.Store.InMem.Notifies.{
  mentions, mentions-append, not_mentioned, get_service-same, Silent,
}

-- The call is not the end of a session.
abbrev pub is_kept : Call → Bool
is_kept (end_session session) = false
is_kept c = true

module _ (w : ℕ) (opts : QueryServiceOptions) (name : String) where
  service_added :
      (n : String) (svc : Service) (s : InMem) → Silent w opts name s (InMem.add_service n svc s).0
  unfolding InMem.add_service fire_service_change
  service_added n svc s h silent =
      let other : (n == name) ≡ false =
        not_mentioned w opts name n false every_watcher s h silent in
      get_service-same w opts name s (InMem.add_service n svc s).0
        (ground (arith, other, GoMap.lookup-insert n name svc s.services))
        (λ asked. ground (arith, other, GoMap.lookup-insert n name [] s.instances))
        (λ asked. ground (arith, other, GoMap.lookup-insert n name [] s.group_specs))
        (λ asked. ground (arith, other, GoMap.lookup-insert n name [] s.ingress_instances)) refl

  service_removed : (n : String) (s : InMem) → Silent w opts name s (InMem.remove_service n s).0
  unfolding InMem.remove_service fire_service_change
  service_removed n s h silent =
      let other : (n == name) ≡ false = not_mentioned w opts name n true every_watcher s h silent in
      get_service-same w opts name s (InMem.remove_service n s).0
        (ground (arith, other, GoMap.lookup-delete n name s.services))
        (λ asked. ground (arith, other, GoMap.lookup-delete n name s.instances))
        (λ asked. ground (arith, other, GoMap.lookup-delete n name s.group_specs))
        (λ asked. ground (arith, other, GoMap.lookup-delete n name s.ingress_instances)) refl

  sent_before :
      (ns : List String) (s : InMem)
      → mentions name (InMem.remove_services ns s).sent ≡ false
      → mentions name s.sent ≡ false
  unfolding InMem.remove_services InMem.remove_service fire_service_change
  sent_before [] s silent = silent
  sent_before (n ∷ ns) s silent =
      let parts =
        sym (mentions-append name s.sent _) ∙ sent_before ns (InMem.remove_service n s).0 silent in
      ground (arith, parts)

  services_removed :
      (ns : List String) (s : InMem) → Silent w opts name s (InMem.remove_services ns s)
  unfolding InMem.remove_services InMem.remove_service fire_service_change
  services_removed [] s h silent = refl
  services_removed (n ∷ ns) s h silent =
      let t = (InMem.remove_service n s).0 in
      services_removed ns t h silent ∙ service_removed n s h (sent_before ns t silent)

  -- When a call other than the end of a session has not panicked, and no notice to the one watcher of
  -- the services, which asks with some options, is about a service, then GetService with these options
  -- answers for that service as it did before the call.
  pub perform-keeps :
      (c : Call) (s t : InMem)
      → perform c s ≡ ok t
      → is_kept c ≡ true
      → s.watchers ≡ service_watcher w opts ∷ []
      → mentions name t.sent ≡ false
      → get_service name opts t ≡ get_service name opts s
  unfolding perform InMem.remove_all_services get_service make_service_info Session.register_host
      Session.deregister_host Session.heartbeat fire_host_change
  perform-keeps (add_service n svc) s t e k =
      subst (Silent w opts name s) (ok-injective e) (service_added n svc s)
  perform-keeps (remove_service n) s t e k =
      subst (Silent w opts name s) (ok-injective e) (service_removed n s)
  perform-keeps remove_all_services s t e k =
      subst (Silent w opts name s) (ok-injective e) (services_removed (keys s.services) s)
  perform-keeps (set_container_rule n rule spec) s t e k =
      subst (Silent w opts name s) (ok-injective e) (rule_set w opts name n rule spec s)
  perform-keeps (remove_container_rule n rule) s t e k =
      subst (Silent w opts name s) (ok-injective e) (rule_removed w opts name n rule s)
  perform-keeps (add_instance session n inst details) s t e k =
      instance_added w opts name session n inst details s t e
  perform-keeps (remove_instance n inst) s t e k =
      subst (Silent w opts name s) (ok-injective e) (instance_removed w opts name n inst s)
  perform-keeps (add_ingress_instance session n addr details) s t e k =
      ingress_added w opts name session n addr details s t e
  perform-keeps (remove_ingress_instance n addr) s t e k =
      subst (Silent w opts name s) (ok-injective e) (ingress_removed w opts name n addr s)
  perform-keeps (register_host session identity details) s t e k =
      subst (Silent w opts name s) (ok-injective e) (λ h silent. refl)
  perform-keeps (deregister_host identity) s t e k =
      subst (Silent w opts name s) (ok-injective e) (λ h silent. refl)
  perform-keeps (heartbeat session ttl) s t e k =
      subst (Silent w opts name s) (ok-injective e) (λ h silent. refl)
  perform-keeps (end_session session) s t e k = cc
