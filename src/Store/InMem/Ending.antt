-- ===== src/Store/InMem/Ending.antt =====
-- What the end of a session takes away, and what it leaves.
use ambergreen.Common.{
  String, ◌≡◌, refl, ap, ◌∙◌, true, false, Option, none, List, [], ◌∷◌, ◌==◌, string_eq, Eq,
  if◌then◌else◌, arith, inl, inr, Bool-cases,
}
use ambergreen.GoMap
use ambergreen.GoMap.{Map, keys, contains}
use ambergreen.Net.{IpPort, ip_port_eq}
use ambergreen.Store.Data.{Instance, IngressInstance}
use ambergreen.Store.InMemState.{
  Sessioned, InMem, fire_service_change, fire_host_change, with_instance_changes,
  with_ingress_instance_changes,
}
use ambergreen.Store.InMem.{map_at}
use ambergreen.Store.InMem.Session.{
  is_of, cull_names, cull, any_of, end_hosts, end_instances, end_ingress_instances, end_session,
}

-- The instance that the store holds for a service, under a name.
abbrev pub instance_at : InMem → String → String → Option (Sessioned Instance)
instance_at s name inst = GoMap.lookup inst (map_at name s.instances)

abbrev pub ingress_at : InMem → String → IpPort → Option (Sessioned IngressInstance)
ingress_at s name addr = GoMap.lookup addr (map_at name s.ingress_instances)

-- What is left of an entry when the session ends.
abbrev pub keep : {V : Type 0} → String → Option (Sessioned V) → Option (Sessioned V)
keep session o = if is_of session o then none else o

module _ {ℓ} {K : Type ℓ} ⦃e : Eq K⦄ {V : Type 0} where
  lookup-cull_names :
      (session : String) (k : K) (ks : List K) (m : Map K (Sessioned V))
      → GoMap.lookup k (cull_names session ks m)
        ≡ (if contains k ks then keep session (GoMap.lookup k m) else GoMap.lookup k m)
  unfolding cull_names contains
  lookup-cull_names session k [] m = refl
  lookup-cull_names session k (j ∷ ks) m = elim (Bool-cases (is_of session (GoMap.lookup j m))) [
    | inl mine ↦
        rw (mine, cull_names)
          (ground (
            arith,
            lookup-cull_names session k ks (GoMap.delete j m),
            GoMap.lookup-delete j k m,
            e.beq_iff j k,
            mine,
          ))
    | inr other ↦
        rw (other, cull_names)
          (ground (arith, lookup-cull_names session k ks m, e.beq_iff j k, other))
  ]

  pub lookup-cull :
      (session : String) (k : K) (m : Map K (Sessioned V))
      → GoMap.lookup k (cull session m) ≡ keep session (GoMap.lookup k m)
  unfolding cull
  lookup-cull session k m =
      ground (arith, lookup-cull_names session k (keys m) m, GoMap.contains-keys k m)

  cull_empty : (session : String) → cull {K = K} {V = V} session [] ≡ []
  unfolding cull cull_names
  cull_empty session = refl

pub map_at-modify :
    {V : Type 0} (name j : String) (f : List V → List V) (m : Map String (List V))
    → f [] ≡ []
    → map_at j (GoMap.modify name f m) ≡ (if name == j then f (map_at j m) else map_at j m)
map_at-modify name j f m h = ground (arith, GoMap.lookup-modify name j f m, h)

end_instances-instance_at :
    (session name inst : String) (m : Map String (Map String (Sessioned Instance))) (s : InMem)
    → instance_at (end_instances session m s) name inst ≡ (
        if contains name (keys m)
        then keep session (instance_at s name inst)
        else instance_at s name inst)
unfolding end_instances contains fire_service_change
end_instances-instance_at session name inst [] s = refl
end_instances-instance_at session name inst ((j, insts) ∷ m) s = ground (
  arith,
  end_instances-instance_at session name inst m culled,
  end_instances-instance_at session name inst m
      (fire_service_change j false with_instance_changes culled),
  map_at-modify j name (cull session) s.instances (cull_empty session),
  lookup-cull session inst (map_at name s.instances),
)
  where
    culled : InMem
    culled = record s { instances = GoMap.modify j (cull session) s.instances }

end_ingress-ingress_at :
    (session name : String) (addr : IpPort)
    (m : Map String (Map IpPort (Sessioned IngressInstance))) (s : InMem)
    → ingress_at (end_ingress_instances session m s) name addr ≡ (
        if contains name (keys m)
        then keep session (ingress_at s name addr)
        else ingress_at s name addr)
unfolding end_ingress_instances contains fire_service_change
end_ingress-ingress_at session name addr [] s = refl
end_ingress-ingress_at session name addr ((j, insts) ∷ m) s = ground (
  arith,
  end_ingress-ingress_at session name addr m culled,
  end_ingress-ingress_at session name addr m
      (fire_service_change j false with_ingress_instance_changes culled),
  map_at-modify j name (cull session) s.ingress_instances (cull_empty session),
  lookup-cull session addr (map_at name s.ingress_instances),
)
  where
    culled : InMem
    culled = record s { ingress_instances = GoMap.modify j (cull session) s.ingress_instances }

end_hosts-lookup :
    (session name : String) (names : List String) (s : InMem)
    → GoMap.lookup name (end_hosts session names s).hosts ≡ (
        if contains name names
        then keep session (GoMap.lookup name s.hosts)
        else GoMap.lookup name s.hosts)
unfolding end_hosts contains fire_host_change
end_hosts-lookup session name [] s = refl
end_hosts-lookup session name (j ∷ names) s = ground (
  arith,
  end_hosts-lookup session name names s,
  end_hosts-lookup session name names (fire_host_change j true gone),
  GoMap.lookup-delete j name s.hosts,
  string_eq.beq_iff j name,
)
  where
    gone : InMem
    gone = record s { hosts = GoMap.delete j s.hosts }

-- What no loop of EndSession touches.
abbrev Frame : InMem → InMem → Type 0
Frame s t =
    (t.services ≡ s.services)
    × (t.group_specs ≡ s.group_specs)
    × (t.heartbeat_timers ≡ s.heartbeat_timers)

end_hosts-Frame :
    (session : String) (names : List String) (s : InMem)
    → Frame s (end_hosts session names s)
      × ((end_hosts session names s).instances ≡ s.instances)
      × ((end_hosts session names s).ingress_instances ≡ s.ingress_instances)
unfolding end_hosts fire_host_change
end_hosts-Frame session [] s = ((refl, refl, refl), refl, refl)
end_hosts-Frame session (j ∷ names) s = elim (Bool-cases (is_of session (GoMap.lookup j s.hosts))) [
  | inl mine ↦
      rw (mine, end_hosts)
        (end_hosts-Frame session names
          (fire_host_change j true (record s { hosts = GoMap.delete j s.hosts })))
  | inr other ↦ rw (other, end_hosts) (end_hosts-Frame session names s)
]

end_instances-Frame :
    (session : String) (m : Map String (Map String (Sessioned Instance))) (s : InMem)
    → Frame s (end_instances session m s)
      × ((end_instances session m s).hosts ≡ s.hosts)
      × ((end_instances session m s).ingress_instances ≡ s.ingress_instances)
unfolding end_instances fire_service_change
end_instances-Frame session [] s = ((refl, refl, refl), refl, refl)
end_instances-Frame session ((j, insts) ∷ m) s =
    let culled : InMem = record s { instances = GoMap.modify j (cull session) s.instances } in
    elim (Bool-cases (any_of session insts)) [
      | inl some_gone ↦
          rw (some_gone, end_instances)
            (end_instances-Frame session m
              (fire_service_change j false with_instance_changes culled))
      | inr none_gone ↦ rw (none_gone, end_instances) (end_instances-Frame session m culled)
    ]

end_ingress-Frame :
    (session : String) (m : Map String (Map IpPort (Sessioned IngressInstance))) (s : InMem)
    → Frame s (end_ingress_instances session m s)
      × ((end_ingress_instances session m s).hosts ≡ s.hosts)
      × ((end_ingress_instances session m s).instances ≡ s.instances)
unfolding end_ingress_instances fire_service_change
end_ingress-Frame session [] s = ((refl, refl, refl), refl, refl)
end_ingress-Frame session ((j, insts) ∷ m) s =
    let culled : InMem = record s {
      ingress_instances = GoMap.modify j (cull session) s.ingress_instances;
    } in
    elim (Bool-cases (any_of session insts)) [
      | inl some_gone ↦
          rw (some_gone, end_ingress_instances)
            (end_ingress-Frame session m
              (fire_service_change j false with_ingress_instance_changes culled))
      | inr none_gone ↦ rw (none_gone, end_ingress_instances) (end_ingress-Frame session m culled)
    ]

end_instances-keys :
    (session j : String) (m : Map String (Map String (Sessioned Instance))) (s : InMem)
    → GoMap.has j (end_instances session m s).instances ≡ GoMap.has j s.instances
unfolding end_instances fire_service_change
end_instances-keys session j [] s = refl
end_instances-keys session j ((name, insts) ∷ m) s =
    let culled : InMem = record s { instances = GoMap.modify name (cull session) s.instances } in
    ground (
      arith,
      end_instances-keys session j m culled,
      end_instances-keys session j m (fire_service_change name false with_instance_changes culled),
      GoMap.has-modify name j (cull session) s.instances,
    )

end_ingress-keys :
    (session j : String) (m : Map String (Map IpPort (Sessioned IngressInstance))) (s : InMem)
    → GoMap.has j (end_ingress_instances session m s).ingress_instances
      ≡ GoMap.has j s.ingress_instances
unfolding end_ingress_instances fire_service_change
end_ingress-keys session j [] s = refl
end_ingress-keys session j ((name, insts) ∷ m) s =
    let culled : InMem = record s {
      ingress_instances = GoMap.modify name (cull session) s.ingress_instances;
    } in
    ground (
      arith,
      end_ingress-keys session j m culled,
      end_ingress-keys session j m
          (fire_service_change name false with_ingress_instance_changes culled),
      GoMap.has-modify name j (cull session) s.ingress_instances,
    )

-- The end of a session takes away exactly what belongs to the session.
pub record Ended (session : String) (s t : InMem) : Type 0 where
  pub instances :
      (name inst : String) → instance_at t name inst ≡ keep session (instance_at s name inst)
  pub ingress_instances :
      (name : String) (addr : IpPort)
      → ingress_at t name addr ≡ keep session (ingress_at s name addr)
  pub hosts : (name : String) → GoMap.lookup name t.hosts ≡ keep session (GoMap.lookup name s.hosts)
  pub instance_keys : (j : String) → GoMap.has j t.instances ≡ GoMap.has j s.instances
  pub ingress_keys :
      (j : String) → GoMap.has j t.ingress_instances ≡ GoMap.has j s.ingress_instances
  pub services : t.services ≡ s.services
  pub group_specs : t.group_specs ≡ s.group_specs
  pub timers :
      (j : String)
      → GoMap.lookup j t.heartbeat_timers
        ≡ (if session == j then none else GoMap.lookup j s.heartbeat_timers)

all_instances :
    (session name inst : String) (s : InMem)
    → instance_at (end_instances session s.instances s) name inst
      ≡ keep session (instance_at s name inst)
all_instances session name inst s = ground (
  arith,
  end_instances-instance_at session name inst s.instances s,
  GoMap.contains-keys name s.instances,
  GoMap.lookup_empty {V = Sessioned Instance} inst,
)

all_ingress :
    (session name : String) (addr : IpPort) (s : InMem)
    → ingress_at (end_ingress_instances session s.ingress_instances s) name addr
      ≡ keep session (ingress_at s name addr)
all_ingress session name addr s = ground (
  arith,
  end_ingress-ingress_at session name addr s.ingress_instances s,
  GoMap.contains-keys name s.ingress_instances,
  GoMap.lookup_empty {V = Sessioned IngressInstance} addr,
)

all_hosts :
    (session name : String) (s : InMem)
    → GoMap.lookup name (end_hosts session (keys s.hosts) s).hosts
      ≡ keep session (GoMap.lookup name s.hosts)
all_hosts session name s =
    ground (arith, end_hosts-lookup session name (keys s.hosts) s, GoMap.contains-keys name s.hosts)

-- EndSession removes exactly the hosts, the instances and the ingress instances of the session, at
-- every name, with the session's timer; services, rules and other timers stay as they are.
pub end_session-Ended : (session : String) (s : InMem) → Ended session s (end_session session s)
unfolding end_session
end_session-Ended session s = record {
  instances = λ name inst.
      ap (λ m. GoMap.lookup inst (map_at name m)) g.2
      ∙ all_instances session name inst s₂
      ∙ ap (λ m. keep session (GoMap.lookup inst (map_at name m))) h.1;
  ingress_instances = λ name addr.
      all_ingress session name addr s₃
      ∙ ap (λ m. keep session (GoMap.lookup addr (map_at name m))) (i.2 ∙ h.2);
  hosts = λ name. ap (GoMap.lookup name) (g.1 ∙ i.1) ∙ all_hosts session name s₁;
  instance_keys = λ j.
      ap (GoMap.has j) g.2 ∙ end_instances-keys session j s₂.instances s₂ ∙ ap (GoMap.has j) h.1;
  ingress_keys =
      λ j. end_ingress-keys session j s₃.ingress_instances s₃ ∙ ap (GoMap.has j) (i.2 ∙ h.2);
  services = g.0.0 ∙ i.0.0 ∙ h.0.0;
  group_specs = g.0.1 ∙ i.0.1 ∙ h.0.1;
  timers = λ j.
      ap (GoMap.lookup j) (g.0.2 ∙ i.0.2 ∙ h.0.2)
      ∙ GoMap.lookup-delete session j s.heartbeat_timers;
}
  where
    s₁ : InMem
    s₁ = record s { heartbeat_timers = GoMap.delete session s.heartbeat_timers }

    s₂ : InMem
    s₂ = end_hosts session (keys s₁.hosts) s₁

    s₃ : InMem
    s₃ = end_instances session s₂.instances s₂

    h : Frame s₁ s₂ × (s₂.instances ≡ s.instances) × (s₂.ingress_instances ≡ s.ingress_instances)
    h = end_hosts-Frame session (keys s₁.hosts) s₁

    i : Frame s₂ s₃ × (s₃.hosts ≡ s₂.hosts) × (s₃.ingress_instances ≡ s₂.ingress_instances)
    i = end_instances-Frame session s₂.instances s₂

    g :
        Frame s₃ (end_ingress_instances session s₃.ingress_instances s₃)
        × ((end_ingress_instances session s₃.ingress_instances s₃).hosts ≡ s₃.hosts)
        × ((end_ingress_instances session s₃.ingress_instances s₃).instances ≡ s₃.instances)
    g = end_ingress-Frame session s₃.ingress_instances s₃
