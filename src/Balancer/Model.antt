-- ===== src/Balancer/Model.antt =====
-- balancer/model/model.go and watch_services.go: a service as the balancer sees it.
use ambergreen.Common.{
  String, ◌≡◌, refl, sym, ap, ◌∙◌, ok-injective, Bool, true, false, not, ◌&&◌, ◌||◌, Option, none,
  some, [], ◌∷◌, Run, ok, panic, ◌==◌, string_eq, is_some, if◌then◌else◌, arith, inl, inr,
  Bool-cases,
}
use ambergreen.GoMap
use ambergreen.GoMap.{Map, keys}
use ambergreen.Net.{IpPort, ip_port_eq}
use mathlib.Core.Bool.{false≢true}
use ambergreen.Store.Data
use ambergreen.Store.Data.{Instance, ServiceInfo}

pub record Service : Type 0 where
  pub name : String
  pub protocol : String
  pub address : Option IpPort
  pub instances : Map String IpPort

-- `none` is a service that has gone.
pub record ServiceUpdate : Type 0 where
  pub updates : Map String (Option Service)
  pub reset : Bool

-- `found && aAddr.Equal(bAddr)`
abbrev same_address : Option IpPort → IpPort → Bool
same_address none a = false
same_address (some b) a = a == b

-- The first loop of Equal, over the instances of `a`.
unfoldable pub all_in : Map String IpPort → Map String IpPort → Bool
all_in [] b = true
all_in ((name, addr) ∷ a) b = same_address (GoMap.lookup name b) addr && all_in a b

-- The second loop, over the instances of `b`.
unfoldable pub no_more : Map String IpPort → Map String IpPort → Bool
no_more [] a = true
no_more ((name, addr) ∷ b) a = GoMap.has name a && no_more b a

abbrev same_instances : Map String IpPort → Map String IpPort → Bool
same_instances a b = all_in a b && no_more b a

-- `*b.Address` panics where both addresses are nil.
equal_at : Option IpPort → Option IpPort → Bool → Run Bool
equal_at none none rest = panic
equal_at none (some b) rest = ok false
equal_at (some a) none rest = ok false
equal_at (some a) (some b) rest = ok (a == b && rest)

unfoldable pub equal : Service → Service → Run Bool
unfolding all_in no_more equal_at
equal a b =
    if not (a.name == b.name) || not (a.protocol == b.protocol)
    then ok false
    else equal_at a.address b.address (same_instances a.instances b.instances)

-- The loop of translateService: the instances that have an address.
unfoldable pub addresses : Map String Instance → Map String IpPort
addresses [] = []
addresses ((name, inst) ∷ m) = elim inst.address [
  | none ↦ addresses m
  | some addr ↦ GoMap.insert name addr (addresses m)
]

unfoldable pub translate_service : String → Option ServiceInfo → Bool → Option Service
unfolding addresses
translate_service name none filter_addressless = none
translate_service name (some svc) filter_addressless =
    if filter_addressless && not (is_some svc.service.address)
    then none
    else some (record {
      name = name;
      protocol = svc.service.protocol;
      address = svc.service.address;
      instances = addresses svc.instances;
    })

-- The function sendUpdate of WatchServicesStartFunc, up to the channel.
translate_all : Bool → Map String (Option ServiceInfo) → Map String (Option Service)
translate_all filter [] = []
translate_all filter ((name, svc) ∷ m) =
    GoMap.insert name (translate_service name svc filter) (translate_all filter m)

unfoldable pub translate_update : Bool → Data.ServiceUpdate → ServiceUpdate
unfolding translate_all
translate_update filter su = record { updates = translate_all filter su.services; reset = su.reset }

same_address_sound : (o : Option IpPort) (a : IpPort) → same_address o a ≡ true → o ≡ some a
same_address_sound none a h = cc
same_address_sound (some b) a h = ap some (sym ((ip_port_eq.beq_iff a b).0 h))

all_in_sound :
    (b a : Map String IpPort) (name : String) (addr : IpPort)
    → all_in a b ≡ true
    → GoMap.lookup name a ≡ some addr
    → GoMap.lookup name b ≡ some addr
unfolding all_in GoMap.lookup
all_in_sound b [] name addr h e = cc
all_in_sound b ((j, x) ∷ a) name addr h e = ground (
  arith,
  all_in_sound b a name addr,
  string_eq.beq_iff j name,
  same_address_sound (GoMap.lookup j b) x,
)

no_more_sound :
    (a c : Map String IpPort) (name : String)
    → no_more c a ≡ true
    → GoMap.lookup name a ≡ none
    → GoMap.lookup name c ≡ none
unfolding no_more GoMap.has GoMap.lookup
no_more_sound a [] name h e = refl
no_more_sound a ((j, x) ∷ c) name h e =
    ground (arith, no_more_sound a c name, string_eq.beq_iff j name)

same_instances_sound :
    (a b : Map String IpPort)
    → same_instances a b ≡ true
    → (name : String) → GoMap.lookup name a ≡ GoMap.lookup name b
same_instances_sound a b h name = by_value (GoMap.lookup name a) refl
  where
    by_value :
        (o : Option IpPort) → GoMap.lookup name a ≡ o → GoMap.lookup name a ≡ GoMap.lookup name b
    by_value none q = q ∙ sym (no_more_sound a b name (ground (arith, h)) q)
    by_value (some addr) q = q ∙ sym (all_in_sound b a name addr (ground (arith, h)) q)

equal_at_sound :
    (a b : Option IpPort) (rest : Bool) → equal_at a b rest ≡ ok true → (a ≡ b) × (rest ≡ true)
unfolding equal_at
equal_at_sound none none rest h = cc
equal_at_sound none (some b) rest h = cc
equal_at_sound (some a) none rest h = cc
equal_at_sound (some a) (some b) rest h =
    let both = ok-injective h in
    (ap some ((ip_port_eq.beq_iff a b).0 (ground (arith, both))), ground (arith, both))

-- Two services that Equal finds equal have the same name, protocol, address and, at every name, the
-- same instance.
pub equal_sound :
    (a b : Service)
    → equal a b ≡ ok true
    → (a.name ≡ b.name)
      × (a.protocol ≡ b.protocol)
      × (a.address ≡ b.address)
      × ((name : String) → GoMap.lookup name a.instances ≡ GoMap.lookup name b.instances)
unfolding equal
equal_sound a b h = elim (Bool-cases (not (a.name == b.name) || not (a.protocol == b.protocol))) [
  | inl differs ↦ absurd (false≢true (ok-injective (rw (differs, equal) at h)))
  | inr same ↦
      let (address, rest) = equal_at_sound a.address b.address _ (rw (same, equal) at h) in
      (
        (string_eq.beq_iff a.name b.name).0 (ground (arith, same)),
        (string_eq.beq_iff a.protocol b.protocol).0 (ground (arith, same)),
        address,
        same_instances_sound a.instances b.instances rest,
      )
]
