-- ===== src/Agent/SyncState.antt =====
-- agent/sync_instances.go, lines 17-61, and ContainerUpdate of docker_listener.go: the data of the
-- component that joins containers with services.
use ambergreen.Common.{
  String, ◌≡◌, ◌↔◌, Bool, true, false, ◌&&◌, Option, none, some, [], Eq, ◌==◌, string_eq, arith,
}
use ambergreen.GoMap.{Map}
use ambergreen.Store.Data.{Instance, ServiceInfo, ServiceUpdate}
use ambergreen.Agent.Container.{Container}

pub record InstanceKey : Type 0 where
  pub service : String
  pub instance_name : String

abbrev pub key_equal : InstanceKey → InstanceKey → Bool
key_equal a b = (a.service == b.service) && (a.instance_name == b.instance_name)

pub key_equal_iff : (a b : InstanceKey) → (key_equal a b ≡ true) ↔ (a ≡ b)
key_equal_iff a b = (
  λ h. ground (
    arith,
    string_eq.beq_iff a.service b.service,
    string_eq.beq_iff a.instance_name b.instance_name,
  ),
  λ h. ground (
    arith,
    string_eq.beq_iff a.service b.service,
    string_eq.beq_iff a.instance_name b.instance_name,
  ),
)

instance abbrev pub instance_key_eq : Eq InstanceKey
instance_key_eq = record { beq = key_equal; beq_iff = key_equal_iff }

-- `none` is a nil *store.Instance: the instance has gone.
pub record InstanceUpdate : Type 0 where
  pub instances : Map InstanceKey (Option Instance)
  pub reset : Bool

-- ContainerUpdate of docker_listener.go.
pub record ContainerUpdate : Type 0 where
  pub containers : Map String (Option Container)
  pub reset : Bool

-- The struct `service`.
pub record SyncService : Type 0 where
  pub name : String
  pub info : ServiceInfo
  pub instances : Map String Instance

-- The struct `container`.
pub record SyncContainer : Type 0 where
  pub container : Container
  pub instances : Map String (Unit {0})

-- `none` is a nil map. The last two fields are the buffers of the reset channels, of capacity 1.
pub record SyncInstances : Type 0 where
  pub services : Option (Map String SyncService)
  pub containers : Option (Map String SyncContainer)
  pub update : InstanceUpdate
  pub containers_reset_sent : Bool
  pub services_reset_sent : Bool

-- Reads and `range` loops see a nil map as an empty one.
abbrev pub entries : {V : Type 0} → Option (Map String V) → Map String V
entries none = []
entries (some m) = m

abbrev pub on_entries :
    {V : Type 0} → (Map String V → Map String V) → Option (Map String V) → Option (Map String V)
on_entries f none = none
on_entries f (some m) = some (f m)

-- What the `select` of the main loop receives; a stop ends the sequence.
pub data SyncEvent : Type 0 where
  container_update : ContainerUpdate → SyncEvent
  service_update : ServiceUpdate → SyncEvent
  instance_updates_reset : SyncEvent

abbrev pub no_update : InstanceUpdate
no_update = record { instances = []; reset = false }
