-- ===== src/Agent/DockerListener.antt =====
-- agent/docker_listener.go: from docker's list of containers and its events to container updates.
-- What docker says of a container is a parameter.
pub mod Listing
use ambergreen.Common.{
  String, ◌≡◌, refl, Bool, true, false, Option, none, some, List, [], ◌∷◌, ◌++◌, ◌==◌, string_eq,
  is_some, not, if◌then◌else◌, arith,
}
use ambergreen.GoMap
use ambergreen.GoMap.{Map, keys, contains}
use ambergreen.Agent.Container.{Container}
use ambergreen.Agent.SyncState.{ContainerUpdate}

-- docker.APIEvents
pub record DockerEvent : Type 0 where
  pub status : String
  pub id : String

pub record ContainerIds : Type 0 where
  pub containers : Map String Bool
  pub reset : Bool

-- The `switch` on a status: `none` for a status that is left out.
abbrev pub started : String → Option Bool
started status =
    if status == "start" then some true else if status == "die" then some false else none

-- An event that comes while the containers are listed.
unfoldable pub apply_event : DockerEvent → Map String Bool → Map String Bool
apply_event ev containers = elim (started ev.status) [
  | none ↦ containers
  | some b ↦ GoMap.insert ev.id b containers
]

unfoldable pub apply_events : List DockerEvent → Map String Bool → Map String Bool
apply_events [] containers = containers
apply_events (ev ∷ evs) containers = apply_events evs (apply_event ev containers)

-- The loop over the listed containers.
unfoldable pub add_listed : List String → Map String Bool → Map String Bool
add_listed [] containers = containers
add_listed (id ∷ ids) containers =
    add_listed ids (if GoMap.has id containers then containers else GoMap.insert id true containers)

-- The loop that removes the containers that have died.
unfoldable pub drop_dead : List String → Map String Bool → Map String Bool
drop_dead [] containers = containers
drop_dead (id ∷ ids) containers = drop_dead ids (elim (GoMap.lookup id containers) [
  | none ↦ containers
  | some started ↦ if started then containers else GoMap.delete id containers
])

-- The first containerIDs that readContainerIDs sends, after the events `evs` and the list `listed`.
unfoldable pub first_ids : List DockerEvent → List String → ContainerIds
unfolding apply_events add_listed drop_dead
first_ids evs listed =
    let containers = add_listed listed (apply_events evs []) in
    record { containers = drop_dead (keys containers) containers; reset = true }

-- What a later event sends.
unfoldable pub later_ids : DockerEvent → Option ContainerIds
later_ids ev = elim (started ev.status) [
  | none ↦ none
  | some b ↦ some (record { containers = (ev.id, b) ∷ []; reset = false })
]

-- What the `select` of bufferContainerIDs does: take one in, or give the oldest out.
pub data BufferStep : Type 0 where
  take_in : ContainerIds → BufferStep
  give_out : BufferStep

-- With an empty buffer nothing can be given out.
unfoldable pub buffer_step :
    BufferStep → List ContainerIds → Option (List ContainerIds × List ContainerIds)
buffer_step (take_in ids) buf = some (buf ++ ids ∷ [], [])
buffer_step give_out [] = none
buffer_step give_out (ids ∷ buf) = some (buf, ids ∷ [])

-- What InspectContainer returns.
pub data Inspected : Type 0 where
  details : Container → Inspected
  no_such_container : Inspected
  failed : Inspected

-- The containers that inspectContainers has announced, and the update that it makes.
pub record Inspection : Type 0 where
  pub announced : Map String (Unit {0})
  pub out_update : Map String (Option Container)

-- Without a reset an empty update is not sent.
abbrev pub sent_update : Bool → Map String (Option Container) → Option ContainerUpdate
sent_update false [] = none
sent_update reset out = some (record { containers = out; reset = reset })

module _ (inspect : String → Inspected) where
  -- One round of its inner loop; `none` where it returns the error of docker.
  unfoldable pub inspect_id : String → Bool → Inspection → Option Inspection
  inspect_id id false st = some (
      if GoMap.has id st.announced
      then record {
        announced = GoMap.delete id st.announced;
        out_update = GoMap.insert id none st.out_update;
      }
      else st)
  inspect_id id true st = elim (inspect id) [
    | failed ↦ none
    | no_such_container ↦ some st
    | details c ↦ some (record {
      announced = GoMap.insert id tt st.announced;
      out_update = GoMap.insert id (some c) st.out_update;
    })
  ]

  unfoldable pub inspect_ids : Map String Bool → Inspection → Option Inspection
  inspect_ids [] st = some st
  inspect_ids ((id, b) ∷ ids) st = elim (inspect_id id b st) [
    | none ↦ none
    | some next ↦ inspect_ids ids next
  ]

  -- A round of its outer loop: what is announced then, and the update that is sent, if one is.
  unfoldable pub inspect_round :
      ContainerIds → Map String (Unit {0}) → Option (Map String (Unit {0}) × Option ContainerUpdate)
  inspect_round ids announced =
      let before = if ids.reset then [] else announced in
      elim (inspect_ids ids.containers (record { announced = before; out_update = [] })) [
        | none ↦ none
        | some st ↦ some (st.announced, sent_update ids.reset st.out_update)
      ]
