-- ===== src/Agent/DockerListener/Listing.antt =====
-- The containers that the listener starts with, and those that it has announced.
use ambergreen.Common.{
  String, ◌≡◌, refl, Bool, true, false, Option, none, some, List, [], ◌∷◌, ◌==◌, string_eq, is_some,
  if◌then◌else◌, arith, inl, inr, Bool-cases, subst, sym, ◌∙◌,
}
use ambergreen.Agent.Container.{Container}
use ambergreen.Agent.SyncState.{ContainerUpdate}
use ambergreen.Agent.DockerListener.{
  ContainerIds, sent_update, Inspected, details, no_such_container, failed, Inspection, inspect_id,
  inspect_ids, inspect_round,
}
use mathlib.Core.Option.{some-injective, none-ne-some}
use ambergreen.GoMap
use ambergreen.GoMap.{Map, keys, contains}
use ambergreen.Agent.DockerListener.{
  DockerEvent, started, apply_event, apply_events, add_listed, drop_dead, first_ids,
}

-- What the last event about a container says: whether it started; `none` without such an event.
unfoldable pub last_status : String → List DockerEvent → Option Bool
last_status id [] = none
last_status id (ev ∷ evs) =
    let here = if ev.id == id then started ev.status else none in
    elim (last_status id evs) [ none ↦ here | some b ↦ some b ]

lookup-apply_events :
    (id : String) (evs : List DockerEvent) (m : Map String Bool)
    → GoMap.lookup id (apply_events evs m)
      ≡ (elim (last_status id evs) [ none ↦ GoMap.lookup id m | some b ↦ some b ])
unfolding apply_events apply_event last_status
lookup-apply_events id [] m = refl
lookup-apply_events id (ev ∷ evs) m = ground (
  arith,
  lookup-apply_events id evs (apply_event ev m),
  GoMap.lookup-insert ev.id id true m,
  GoMap.lookup-insert ev.id id false m,
)

lookup-add_listed :
    (id : String) (ids : List String) (m : Map String Bool)
    → GoMap.lookup id (add_listed ids m) ≡ (elim (GoMap.lookup id m) [
      | none ↦ if contains id ids then some true else none
      | some b ↦ some b
    ])
unfolding add_listed contains GoMap.has
lookup-add_listed id [] m = ground arith
lookup-add_listed id (j ∷ ids) m = elim (Bool-cases (GoMap.has j m)) [
  | inl old ↦ ground (arith, old, lookup-add_listed id ids m, string_eq.beq_iff j id)
  | inr new ↦ ground (
    arith,
    new,
    lookup-add_listed id ids (GoMap.insert j true m),
    GoMap.lookup-insert j id true m,
    string_eq.beq_iff j id,
  )
]

-- A container is left unless it is marked as dead.
abbrev alive : Option Bool → Option Bool
alive none = none
alive (some b) = if b then some b else none

lookup-drop_dead :
    (id : String) (ids : List String) (m : Map String Bool)
    → GoMap.lookup id (drop_dead ids m)
      ≡ (if contains id ids then alive (GoMap.lookup id m) else GoMap.lookup id m)
unfolding drop_dead contains
lookup-drop_dead id [] m = refl
lookup-drop_dead id (j ∷ ids) m = ground (
  arith,
  lookup-drop_dead id ids m,
  lookup-drop_dead id ids (GoMap.delete j m),
  GoMap.lookup-delete j id m,
  string_eq.beq_iff j id,
)

-- What the listener first reports of a container: it runs if the last event about it says so or, if
-- there was none, if it was listed; a container whose last event is its death is not reported.
pub first_ids-lookup :
    (id : String) (evs : List DockerEvent) (listed : List String)
    → GoMap.lookup id (first_ids evs listed).containers ≡ (elim (last_status id evs) [
      | none ↦ if contains id listed then some true else none
      | some b ↦ if b then some true else none
    ])
unfolding first_ids
first_ids-lookup id evs listed =
    let m = apply_events evs [] in
    ground (
      arith,
      lookup-drop_dead id (keys (add_listed listed m)) (add_listed listed m),
      GoMap.contains-keys id (add_listed listed m),
      lookup-add_listed id listed m,
      lookup-apply_events id evs [],
      GoMap.lookup_empty {V = Bool} id,
    )

-- Whether a container is known to whoever has taken the update `out` and knew those in `before`.
abbrev pub known_after : Map String (Unit {0}) → Map String (Option Container) → String → Bool
known_after before out id = elim (GoMap.lookup id out) [
  | none ↦ GoMap.has id before
  | some c ↦ is_some c
]

module _ (inspect : String → Inspected) (before : Map String (Unit {0})) where
  -- What is announced is what is known.
  abbrev Agrees : Inspection → Type 0
  Agrees st = (id : String) → GoMap.has id st.announced ≡ known_after before st.out_update id

  inspected-Agrees :
      (id : String) (st st' : Inspection) (i : Inspected)
      → inspect id ≡ i
      → Agrees st
      → inspect_id inspect id true st ≡ some st'
      → Agrees st'
  unfolding inspect_id
  inspected-Agrees id st st' (details c) q h e j = ground (
    arith,
    q,
    e,
    h j,
    GoMap.has-insert id j tt st.announced,
    GoMap.lookup-insert id j (some c) st.out_update,
    string_eq.beq_iff id j,
  )
  inspected-Agrees id st st' no_such_container q h e j = ground (arith, q, e, h j)
  inspected-Agrees id st st' failed q h e j = ground (arith, q, e)

  inspect_id-Agrees :
      (id : String) (b : Bool) (st st' : Inspection)
      → Agrees st
      → inspect_id inspect id b st ≡ some st'
      → Agrees st'
  unfolding inspect_id
  inspect_id-Agrees id true st st' h e j = inspected-Agrees id st st' (inspect id) refl h e j
  inspect_id-Agrees id false st st' h e j = ground (
    arith,
    e,
    h j,
    GoMap.has-delete id j st.announced,
    GoMap.lookup-insert id j none st.out_update,
    string_eq.beq_iff id j,
  )

  inspect_ids-Agrees :
      (ids : Map String Bool) (st st' : Inspection)
      → Agrees st
      → inspect_ids inspect ids st ≡ some st'
      → Agrees st'
  unfolding inspect_ids
  inspect_ids-Agrees [] st st' h e = subst Agrees (some-injective _ _ e) h
  inspect_ids-Agrees ((id, b) ∷ ids) st st' h e =
      stepped (inspect_id inspect id b st) refl e (inspect_ids-Agrees ids)
    where
      stepped :
          (o : Option Inspection)
          → inspect_id inspect id b st ≡ o
          → (elim o [ none ↦ none | some next ↦ inspect_ids inspect ids next ]) ≡ some st'
          → ((s s' : Inspection) → Agrees s → inspect_ids inspect ids s ≡ some s' → Agrees s')
          → Agrees st'
      stepped none q r again = absurd (none-ne-some _ r)
      stepped (some next) q r again = again next st' (inspect_id-Agrees id b st next h q) r

-- What a taker of the updates, who knew the containers in `before`, knows after a round, which may
-- send no update.
abbrev pub knows : Map String (Unit {0}) → Option ContainerUpdate → String → Bool
knows before none id = GoMap.has id before
knows before (some u) id = known_after (if u.reset then [] else before) u.containers id

sent_update-known :
    (reset : Bool) (before : Map String (Unit {0})) (out : Map String (Option Container))
    (id : String)
    → knows before (sent_update reset out) id ≡ known_after (if reset then [] else before) out id
unfolding GoMap.lookup
sent_update-known true before [] id = refl
sent_update-known true before (c ∷ out) id = refl
sent_update-known false before [] id = refl
sent_update-known false before (c ∷ out) id = refl

-- After a round of inspectContainers that docker does not fail, the containers that are announced
-- are those that are known to whoever takes the updates, with a reset or without, also where the
-- round sends no update.
pub inspect_round-knows :
    (inspect : String → Inspected) (ids : ContainerIds) (before after : Map String (Unit {0}))
    (out : Option ContainerUpdate) (id : String)
    → inspect_round inspect ids before ≡ some (after, out)
    → GoMap.has id after ≡ knows before out id
unfolding inspect_round GoMap.lookup
inspect_round-knows inspect ids before after out id e =
    let first : Map String (Unit {0}) = if ids.reset then [] else before in
    let empty : Inspection = record { announced = first; out_update = [] } in
    inspected (inspect_ids inspect ids.containers empty) refl e
      (inspect_ids-Agrees inspect first ids.containers empty)
  where
    inspected :
        (o : Option Inspection)
        → inspect_ids inspect ids.containers
            (record { announced = if ids.reset then [] else before; out_update = [] })
          ≡ o
        → (elim o as (λ _. Option (Map String (Unit {0}) × Option ContainerUpdate)) [
          | none ↦ none
          | some st ↦ some (st.announced, sent_update ids.reset st.out_update)
        ])
          ≡ some (after, out)
        → ((st : Inspection)
            → ((j : String)
                → GoMap.has j (if ids.reset then [] else before)
                  ≡ known_after (if ids.reset then [] else before) [] j)
            → inspect_ids inspect ids.containers
                (record { announced = if ids.reset then [] else before; out_update = [] })
              ≡ some st
            → (j : String)
            → GoMap.has j st.announced
              ≡ known_after (if ids.reset then [] else before) st.out_update j)
        → GoMap.has id after ≡ knows before out id
    inspected none q r agrees = absurd (none-ne-some _ r)
    inspected (some st) q r agrees =
        subst
          (λ (p : Map String (Unit {0}) × Option ContainerUpdate).
            GoMap.has id p.0 ≡ knows before p.1 id)
          (some-injective _ _ r)
          (agrees st (λ j. refl) q id ∙ sym (sent_update-known ids.reset before st.out_update id))
