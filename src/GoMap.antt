-- ===== src/GoMap.antt =====
-- A Go map, as an association list: the loop `for k, v := range m` takes the entries in the order
-- of the list. A theorem is for every list, so for every order in which Go may iterate.
use ambergreen.Common.{
  ◌≡◌, refl, Bool, false, true, Option, none, some, List, [], ◌∷◌, arith, Eq, ◌==◌, if◌then◌else◌,
  is_some, ==_refl, ◌≢◌, inl, inr, Bool-cases, subst,
}

abbrev pub Map {ℓ κ} : Type ℓ → Type κ → Type (ℓ ⊔ κ)
Map K V = List (K × V)

-- The keys, in the order of a `range` loop.
abbrev pub keys {ℓ κ} : {K : Type ℓ} {V : Type κ} → Map K V → List K
keys [] = []
keys ((k, v) ∷ m) = k ∷ keys m

abbrev pub values {ℓ κ} : {K : Type ℓ} {V : Type κ} → Map K V → List V
values [] = []
values ((k, v) ∷ m) = v ∷ values m

-- Membership in a list of keys.
unfoldable pub contains {ℓ} : {K : Type ℓ} ⦃e : Eq K⦄ → K → List K → Bool
contains k [] = false
contains k (j ∷ js) = if j == k then true else contains k js

module _ {ℓ κ} {K : Type ℓ} ⦃e : Eq K⦄ {V : Type κ} where
  -- `v, found := m[k]`
  unfoldable pub lookup : K → Map K V → Option V
  lookup k [] = none
  lookup k ((i, x) ∷ m) = if i == k then some x else lookup k m

  -- `m[k] = v`
  unfoldable pub insert : K → V → Map K V → Map K V
  insert k v [] = (k, v) ∷ []
  insert k v ((j, w) ∷ m) = if j == k then (k, v) ∷ m else (j, w) ∷ insert k v m

  -- `delete(m, k)`
  unfoldable pub delete : K → Map K V → Map K V
  delete k [] = []
  delete k ((j, w) ∷ m) = let rest = delete k m in if j == k then rest else (j, w) ∷ rest

  -- `_, found := m[k]`
  unfoldable pub has : K → Map K V → Bool
  unfolding lookup
  has k m = is_some (lookup k m)

  pub lookup-insert :
      (k j : K) (v : V) (m : Map K V)
      → lookup j (insert k v m) ≡ (if k == j then some v else lookup j m)
  unfolding lookup insert
  lookup-insert k j v [] = refl
  lookup-insert k j v ((i, x) ∷ rest) =
      ground (arith, lookup-insert k j v rest, e.beq_iff k j, e.beq_iff i k, e.beq_iff i j)

  pub lookup-delete :
      (k j : K) (m : Map K V) → lookup j (delete k m) ≡ (if k == j then none else lookup j m)
  unfolding lookup delete
  lookup-delete k j [] = ground arith
  lookup-delete k j ((i, w) ∷ m) =
      ground (arith, e.beq_iff k j, e.beq_iff i k, e.beq_iff i j, lookup-delete k j m)

  pub lookup-insert_self : (k : K) (v : V) (m : Map K V) → lookup k (insert k v m) ≡ some v
  lookup-insert_self k v m = simp (lookup-insert, ==_refl)

  pub has-insert_self : (k : K) (v : V) (m : Map K V) → has k (insert k v m) ≡ true
  unfolding has
  has-insert_self k v m = rw (lookup-insert_self k v m)

  pub lookup-delete_self : (k : K) (m : Map K V) → lookup k (delete k m) ≡ none
  lookup-delete_self k m = simp (lookup-delete, ==_refl)

  pub lookup-insert_ne :
      (k j : K) (v : V) (m : Map K V) → k ≢ j → lookup j (insert k v m) ≡ lookup j m
  lookup-insert_ne k j v m h = ground (arith, lookup-insert k j v m, e.beq_iff k j)

  pub lookup-delete_ne : (k j : K) (m : Map K V) → k ≢ j → lookup j (delete k m) ≡ lookup j m
  lookup-delete_ne k j m h = ground (arith, lookup-delete k j m, e.beq_iff k j)

  pub lookup_empty : (k : K) → lookup k [] ≡ none
  unfolding lookup
  lookup_empty k = refl

  pub contains-keys : (k : K) (m : Map K V) → contains k (keys m) ≡ is_some (lookup k m)
  unfolding lookup contains
  contains-keys k [] = refl
  contains-keys k ((j, v) ∷ m) = ground (arith, contains-keys k m)

module _ {ℓ κ} {K : Type ℓ} ⦃e : Eq K⦄ {V : Type κ} where
  -- A write through a reference that the map holds under the key: no effect on a missing key.
  unfoldable pub modify : K → (V → V) → Map K V → Map K V
  modify k f [] = []
  modify k f ((j, w) ∷ m) = (j, if j == k then f w else w) ∷ modify k f m

  pub lookup-modify :
      (k j : K) (f : V → V) (m : Map K V)
      → lookup j (modify k f m)
        ≡ (elim (lookup j m) [ none ↦ none | some v ↦ some (if k == j then f v else v) ])
  unfolding lookup modify
  lookup-modify k j f [] = refl
  lookup-modify k j f ((i, w) ∷ m) =
      ground (arith, e.beq_iff k j, e.beq_iff i k, e.beq_iff i j, lookup-modify k j f m)

  -- The same write to every value.
  unfoldable pub map_values : (V → V) → Map K V → Map K V
  map_values f [] = []
  map_values f ((j, w) ∷ m) = (j, f w) ∷ map_values f m

  pub lookup-map_values :
      (j : K) (f : V → V) (m : Map K V)
      → lookup j (map_values f m) ≡ (elim (lookup j m) [ none ↦ none | some v ↦ some (f v) ])
  unfolding lookup map_values
  lookup-map_values j f [] = refl
  lookup-map_values j f ((i, w) ∷ m) = ground (arith, lookup-map_values j f m)

pub delete_empty {ℓ κ} : {K : Type ℓ} ⦃e : Eq K⦄ {V : Type κ} (k : K) → delete {V = V} k [] ≡ []
unfolding delete
delete_empty k = refl

-- Every entry satisfies the predicate.
abbrev pub AllEntries {ℓ κ ι} : {K : Type ℓ} {V : Type κ} → (K → V → Type ι) → Map K V → Type ι
AllEntries P [] = Unit
AllEntries P ((k, v) ∷ m) = P k v × AllEntries P m

module _ {ℓ κ ι} {K : Type ℓ} ⦃e : Eq K⦄ {V : Type κ} (P : K → V → Type ι) where
  pub AllEntries-insert :
      (k : K) (v : V) (m : Map K V) → P k v → AllEntries P m → AllEntries P (insert k v m)
  unfolding insert
  AllEntries-insert k v [] p h = (p, tt)
  AllEntries-insert k v ((j, w) ∷ m) p h = elim (Bool-cases (j == k)) [
    | inl q ↦ rw q (p, h.1)
    | inr q ↦ rw q (h.0, AllEntries-insert k v m p h.1)
  ]

  pub AllEntries-delete : (k : K) (m : Map K V) → AllEntries P m → AllEntries P (delete k m)
  unfolding delete
  AllEntries-delete k [] h = tt
  AllEntries-delete k ((j, w) ∷ m) h = elim (Bool-cases (j == k)) [
    | inl q ↦ rw q (AllEntries-delete k m h.1)
    | inr q ↦ rw q (h.0, AllEntries-delete k m h.1)
  ]

  pub AllEntries-modify :
      (k : K) (f : V → V) (m : Map K V)
      → ((j : K) (v : V) → P j v → P j (f v))
      → AllEntries P m
      → AllEntries P (modify k f m)
  unfolding modify
  AllEntries-modify k f [] keep h = tt
  AllEntries-modify k f ((j, w) ∷ m) keep h = elim (Bool-cases (j == k)) [
    | inl q ↦ rw q (keep j w h.0, AllEntries-modify k f m keep h.1)
    | inr q ↦ rw q (h.0, AllEntries-modify k f m keep h.1)
  ]

  pub AllEntries-map_values :
      (f : V → V) (m : Map K V)
      → ((j : K) (v : V) → P j v → P j (f v))
      → AllEntries P m
      → AllEntries P (map_values f m)
  unfolding map_values
  AllEntries-map_values f [] keep h = tt
  AllEntries-map_values f ((j, w) ∷ m) keep h = (keep j w h.0, AllEntries-map_values f m keep h.1)

module _ {ℓ κ} {K : Type ℓ} ⦃e : Eq K⦄ {V : Type κ} where
  pub has-insert :
      (k j : K) (v : V) (m : Map K V) → has j (insert k v m) ≡ (if k == j then true else has j m)
  unfolding has
  has-insert k j v m = ground (arith, lookup-insert k j v m)

  pub has-delete :
      (k j : K) (m : Map K V) → has j (delete k m) ≡ (if k == j then false else has j m)
  unfolding has
  has-delete k j m = ground (arith, lookup-delete k j m)

  pub has-modify : (k j : K) (f : V → V) (m : Map K V) → has j (modify k f m) ≡ has j m
  unfolding has
  has-modify k j f m = ground (arith, lookup-modify k j f m)

-- No key stands twice.
abbrev pub Unique {ℓ κ} : {K : Type ℓ} ⦃e : Eq K⦄ {V : Type κ} → Map K V → Type 0
Unique [] = Unit
Unique ((k, v) ∷ m) = (has k m ≡ false) × Unique m

pub has_nil {ℓ κ} : {K : Type ℓ} ⦃e : Eq K⦄ (V : Type κ) (k : K) → has {V = V} k [] ≡ false
unfolding has lookup
has_nil V k = refl

module _ {ℓ κ} {K : Type ℓ} ⦃e : Eq K⦄ {V : Type κ} where
  pub insert-Unique : (k : K) (v : V) (m : Map K V) → Unique m → Unique (insert k v m)
  unfolding insert
  insert-Unique k v [] u = (has_nil V k, tt)
  insert-Unique k v ((j, x) ∷ m) u = elim (Bool-cases (j == k)) [
    | inl same ↦ rw same (subst (λ i. has i m ≡ false) ((e.beq_iff j k).0 same) u.0, u.1)
    | inr other ↦ rw other (
      ground (arith, has-insert k j v m, e.beq_iff j k, e.beq_iff k j, u.0),
      insert-Unique k v m u.1,
    )
  ]

  pub delete-Unique : (k : K) (m : Map K V) → Unique m → Unique (delete k m)
  unfolding delete
  delete-Unique k [] u = tt
  delete-Unique k ((j, x) ∷ m) u = elim (Bool-cases (j == k)) [
    | inl same ↦ rw same (delete-Unique k m u.1)
    | inr other ↦ rw other (ground (arith, has-delete k j m, u.0), delete-Unique k m u.1)
  ]
