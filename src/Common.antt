-- ===== src/Common.antt =====
-- What every module shares: the libraries' names passed on, Boolean tests on the native numbers,
-- the equality that Go's `==` is on comparable types, and the way a Go call ends.
use Prim.Native.Nat.{compare, Ordering}
use text.Mathlib.Text.{◌==◌ as str_eq}
use text.Mathlib.TextEquality.{eq_iff}
pub use Prim.Native.Nat.{ℕ, zero, suc, ◌+◌, ◌-◌, ◌*◌, ◌^◌, ◌%◌, ◌≤◌, ◌<◌}
pub use Prim.Native.String.{String}
pub use mathlib.Core.Path.{◌≡◌, refl, sym, ap, subst, ◌∙◌}
pub use mathlib.Core.Logic.{◌≢◌, ◌⊎◌, ◌↔◌, inl, inr}
pub use mathlib.Core.Bool.{Bool, true, false, not, ◌&&◌, ◌||◌}
pub use mathlib.Core.Option.{Option, none, some}
pub use mathlib.Core.List.{List, [], ◌∷◌, ◌++◌, map}
pub use native.Mathlib.Omega.{arith}

abbrev pub ltb : ℕ → ℕ → Bool
ltb a b = elim (compare a b) [ Ordering.lt ↦ true | _ ↦ false ]

abbrev pub leb : ℕ → ℕ → Bool
leb a b = elim (compare a b) [ Ordering.gt ↦ false | _ ↦ true ]

abbrev pub nat_eq : ℕ → ℕ → Bool
nat_eq a b = elim (compare a b) [ Ordering.eq ↦ true | _ ↦ false ]

infix 1 if◌then◌else◌
abbrev pub if◌then◌else◌ {ℓ} : {A : Type ℓ} → Bool → A → A → A
if true then x else y = x
if false then x else y = y

pub nat_eq_iff : (a b : ℕ) → (nat_eq a b ≡ true) ↔ (a ≡ b)
nat_eq_iff a b = (λ h. ground arith, λ h. ground arith)

-- Go's `==` on a comparable type.
pub record Eq {ℓ} (A : Type ℓ) : Type ℓ where
  pub beq : A → A → Bool
  pub beq_iff : (x y : A) → (beq x y ≡ true) ↔ (x ≡ y)

-- To split on a computed value and keep the equation.
pub Bool-cases : (b : Bool) → (b ≡ true) ⊎ (b ≡ false)
Bool-cases true = inl refl
Bool-cases false = inr refl

pub Option-cases {ℓ} : {A : Type ℓ} (o : Option A) → (o ≡ none) ⊎ ((a : A) × (o ≡ some a))
Option-cases none = inl refl
Option-cases (some a) = inr (a, refl)

infix 50 ◌==◌
abbrev pub ◌==◌ {ℓ} : {A : Type ℓ} ⦃e : Eq A⦄ → A → A → Bool
◌==◌ ⦃e⦄ = e.beq

instance abbrev pub ℕ_eq : Eq ℕ
ℕ_eq = record { beq = nat_eq; beq_iff = nat_eq_iff }

instance abbrev pub string_eq : Eq String
string_eq = record { beq = str_eq; beq_iff = eq_iff }

pub ==_refl {ℓ} : {A : Type ℓ} ⦃e : Eq A⦄ (a : A) → (a == a) ≡ true
==_refl ⦃e⦄ a = (e.beq_iff a a).1 refl

-- `x != nil`
abbrev pub is_some {ℓ} : {A : Type ℓ} → Option A → Bool
is_some none = false
is_some (some a) = true

abbrev pub length {ℓ} : {A : Type ℓ} → List A → ℕ
length [] = 0
length (x ∷ xs) = suc (length xs)

-- `xs[i]`, with `none` out of range.
abbrev pub get_elem? {ℓ} : {T : Type ℓ} → List T → ℕ → Option T
get_elem? [] k = none
get_elem? (y ∷ ys) zero = some y
get_elem? (y ∷ ys) (suc k) = get_elem? ys k

-- `xs[i] = v`, in range.
abbrev pub set {ℓ} : {T : Type ℓ} → List T → ℕ → T → List T
set [] k w = []
set (y ∷ ys) zero w = w ∷ ys
set (y ∷ ys) (suc k) w = y ∷ set ys k w

-- A call returns, or it panics at run time.
pub data Run {ℓ} (A : Type ℓ) : Type ℓ where
  ok : A → Run A
  panic : Run A

infixl 5 ◌>>=◌
abbrev pub ◌>>=◌ {κ ℓ} : {S : Type κ} {A : Type ℓ} → Run S → (S → Run A) → Run A
ok s >>= next = next s
panic >>= next = panic

pub ok-injective {ℓ} : {A : Type ℓ} {a b : A} → ok a ≡ ok b → a ≡ b
ok-injective e = cc

-- Inversion of a chain that returns.
pub >>=-eq-ok {κ ℓ} :
    {S : Type κ} {A : Type ℓ} (run : Run S) (next : S → Run A) {a : A}
    → (run >>= next) ≡ ok a
    → (s : S) × (run ≡ ok s) × (next s ≡ ok a)
>>=-eq-ok (ok s) next e = (s, refl, e)
>>=-eq-ok panic next e = cc

-- The loop `for _, x := range xs`, over a state, with a body that may panic.
unfoldable pub for_each {ℓ κ} : {A : Type ℓ} {S : Type κ} → (A → S → Run S) → List A → S → Run S
for_each f [] s = ok s
for_each f (x ∷ xs) s = f x s >>= for_each f xs

-- An invariant of the body is an invariant of the loop.
pub for_each-inv {ℓ κ ι} :
    {A : Type ℓ} {S : Type κ} (P : S → Type ι) (f : A → S → Run S)
    → ((x : A) (s t : S) → P s → f x s ≡ ok t → P t)
    → (xs : List A) (s t : S) → P s
    → for_each f xs s ≡ ok t
    → P t
unfolding for_each
for_each-inv P f keep [] s t p e = subst P (ok-injective e) p
for_each-inv P f keep (x ∷ xs) s t p e =
    let (u, first, rest) = >>=-eq-ok (f x s) (for_each f xs) e in
    for_each-inv P f keep xs u t (keep x s u p first) rest

-- A body that never panics makes a loop that never panics.
pub for_each_total {ℓ κ} :
    {A : Type ℓ} {S : Type κ} (f : A → S → Run S)
    → ((x : A) (s : S) → (t : S) × (f x s ≡ ok t))
    → (xs : List A) (s : S) → (t : S) × (for_each f xs s ≡ ok t)
unfolding for_each
for_each_total f total [] s = (s, refl)
for_each_total f total (x ∷ xs) s =
    let (u, e) = total x s in let (t, r) = for_each_total f total xs u in (t, rw e r)

abbrev pub All {ℓ κ} : {A : Type ℓ} → (A → Type κ) → List A → Type κ
All P [] = Unit
All P (x ∷ xs) = P x × All P xs

-- An invariant that the body keeps at the elements that satisfy `Q`.
pub for_each-inv_all {ℓ κ ι θ} :
    {A : Type ℓ} {S : Type κ} (Q : A → Type θ) (P : S → Type ι) (f : A → S → Run S)
    → ((x : A) (s t : S) → Q x → P s → f x s ≡ ok t → P t)
    → (xs : List A) (s t : S) → All Q xs
    → P s
    → for_each f xs s ≡ ok t
    → P t
unfolding for_each
for_each-inv_all Q P f keep [] s t q p e = subst P (ok-injective e) p
for_each-inv_all Q P f keep (x ∷ xs) s t q p e =
    let (u, first, rest) = >>=-eq-ok (f x s) (for_each f xs) e in
    for_each-inv_all Q P f keep xs u t q.1 (keep x s u q.0 p first) rest
