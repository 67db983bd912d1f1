-- ===== src/Balancer/Pool/Slices.antt =====
-- About the elements of a slice.
use ambergreen.Common.{
  ℕ, zero, suc, ◌+◌, ◌-◌, ◌<◌, ◌≡◌, refl, ap, Option, none, some, List, [], ◌∷◌, ◌++◌, length,
  get_elem?, set, ltb, nat_eq, if◌then◌else◌, arith,
}
use ambergreen.Balancer.Pool.{but_last, last}

abbrev pub over : Option ℕ → ℕ → Option ℕ
over none v = none
over (some x) v = some v

pub get_elem?-set :
    (l : List ℕ) (i v k : ℕ)
    → get_elem? (set l i v) k ≡ (if nat_eq i k then over (get_elem? l k) v else get_elem? l k)
get_elem?-set [] i v k = ground arith
get_elem?-set (x ∷ l) zero v zero = refl
get_elem?-set (x ∷ l) zero v (suc k) = ground arith
get_elem?-set (x ∷ l) (suc i) v zero = ground arith
get_elem?-set (x ∷ l) (suc i) v (suc k) = ground (arith, get_elem?-set l i v k)

pub get_elem?-append :
    (l : List ℕ) (v k : ℕ)
    → get_elem? (l ++ v ∷ []) k ≡ (if nat_eq k (length l) then some v else get_elem? l k)
get_elem?-append [] v zero = refl
get_elem?-append [] v (suc k) = ground arith
get_elem?-append (x ∷ l) v zero = ground arith
get_elem?-append (x ∷ l) v (suc k) = ground (arith, get_elem?-append l v k)

pub get_elem?-but_last :
    (l : List ℕ) (k : ℕ)
    → get_elem? (but_last l) k ≡ (if ltb (k + 1) (length l) then get_elem? l k else none)
unfolding but_last
get_elem?-but_last [] k = ground arith
get_elem?-but_last (x ∷ []) k = ground arith
get_elem?-but_last (x ∷ y ∷ l) zero = ground arith
get_elem?-but_last (x ∷ y ∷ l) (suc k) = ground (arith, get_elem?-but_last (y ∷ l) k)

pub get_elem?-last : (l : List ℕ) → last l ≡ get_elem? l (length l - 1)
unfolding last
get_elem?-last [] = refl
get_elem?-last (x ∷ []) = refl
get_elem?-last (x ∷ y ∷ l) = ground (arith, get_elem?-last (y ∷ l))

pub get_elem?-lt_length : (l : List ℕ) (k r : ℕ) → get_elem? l k ≡ some r → k < length l
get_elem?-lt_length [] k r e = cc
get_elem?-lt_length (x ∷ l) zero r e = omega arith
get_elem?-lt_length (x ∷ l) (suc k) r e = omega (arith, get_elem?-lt_length l k r e)

pub length-set : (l : List ℕ) (i v : ℕ) → length (set l i v) ≡ length l
length-set [] i v = refl
length-set (x ∷ l) zero v = refl
length-set (x ∷ l) (suc i) v = ap suc (length-set l i v)

pub length-but_last : (l : List ℕ) (x : ℕ) → last l ≡ some x → length (but_last l) + 1 ≡ length l
unfolding last but_last
length-but_last [] x e = cc
length-but_last (y ∷ []) x e = omega arith
length-but_last (y ∷ z ∷ l) x e = ground (arith, length-but_last (z ∷ l) x)
