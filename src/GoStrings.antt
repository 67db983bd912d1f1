-- ===== src/GoStrings.antt =====
-- The functions of Go's package strings that the program calls, at a separator of one ASCII
-- character: Split, SplitN with the limit 2, TrimLeft, and the cut of a text at the LastIndex.
use Prim.Native.Char.{Char, code}
use ambergreen.Common.{
  ℕ, String, ◌≡◌, refl, Bool, false, ◌||◌, Option, none, some, List, [], ◌∷◌, arith, nat_eq,
  if◌then◌else◌,
}

-- `strings.Contains`, for one character.
unfoldable pub has_char : ℕ → String → Bool
has_char c String.[] = false
has_char c (String.◌∷◌ d s) = nat_eq (code d) c || has_char c s

abbrev cons_first : Char → List String → List String
cons_first d [] = []
cons_first d (w ∷ ws) = String.◌∷◌ d w ∷ ws

unfoldable pub split : ℕ → String → List String
split c String.[] = "" ∷ []
split c (String.◌∷◌ d s) =
    let rest = split c s in if nat_eq (code d) c then "" ∷ rest else cons_first d rest

-- `strings.SplitN(s, sep, 2)`
unfoldable pub split_2 : ℕ → String → List String
split_2 c String.[] = "" ∷ []
split_2 c (String.◌∷◌ d s) =
    let rest = split_2 c s in if nat_eq (code d) c then "" ∷ s ∷ [] else cons_first d rest

-- `strings.TrimLeft`, of one character.
unfoldable pub trim_left : ℕ → String → String
trim_left c String.[] = ""
trim_left c (String.◌∷◌ d s) =
    let rest = trim_left c s in if nat_eq (code d) c then rest else String.◌∷◌ d s

-- `s[:i]` and `s[i+1:]` for `i = strings.LastIndex(s, sep)`; `none` where that is -1.
unfoldable pub cut_last : ℕ → String → Option (String × String)
cut_last c String.[] = none
cut_last c (String.◌∷◌ d s) = elim (cut_last c s) [
  | some (a, b) ↦ some (String.◌∷◌ d a, b)
  | none ↦ if nat_eq (code d) c then some ("", s) else none
]

-- A text without the separator is one field.
pub split-no_sep : (c : ℕ) (s : String) → has_char c s ≡ false → split c s ≡ s ∷ []
unfolding split has_char
split-no_sep c String.[] h = refl
split-no_sep c (String.◌∷◌ d s) h = ground (arith, split-no_sep c s)

-- `strings.HasPrefix` and the text behind the prefix.
unfoldable pub cut_prefix : String → String → Option String
cut_prefix String.[] s = some s
cut_prefix (String.◌∷◌ c p) String.[] = none
cut_prefix (String.◌∷◌ c p) (String.◌∷◌ d s) =
    let rest = cut_prefix p s in if nat_eq (code c) (code d) then rest else none
