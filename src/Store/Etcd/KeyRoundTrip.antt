-- ===== src/Store/Etcd/KeyRoundTrip.antt =====
-- Keys that are built and then parsed.
use Prim.Native.String.{◌++◌ as append, count}
use Prim.Native.Char.{Char, code}
use text.Mathlib.TextLemmas.{cons-append, nil-append, length-append, length-cons, length-pos_iff}
use ambergreen.Common.{
  ℕ, ◌<◌, String, ◌≡◌, ◌≢◌, refl, ap, ◌∙◌, false, List, [], ◌∷◌, arith, string_eq,
}
use ambergreen.GoStrings.{split, has_char, split-no_sep}
use ambergreen.Store.Etcd.Keys.{
  service_root, instance_path, detail_path, rule_path, ingress_instance_path, ◌/◌, drop,
  parse_parts, parse_kind, parse_key, parsed_root, parsed_service_root, service_root_key, Entry,
  service_entry, rule_entry, instance_entry, ingress_entry, key_of, parsed_of, IsPlain,
  IsPlainEntry,
}

-- Up to the first separator there is one field.
split-append :
    (c : ℕ) (d : Char) (a rest : String)
    → code d ≡ c
    → has_char c a ≡ false
    → split c (append a (String.◌∷◌ d rest)) ≡ a ∷ split c rest
unfolding split has_char
split-append c d String.[] rest e h = rw nil-append (ground (arith, e))
split-append c d (String.◌∷◌ x a) rest e h =
    rw (cons-append x a (String.◌∷◌ d rest)) (ground (arith, h, split-append c d a rest e))

drop-append : (s t : String) → drop (count s) (append s t) ≡ t
unfolding drop
drop-append String.[] t = nil-append t
drop-append (String.◌∷◌ c s) t = rw (length-cons c s, cons-append c s t) (drop-append s t)

count-slash : (a b : String) → 0 < count (a / b)
count-slash a b = omega (arith, length-append a (String.◌∷◌ "/" b), length-cons "/" b)

-- A key below the root is parsed by its parts.
parse_key-below :
    (rest : String)
    → 0 < count rest
    → parse_key (append service_root rest) ≡ parse_parts (split b'/' rest)
unfolding parse_key
parse_key-below rest h =
    rw drop-append (ground (arith, length-append service_root rest, drop-append service_root rest))

split-third :
    (s kind n : String)
    → IsPlain s
    → IsPlain kind
    → IsPlain n
    → split b'/' (s / (kind / n)) ≡ s ∷ kind ∷ n ∷ []
split-third s kind n p q r =
    split-append b'/' "/" s (kind / n) refl p
    ∙ ap (λ (l : List String). s ∷ l)
        (split-append b'/' "/" kind n refl q
          ∙ ap (λ (l : List String). kind ∷ l) (split-no_sep b'/' n r))

-- Every key that the store builds from names without a slash is parsed back to the kind of entry and
-- the names that it was built from.
pub parse_key-key_of : (e : Entry) → IsPlainEntry e → parse_key (key_of e) ≡ parsed_of e
unfolding key_of parsed_of parse_parts parse_kind has_char split
parse_key-key_of (service_entry s) p =
    parse_key-below (s / detail_path) (count-slash s detail_path)
    ∙ ap parse_parts (split-append b'/' "/" s detail_path refl p)
parse_key-key_of (rule_entry s r) p =
    parse_key-below (s / (rule_path / r)) (count-slash s _)
    ∙ ap parse_parts (split-third s rule_path r p.0 refl p.1)
parse_key-key_of (instance_entry s i) p =
    parse_key-below (s / (instance_path / i)) (count-slash s _)
    ∙ ap parse_parts (split-third s instance_path i p.0 refl p.1)
parse_key-key_of (ingress_entry s a) p =
    parse_key-below (s / (ingress_instance_path / a)) (count-slash s _)
    ∙ ap parse_parts (split-third s ingress_instance_path a p.0 refl p.1)

pub parse_key-service_root_key :
    (s : String) → IsPlain s → s ≢ "" → parse_key (service_root_key s) ≡ parsed_service_root s
unfolding service_root_key parse_parts
parse_key-service_root_key s p h =
    parse_key-below s (length-pos_iff.1 h) ∙ ap parse_parts (split-no_sep b'/' s p)

pub parse_key-service_root : parse_key service_root ≡ parsed_root
unfolding parse_key
parse_key-service_root = refl
