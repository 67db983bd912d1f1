-- ===== src/Store/Etcd/Keys.antt =====
-- common/store/etcdstore/etcdstore.go: the keys of the nodes, and how a key is parsed.
-- Lengths are counted in characters: the prefix that is cut from a key is ASCII.
use Prim.Native.String.{◌++◌ as append, count}
use ambergreen.Common.{
  ℕ, zero, suc, String, ◌≡◌, Bool, false, Option, none, some, List, [], ◌∷◌, ◌==◌, string_eq, leb,
  if◌then◌else◌,
}
use ambergreen.GoStrings.{split, has_char}
use ambergreen.Store.Data.{QueryServiceOptions}

abbrev pub service_root : String
service_root = "/weave-flux/service/"

abbrev pub host_root : String
host_root = "/weave-flux/host/"

abbrev pub session_root : String
session_root = "/weave-flux/session/"

abbrev pub instance_path : String
instance_path = "instances"

abbrev pub detail_path : String
detail_path = "spec"

abbrev pub rule_path : String
rule_path = "rules"

abbrev pub ingress_instance_path : String
ingress_instance_path = "ingress-instances"

-- `a/b`
infixr 68 ◌/◌
abbrev pub ◌/◌ : String → String → String
a / b = append a (String.◌∷◌ "/" b)

unfoldable pub service_root_key : String → String
service_root_key service_name = append service_root service_name

unfoldable pub service_key : String → String
service_key service_name = append service_root (service_name / detail_path)

unfoldable pub rule_key : String → String → String
rule_key service_name rule_name = append service_root (service_name / (rule_path / rule_name))

unfoldable pub instance_key : String → String → String
instance_key service_name instance_name =
    append service_root (service_name / (instance_path / instance_name))

-- The address as its method String prints it.
unfoldable pub ingress_instance_key : String → String → String
ingress_instance_key service_name addr =
    append service_root (service_name / (ingress_instance_path / addr))

unfoldable pub host_key : String → String
host_key identity = append host_root identity

unfoldable pub session_key : String → String
session_key id = append session_root id

-- The types parsedRootKey to parsedIngressInstanceKey; `no_key` is a nil result.
pub data ParsedKey : Type 0 where
  parsed_root : ParsedKey
  parsed_service_root : String → ParsedKey
  parsed_service : String → ParsedKey
  parsed_rule : String → String → ParsedKey
  parsed_instance : String → String → ParsedKey
  parsed_ingress_instance : String → String → ParsedKey
  no_key : ParsedKey

-- The methods relevantTo, with `none` for a type that has none.
unfoldable pub relevant_to : ParsedKey → QueryServiceOptions → Option (Bool × String)
relevant_to (parsed_rule s r) opts = some (opts.with_container_rules, s)
relevant_to (parsed_instance s i) opts = some (opts.with_instances, s)
relevant_to (parsed_ingress_instance s a) opts = some (opts.with_ingress_instances, s)
relevant_to parsed_root opts = none
relevant_to (parsed_service_root s) opts = none
relevant_to (parsed_service s) opts = none
relevant_to no_key opts = none

-- `s[n:]`
unfoldable pub drop : ℕ → String → String
drop zero s = s
drop (suc n) String.[] = ""
drop (suc n) (String.◌∷◌ c s) = drop n s

abbrev pub with_third : (String → ParsedKey) → List String → ParsedKey
with_third f [] = no_key
with_third f (p ∷ []) = f p
with_third f (p ∷ q ∷ ps) = no_key

-- The `switch` on the second part.
unfoldable pub parse_kind : String → String → List String → ParsedKey
parse_kind s kind rest =
    if kind == detail_path
    then parsed_service s
    else if kind == rule_path
    then with_third (parsed_rule s) rest
    else if kind == instance_path
    then with_third (parsed_instance s) rest
    else if kind == ingress_instance_path
    then with_third (parsed_ingress_instance s) rest
    else no_key

unfoldable pub parse_parts : List String → ParsedKey
parse_parts [] = no_key
parse_parts (s ∷ []) = parsed_service_root s
parse_parts (s ∷ kind ∷ rest) = parse_kind s kind rest

unfoldable pub parse_key : String → ParsedKey
unfolding parse_parts parse_kind split drop
parse_key key =
    if leb (count key) (count service_root)
    then parsed_root
    else parse_parts (split b'/' (drop (count service_root) key))

-- What the store keeps under a key.
pub data Entry : Type 0 where
  service_entry : String → Entry
  rule_entry : String → String → Entry
  instance_entry : String → String → Entry
  ingress_entry : String → String → Entry

unfoldable pub key_of : Entry → String
unfolding service_key rule_key instance_key ingress_instance_key
key_of (service_entry s) = service_key s
key_of (rule_entry s r) = rule_key s r
key_of (instance_entry s i) = instance_key s i
key_of (ingress_entry s a) = ingress_instance_key s a

unfoldable pub parsed_of : Entry → ParsedKey
parsed_of (service_entry s) = parsed_service s
parsed_of (rule_entry s r) = parsed_rule s r
parsed_of (instance_entry s i) = parsed_instance s i
parsed_of (ingress_entry s a) = parsed_ingress_instance s a

-- No name holds a slash.
abbrev pub IsPlain : String → Type 0
IsPlain s = has_char b'/' s ≡ false

abbrev pub IsPlainEntry : Entry → Type 0
IsPlainEntry (service_entry s) = IsPlain s
IsPlainEntry (rule_entry s r) = IsPlain s × IsPlain r
IsPlainEntry (instance_entry s i) = IsPlain s × IsPlain i
IsPlainEntry (ingress_entry s a) = IsPlain s × IsPlain a
