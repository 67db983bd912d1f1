-- ===== src/Net/Text.antt =====
-- common/netutil/netutil.go: addresses as text. What it calls in packages net, strconv and fmt is the
-- record Network.
pub mod RoundTrip
mod Tests
use Prim.Native.Char.{Char, code}
use Prim.Native.String.{◌++◌ as append}
use ambergreen.Common.{
  ℕ, String, Bool, true, false, not, ◌&&◌, ◌||◌, Option, none, some, ◌==◌, string_eq, leb, nat_eq,
  if◌then◌else◌, is_some,
}
use ambergreen.Net.{Ip, IpPort, new_ip_port, Platform}

pub record Network : Type 0 where
  pub platform : Platform
  -- net.JoinHostPort
  pub join_host_port : String → String → String
  -- net.SplitHostPort
  pub split_host_port : String → Option (String × String)
  -- net.LookupPort
  pub lookup_port : String → String → Option ℕ
  -- strconv.Itoa
  pub itoa : ℕ → String
  -- net.IP.IsUnspecified
  pub is_unspecified : Ip → Bool

-- Whether the first character is that of an IP address.
unfoldable pub looks_like_ip : String → Bool
looks_like_ip String.[] = false
looks_like_ip (String.◌∷◌ c s) = nat_eq (code c) b':' || (leb b'0' (code c) && leb (code c) b'9')

module _ (net : Network) where
  -- IPPort.String
  unfoldable pub to_string : IpPort → String
  to_string a =
      net.join_host_port
        (if a.ip == ""
          then ""
          else if net.is_unspecified a.ip
          then ""
          else net.platform.ip_string a.ip)
        (net.itoa a.port)

  -- The IP of ParseIPPort, nil for an empty text; `none` is an error.
  abbrev pub host_ip : String → Option Ip
  host_ip addr = if addr == "" then some "" else net.platform.parse_ip addr

  unfoldable pub parse_ip_port : String → Option IpPort
  unfolding new_ip_port
  parse_ip_port text = elim (net.split_host_port text) [
    | none ↦ none
    | some (addr, port) ↦ elim (host_ip addr) [
      | none ↦ none
      | some ip ↦ elim (net.lookup_port "" port) [ none ↦ none | some n ↦ some (new_ip_port ip n) ]
    ]
  ]

  abbrev is_bad_host : Bool → String → Bool
  is_bad_host empty_host_ok host =
      if host == ""
      then not empty_host_ok
      else looks_like_ip host && not (is_some (net.platform.parse_ip host))

  unfoldable pub split_host_port : String → String → Bool → Option (String × ℕ)
  unfolding looks_like_ip
  split_host_port host_port network empty_host_ok = elim (net.split_host_port host_port) [
    | none ↦ none
    | some (host, port) ↦ elim (is_bad_host empty_host_ok host) [
      | true ↦ none
      | false ↦ elim (net.lookup_port network port) [ none ↦ none | some n ↦ some (host, n) ]
    ]
  ]

  unfoldable pub normalize_host_port : String → String → Bool → Option String
  unfolding split_host_port
  normalize_host_port host_port network empty_host_ok =
      elim (split_host_port host_port network empty_host_ok) [
        | none ↦ none
        | some (host, n) ↦ some (append host (String.◌∷◌ ":" (net.itoa n)))
      ]
