-- ===== src/Net.antt =====
-- common/netutil/netutil.go: the address type, and what the program takes of Go's package net.
pub mod Text
use ambergreen.Common.{
  ℕ, String, ◌≡◌, ◌↔◌, Bool, true, ◌&&◌, Option, none, some, arith, Eq, ◌==◌, nat_eq, string_eq,
  if◌then◌else◌,
}

-- The bytes of a net.IP as a text, as `string(ip)` gives them; the nil IP is the empty text.
abbrev pub Ip : Type 0
Ip = String

pub record IpPort : Type 0 where
  pub ip : Ip
  pub port : ℕ

unfoldable pub new_ip_port : Ip → ℕ → IpPort
new_ip_port ip port = record { ip = ip; port = port }

-- The method IP, with `none` for nil.
unfoldable pub ip_of : IpPort → Option Ip
ip_of a = if a.ip == "" then none else some a.ip

-- `a == b`, a field at a time.
abbrev pub equal : IpPort → IpPort → Bool
equal a b = (a.ip == b.ip) && nat_eq a.port b.port

pub equal_iff : (a b : IpPort) → (equal a b ≡ true) ↔ (a ≡ b)
equal_iff a b = (
  λ h. ground (arith, string_eq.beq_iff a.ip b.ip),
  λ h. ground (arith, string_eq.beq_iff a.ip b.ip),
)

instance abbrev pub ip_port_eq : Eq IpPort
ip_port_eq = record { beq = equal; beq_iff = equal_iff }

-- What the program calls in packages net, strconv and fmt to read and print addresses. Ports
-- are natural numbers.
pub record Platform : Type 0 where
  -- net.ParseIP
  pub parse_ip : String → Option Ip
  -- net.IP.Equal, under which an IPv4 address equals its IPv6 form
  pub ip_equal : Ip → Ip → Bool
  -- net.IP.String
  pub ip_string : Ip → String
  -- strconv.Atoi
  pub atoi : String → Option ℕ
  -- fmt.Sprintf("%d/tcp", port)
  pub tcp_port : ℕ → String
