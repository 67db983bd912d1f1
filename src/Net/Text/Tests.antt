-- ===== src/Net/Text/Tests.antt =====
-- An address parsed, printed and parsed again, by a network that writes a port in strokes and in front of the host.
use Prim.Native.Char.{code}
use ambergreen.Common.{
  ℕ, zero, suc, String, ◌≡◌, refl, false, Option, none, some, ◌==◌, string_eq, nat_eq,
  if◌then◌else◌, arith, ap, inl, inr, Bool-cases,
}
use ambergreen.Net.{Ip, IpPort}
use ambergreen.Net.Text.{Network, to_string, parse_ip_port}
use ambergreen.Net.Text.RoundTrip.{length, specified, Documented, parse_ip_port-to_string}

abbrev strokes : ℕ → String
strokes zero = ""
strokes (suc n) = String.◌∷◌ "1" (strokes n)

abbrev join : String → String → String
join host String.[] = String.◌∷◌ ":" host
join host (String.◌∷◌ c port) = String.◌∷◌ c (join host port)

abbrev stroke_before : Option (String × String) → Option (String × String)
stroke_before none = none
stroke_before (some (host, port)) = some (host, String.◌∷◌ "1" port)

abbrev split : String → Option (String × String)
split String.[] = none
split (String.◌∷◌ c s) = if nat_eq (code c) b'1' then stroke_before (split s) else some (s, "")

abbrev network : Network
network = record {
  platform = record {
    parse_ip = λ s. if nat_eq (length s) 16 then some s else none;
    ip_equal = λ a b. a == b;
    ip_string = λ s. s;
    atoi = λ s. none;
    tcp_port = λ n. "80/tcp";
  };
  join_host_port = join;
  split_host_port = split;
  lookup_port = λ net port. some (length port);
  itoa = strokes;
  is_unspecified = λ ip. ip == "0000000000000000";
}

split-join : (host : String) (n : ℕ) → split (join host (strokes n)) ≡ some (host, strokes n)
split-join host zero = refl
split-join host (suc n) = ap stroke_before (split-join host n)

length-strokes : (n : ℕ) → length (strokes n) ≡ n
length-strokes zero = refl
length-strokes (suc n) = ap suc (length-strokes n)

long_ip : (ip : Ip) → length ip ≡ 16 → (ip == "") ≡ false
long_ip ip e = elim (Bool-cases (ip == "")) [
  | inl empty ↦ absurd (zero-ne_16 (length ip) (ap length ((string_eq.beq_iff ip "").0 empty)) e)
  | inr full ↦ full
]
  where
    zero-ne_16 : (n : ℕ) → n ≡ zero → n ≡ 16 → ⊥
    zero-ne_16 n e e₁ = omega (arith, e, e₁)

documented : Documented network
documented = record {
  parsed_length = λ text ip e. ground (arith, e);
  reparsed = λ ip e. ground (arith, e);
  printed = long_ip;
  split_none = split-join "";
  split_ip = λ ip n e. split-join ip n;
  port = λ text n e. ap some (length-strokes n);
}

abbrev web : IpPort
web = record { ip = "0000000000000001"; port = 8 }

parsed : parse_ip_port network "11111111:0000000000000001" ≡ some web
unfolding parse_ip_port
parsed = refl

parse_ip_port-to_string_example :
    (parse_ip_port network (to_string network web) ≡ some (specified network web))
    × (to_string network (specified network web) ≡ to_string network web)
parse_ip_port-to_string_example =
    parse_ip_port-to_string network documented "11111111:0000000000000001" web parsed
