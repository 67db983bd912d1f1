-- ===== src/Net/Text/RoundTrip.antt =====
-- About parsing an address, printing it, and parsing what is printed.
use ambergreen.Common.{
  ℕ, suc, String, ◌≡◌, refl, ap, sym, ◌∙◌, ◌||◌, subst, true, false, some, ◌==◌, string_eq,
  if◌then◌else◌, arith, inl, inr, Bool-cases, Option-cases,
}
use ambergreen.Net.{Ip, IpPort, new_ip_port}
use ambergreen.Net.Text.{Network, host_ip, to_string, parse_ip_port}

-- The number of bytes of an IP.
abbrev pub length : Ip → ℕ
length String.[] = 0
length (String.◌∷◌ c s) = suc (length s)

-- What package net documents: ParseIP gives an IP of 16 bytes, whose text is not empty and is parsed to
-- it again; that text, or an empty one, can be joined to a number and split from it; and the number of a
-- port is itself a port.
pub record Documented (net : Network) : Type 0 where
  pub parsed_length :
      (text : String) (ip : Ip) → net.platform.parse_ip text ≡ some ip → length ip ≡ 16
  pub reparsed :
      (ip : Ip) → length ip ≡ 16 → net.platform.parse_ip (net.platform.ip_string ip) ≡ some ip
  pub printed : (ip : Ip) → length ip ≡ 16 → (net.platform.ip_string ip == "") ≡ false
  pub split_none :
      (n : ℕ) → net.split_host_port (net.join_host_port "" (net.itoa n)) ≡ some ("", net.itoa n)
  pub split_ip :
      (ip : Ip) (n : ℕ)
      → length ip ≡ 16
      → net.split_host_port (net.join_host_port (net.platform.ip_string ip) (net.itoa n))
        ≡ some (net.platform.ip_string ip, net.itoa n)
  pub port :
      (text : String) (n : ℕ)
      → net.lookup_port "" text ≡ some n
      → net.lookup_port "" (net.itoa n) ≡ some n

-- The address, with no IP in place of the unspecified one.
abbrev pub specified : Network → IpPort → IpPort
specified net a = if net.is_unspecified a.ip then record a { ip = "" } else a

module _ (net : Network) (doc : Documented net) where
  -- The IP of an address that was parsed is none or has 16 bytes.
  data IsParsedIp (ip : Ip) : Type 0 where
    is_none : ip ≡ "" → IsParsedIp ip
    is_long : length ip ≡ 16 → IsParsedIp ip

  host_ip-IsParsedIp : (addr : String) (ip : Ip) → host_ip net addr ≡ some ip → IsParsedIp ip
  host_ip-IsParsedIp addr ip e = elim (Bool-cases (addr == "")) [
    | inl empty ↦ is_none (ground (arith, e, empty))
    | inr full ↦ is_long (doc.parsed_length addr ip (ground (arith, e, full)))
  ]

  parsed_parts :
      (text : String) (a : IpPort)
      → parse_ip_port net text ≡ some a
      → IsParsedIp a.ip × (net.lookup_port "" (net.itoa a.port) ≡ some a.port)
  unfolding parse_ip_port new_ip_port
  parsed_parts text a e = elim (Option-cases (net.split_host_port text)) [
    | inl q ↦ absurd (ground (arith, e, q))
    | inr ((addr, port), q) ↦ elim (Option-cases (host_ip net addr)) [
      | inl q₁ ↦ absurd (ground (arith, e, q, q₁))
      | inr (ip, q₁) ↦ elim (Option-cases (net.lookup_port "" port)) [
        | inl q₂ ↦ absurd (ground (arith, e, q, q₁, q₂))
        | inr (n, q₂) ↦
            let same : new_ip_port ip n ≡ a = ground (arith, e, q, q₁, q₂) in
            subst
              (λ (x : IpPort).
                IsParsedIp x.ip × (net.lookup_port "" (net.itoa x.port) ≡ some x.port))
              same (host_ip-IsParsedIp addr ip q₁, doc.port port n q₂)
      ]
    ]
  ]

  -- The text of an address without an IP that counts, and of one with it.
  text_of_none :
      (a : IpPort)
      → ((a.ip == "") || net.is_unspecified a.ip) ≡ true
      → to_string net a ≡ net.join_host_port "" (net.itoa a.port)
  unfolding to_string
  text_of_none a e = ground (arith, e)

  text_of_ip :
      (a : IpPort)
      → (a.ip == "") ≡ false
      → net.is_unspecified a.ip ≡ false
      → to_string net a ≡ net.join_host_port (net.platform.ip_string a.ip) (net.itoa a.port)
  unfolding to_string
  text_of_ip a e u = ground (arith, e, u)

  parse_split :
      (text addr port : String) (ip : Ip) (n : ℕ)
      → net.split_host_port text ≡ some (addr, port)
      → host_ip net addr ≡ some ip
      → net.lookup_port "" port ≡ some n
      → parse_ip_port net text ≡ some (new_ip_port ip n)
  unfolding parse_ip_port
  parse_split text addr port ip n e e₁ e₂ = rw (e, parse_ip_port) (rw (e₁) (rw (e₂) refl))

  reparsed_none :
      (a : IpPort)
      → net.lookup_port "" (net.itoa a.port) ≡ some a.port
      → parse_ip_port net (net.join_host_port "" (net.itoa a.port)) ≡ some (record a { ip = "" })
  unfolding new_ip_port
  reparsed_none a port =
      parse_split (net.join_host_port "" (net.itoa a.port)) "" (net.itoa a.port) "" a.port
        (doc.split_none a.port) refl port

  reparsed_ip :
      (a : IpPort)
      → length a.ip ≡ 16
      → net.lookup_port "" (net.itoa a.port) ≡ some a.port
      → parse_ip_port net (net.join_host_port (net.platform.ip_string a.ip) (net.itoa a.port))
        ≡ some a
  unfolding new_ip_port
  reparsed_ip a long port =
      parse_split (net.join_host_port (net.platform.ip_string a.ip) (net.itoa a.port))
        (net.platform.ip_string a.ip) (net.itoa a.port) a.ip a.port (doc.split_ip a.ip a.port long)
        (rw (doc.printed a.ip long) (doc.reparsed a.ip long)) port

  is_16 : (ip : Ip) → IsParsedIp ip → (ip == "") ≡ false → length ip ≡ 16
  is_16 ip (is_none e) full = absurd (ground (arith, e, full, string_eq.beq_iff ip ""))
  is_16 ip (is_long e) full = e

  specified_none :
      (a : IpPort)
      → IsParsedIp a.ip
      → ((a.ip == "") || net.is_unspecified a.ip) ≡ true
      → specified net a ≡ record a { ip = "" }
  specified_none a p e = ground (arith, e, string_eq.beq_iff a.ip "")

  reparsed :
      (a : IpPort)
      → IsParsedIp a.ip
      → net.lookup_port "" (net.itoa a.port) ≡ some a.port
      → (parse_ip_port net (to_string net a) ≡ some (specified net a))
        × (to_string net (specified net a) ≡ to_string net a)
  reparsed a p port = elim (Bool-cases ((a.ip == "") || net.is_unspecified a.ip)) [
    | inl e ↦
        let none_there = specified_none a p e in
        (
          ap (parse_ip_port net) (text_of_none a e)
              ∙ reparsed_none a port
              ∙ ap some (sym none_there),
          ap (to_string net) none_there
              ∙ text_of_none (record a { ip = "" }) refl
              ∙ sym (text_of_none a e),
        )
    | inr e ↦
        let u : net.is_unspecified a.ip ≡ false = ground (arith, e) in
        let full : (a.ip == "") ≡ false = ground (arith, e) in
        let same : specified net a ≡ a = rw (u) refl in
        (
          ap (parse_ip_port net) (text_of_ip a full u)
              ∙ reparsed_ip a (is_16 a.ip p full) port
              ∙ ap some (sym same),
          ap (to_string net) same,
        )
  ]

  -- When package net is as documented: an address that ParseIPPort makes of any text is printed as a
  -- text that ParseIPPort makes the same address of, but with no IP in place of the unspecified one; and
  -- that address is printed as the same text.
  pub parse_ip_port-to_string :
      (text : String) (a : IpPort)
      → parse_ip_port net text ≡ some a
      → (parse_ip_port net (to_string net a) ≡ some (specified net a))
        × (to_string net (specified net a) ≡ to_string net a)
  parse_ip_port-to_string text a e = let (ip, port) = parsed_parts text a e in reparsed a ip port
