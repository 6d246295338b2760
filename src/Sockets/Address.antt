-- ===== src/Sockets/Address.antt =====
-- Ports, addresses and self-connections.
use my_learning.Base.{
  ℕ, ◌^◌, ◌≡◌, ◌<◌, ◌↔◌, Bool, true, Option, none, List, arith, ◌==◌, if◌then◌else◌, Bool-cases,
  Option-cases, ◌||◌, inl, inr, ◌⊎◌,
}
use my_learning.Sockets.Library.{ByteOrder}
use my_learning.Sockets.{
  InetAddress, af_inet, af_inet6, has_colon, any_address, from_ip_port4, from_ip_port6, ip_address,
  port_of, is_self_connect,
}

-- an address of either family
abbrev pub IsInet : InetAddress → Type 0
IsInet a = (a.sin_family ≡ af_inet) ⊎ (a.sin_family ≡ af_inet6)

module _ (order : ByteOrder) where
  -- Both constructors make an address of the asked family whose port reads back as it was given; the
  -- one from text takes the IPv6 form when it is asked for or the text has a colon, and logs an error
  -- exactly when inet_pton refuses the text.
  pub ip_address_lem :
      (pton4 pton6 : List ℕ → Option ℕ) (ip : List ℕ) (port : ℕ) (ipv6 loopback : Bool)
      → port < 2 ^ 16
      → let (a, logged) = ip_address order pton4 pton6 ip port ipv6 in
        let b = any_address order port loopback ipv6 in
        (port_of order a ≡ port)
        × (port_of order b ≡ port)
        × IsInet a
        × (has_colon ip ≡ true → a.sin_family ≡ af_inet6)
        × (b.sin_family ≡ (if ipv6 then af_inet6 else af_inet))
        × ((logged ≡ true) ↔ ((if a.sin_family == af_inet6 then pton6 ip else pton4 ip) ≡ none))
  unfolding ip_address any_address port_of from_ip_port4 from_ip_port6
  ip_address_lem pton4 pton6 ip port ipv6 loopback h = elim (Bool-cases (ipv6 || has_colon ip)) [
    | inl e ↦ elim (Option-cases (pton6 ip)) [
      | inl f ↦ ground (arith, e, f, order.back16 port h)
      | inr (n, f) ↦ ground (arith, e, f, order.back16 port h)
    ]
    | inr e ↦ elim (Option-cases (pton4 ip)) [
      | inl f ↦ ground (arith, e, f, order.back16 port h)
      | inr (n, f) ↦ ground (arith, e, f, order.back16 port h)
    ]
  ]

-- A connection is to itself exactly when both ends have one family's port and address.
pub is_self_connect_lem :
    (local peer : InetAddress)
    → (is_self_connect local peer ≡ true) ↔ (
        (local.sin_port ≡ peer.sin_port)
        × (((local.sin_family ≡ af_inet) × (local.sin_addr ≡ peer.sin_addr))
            ⊎ ((local.sin_family ≡ af_inet6) × (local.sin6_addr ≡ peer.sin6_addr))))
unfolding is_self_connect
is_self_connect_lem local peer = ground arith
