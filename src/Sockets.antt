-- ===== src/Sockets.antt =====
-- myMuduo/lib/Endian.hpp, SocketOps.cpp, InetAddress.hpp and InetAddress.cpp, and Socket::accept.
-- The byte order of the host and the text of addresses and ports are the C library's; what the kernel
-- answers is an argument. An address is the union of sockaddr_in and sockaddr_in6: they share the
-- family and the port, and `sin_addr` lies over `sin6_flowinfo`.
pub mod Library
pub mod Address
pub mod Text
mod Tests
use my_learning.Base.{
  ℕ, ◌+◌, ◌-◌, Bool, true, false, ◌&&◌, ◌||◌, Option, none, some, List, [], ◌∷◌, ◌++◌, length, take,
  leb, ltb, ◌==◌, if◌then◌else◌, Run, ok, abort, ◌>>=◌, ◌>>◌, assert,
}
use my_learning.Sockets.Library.{ByteOrder, Texts}

abbrev pub af_inet : ℕ
af_inet = 2

abbrev pub af_inet6 : ℕ
af_inet6 = 10

pub record InetAddress : Type 0 where
  pub sin_family : ℕ
  -- in network byte order
  pub sin_port : ℕ
  pub sin_addr : ℕ
  pub sin6_addr : ℕ
  pub sin6_scope_id : ℕ

-- memZero
abbrev pub zeroed : InetAddress
zeroed = record { sin_family = 0; sin_port = 0; sin_addr = 0; sin6_addr = 0; sin6_scope_id = 0 }

-- 127.0.0.1 and ::1
abbrev pub inaddr_loopback : ℕ
inaddr_loopback = 0x7f000001

abbrev pub in6addr_loopback : ℕ
in6addr_loopback = 1

-- strchr(ip, ':')
abbrev pub has_colon : List ℕ → Bool
has_colon [] = false
has_colon (c ∷ cs) = c == 58 || has_colon cs

-- snprintf at `end` writes at most `size - end` characters, the '\0' included
unfoldable pub print_at : ℕ → List ℕ → List ℕ → Run (List ℕ)
print_at size buf more =
    assert (ltb (length buf) size) >> ok (buf ++ take (size - length buf - 1) more)

unfoldable pub ipv4_net_endian : InetAddress → Run ℕ
ipv4_net_endian a = assert (a.sin_family == af_inet) >> ok a.sin_addr

unfoldable pub set_scope_id : ℕ → InetAddress → InetAddress
set_scope_id scope a = if a.sin_family == af_inet6 then record a { sin6_scope_id = scope } else a

-- resolve, with the answer of gethostbyname_r: an error, no host, or its family, length and address
unfoldable pub resolve : Option (ℕ × ℕ × ℕ) → InetAddress → Run (Bool × InetAddress)
resolve host out = elim host [
  | none ↦ let failed : Bool × InetAddress = (false, out) in ok failed
  | some (type, len, addr) ↦
      assert (type == af_inet && len == 4)
      >> (let found : Bool × InetAddress = (true, record out { sin_addr = addr }) in ok found)
]

module _ (order : ByteOrder) where
  unfoldable pub any_address : ℕ → Bool → Bool → InetAddress
  any_address port loopback ipv6 =
      if ipv6
      then record zeroed {
        sin_family = af_inet6;
        sin_port = order.host_to_network16 port;
        sin6_addr = if loopback then in6addr_loopback else 0;
      }
      else record zeroed {
        sin_family = af_inet;
        sin_port = order.host_to_network16 port;
        sin_addr = order.host_to_network32 (if loopback then inaddr_loopback else 0);
      }

  -- the two fromIpPort, with what inet_pton made of the text, and whether they logged an error
  unfoldable pub from_ip_port4 : Option ℕ → ℕ → InetAddress → InetAddress × Bool
  from_ip_port4 parsed port a =
      let a₁ = record a { sin_family = af_inet; sin_port = order.host_to_network16 port } in
      elim parsed [ none ↦ (a₁, true) | some addr ↦ (record a₁ { sin_addr = addr }, false) ]

  unfoldable pub from_ip_port6 : Option ℕ → ℕ → InetAddress → InetAddress × Bool
  from_ip_port6 parsed port a =
      let a₁ = record a { sin_family = af_inet6; sin_port = order.host_to_network16 port } in
      elim parsed [ none ↦ (a₁, true) | some addr ↦ (record a₁ { sin6_addr = addr }, false) ]

  -- `pton4` and `pton6` are inet_pton
  unfoldable pub ip_address :
      (List ℕ → Option ℕ) → (List ℕ → Option ℕ) → List ℕ → ℕ → Bool → InetAddress × Bool
  ip_address pton4 pton6 ip port ipv6 =
      if ipv6 || has_colon ip
      then from_ip_port6 (pton6 ip) port zeroed
      else from_ip_port4 (pton4 ip) port zeroed

  unfoldable pub port_of : InetAddress → ℕ
  port_of a = order.network_to_host16 a.sin_port

  module _ (texts : Texts) where
    -- inet_ntop writes at most `size` characters, the '\0' included
    unfoldable pub to_ip : ℕ → InetAddress → Run (List ℕ)
    to_ip size a =
        if a.sin_family == af_inet
        then assert (leb 16 size) >> ok (take (size - 1) (texts.ntop4 a.sin_addr))
        else assert (leb 46 size) >> ok (take (size - 1) (texts.ntop6 a.sin6_addr))

    unfoldable pub to_ip_port : ℕ → InetAddress → Run (List ℕ)
    to_ip_port size a =
        if a.sin_family == af_inet6
        then (do
          ip ← to_ip (size - 1) a
          print_at size (91 ∷ ip) (93 ∷ 58 ∷ texts.decimal (port_of a)))
        else (do ip ← to_ip size a; print_at size ip (58 ∷ texts.decimal (port_of a)))

    unfoldable pub to_port_ip : InetAddress → Run (List ℕ)
    to_port_ip a = to_ip_port 64 a

-- isSlefConnect, with the two addresses of the connection
unfoldable pub is_self_connect : InetAddress → InetAddress → Bool
is_self_connect local peer =
    if local.sin_family == af_inet
    then local.sin_port == peer.sin_port && local.sin_addr == peer.sin_addr
    else if local.sin_family == af_inet6
    then local.sin_port == peer.sin_port && local.sin6_addr == peer.sin6_addr
    else false
