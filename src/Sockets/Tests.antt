-- ===== src/Sockets/Tests.antt =====
-- Addresses on a host that stores the low byte first.
use my_learning.Base.{
  ℕ, ◌≡◌, refl, true, false, Option, none, some, List, [], ◌∷◌, ok, ◌==◌, if◌then◌else◌,
}
use my_learning.Sockets.Library.{little_endian, short_texts}
use my_learning.Sockets.{
  InetAddress, af_inet, af_inet6, zeroed, has_colon, any_address, ip_address, port_of, to_port_ip,
  is_self_connect, set_scope_id, ipv4_net_endian, resolve,
}
use my_learning.Sockets.Text.{to_port_ip_lem, shown}

-- inet_pton, of a library that knows one address, "1"
abbrev pton4 : List ℕ → Option ℕ
pton4 [] = none
pton4 (c ∷ cs) = if c == 49 then some 1 else none

abbrev pton6 : List ℕ → Option ℕ
pton6 ip = none

-- port 80 is 0x5000 in the order of the network
local : InetAddress
local = record zeroed { sin_family = af_inet; sin_port = 0x5000; sin_addr = 1 }

local_made : ip_address little_endian pton4 pton6 (49 ∷ []) 80 false ≡ (local, false)
unfolding ip_address my_learning.Sockets.from_ip_port4 local
local_made = refl

-- an IPv6 scope of an IPv4 address is ignored
local_scope : set_scope_id 7 local ≡ local
unfolding set_scope_id local
local_scope = refl

local_net_endian : ipv4_net_endian local ≡ ok 1
unfolding ipv4_net_endian local
local_net_endian = refl

resolved : resolve (some (2, 4, 9)) local ≡ ok (true, record local { sin_addr = 9 })
unfolding resolve local
resolved = refl

to_port_ip_lem_example :
    to_port_ip little_endian short_texts local ≡ ok (shown little_endian short_texts local)
to_port_ip_lem_example = to_port_ip_lem little_endian short_texts local
