-- ===== src/Sockets/Text.antt =====
-- toPortIp.
use my_learning.Base.{
  ℕ, ◌+◌, ◌-◌, ◌≡◌, ◌≤◌, ◌<◌, refl, false, List, ◌∷◌, ◌++◌, length, take_all, ok, arith, ◌==◌,
  if◌then◌else◌, Bool-cases, inl, inr, lt→ltb, le→leb,
}
use my_learning.Sockets.Library.{ByteOrder, Texts}
use my_learning.Sockets.{
  InetAddress, af_inet, af_inet6, port_of, to_ip, print_at, to_ip_port, to_port_ip,
}

module _ (order : ByteOrder) (texts : Texts) where
  -- "ip:port", or "[ip]:port" for IPv6
  abbrev pub shown : InetAddress → List ℕ
  shown a =
      if a.sin_family == af_inet6
      then 91 ∷ texts.ntop6 a.sin6_addr ++ 93 ∷ 58 ∷ texts.decimal (port_of order a)
      else (if a.sin_family == af_inet then texts.ntop4 a.sin_addr else texts.ntop6 a.sin6_addr)
        ++ 58 ∷ texts.decimal (port_of order a)

  port_length : (a : InetAddress) → length (texts.decimal (port_of order a)) ≤ 5
  unfolding port_of
  port_length a =
      texts.length_decimal (order.network_to_host16 a.sin_port) (order.small16 a.sin_port)

  -- nothing is cut off by a buffer that is long enough
  print_fits :
      (size : ℕ) (buf more : List ℕ)
      → length buf + length more < size
      → print_at size buf more ≡ ok (buf ++ more)
  unfolding print_at
  print_fits size buf more h =
      rw (
        take_all (size - length buf - 1) more (omega arith),
        lt→ltb (length buf) size (omega arith),
      )

  to_ip_fits :
      (size : ℕ) (a : InetAddress)
      → 46 ≤ size
      → to_ip order texts size a
        ≡ ok (if a.sin_family == af_inet then texts.ntop4 a.sin_addr else texts.ntop6 a.sin6_addr)
  unfolding to_ip
  to_ip_fits size a h = elim (Bool-cases (a.sin_family == af_inet)) [
    | inl e ↦
        rw
          (
            e,
            le→leb 16 size (omega arith),
            take_all (size - 1) (texts.ntop4 a.sin_addr) (omega (arith, texts.length4 a.sin_addr)),
          )
          refl
    | inr e ↦
        rw
          (
            e,
            le→leb 46 size h,
            take_all (size - 1) (texts.ntop6 a.sin6_addr)
                (omega (arith, texts.length6 a.sin6_addr)),
          )
          refl
  ]

  ip_length :
      (a : InetAddress)
      → length (if a.sin_family == af_inet then texts.ntop4 a.sin_addr else texts.ntop6 a.sin6_addr)
        < 46
  ip_length a = elim (Bool-cases (a.sin_family == af_inet)) [
    | inl e ↦ rw e (omega (arith, texts.length4 a.sin_addr))
    | inr e ↦ rw e (texts.length6 a.sin6_addr)
  ]

  -- toPortIp never fails an assert: its buffer of 64 characters holds the whole text of every address
  -- and port, nothing of which is cut off.
  pub to_port_ip_lem : (a : InetAddress) → to_port_ip order texts a ≡ ok (shown a)
  unfolding to_port_ip to_ip_port
  to_port_ip_lem a = elim (Bool-cases (a.sin_family == af_inet6)) [
    | inl e ↦
        let four : (a.sin_family == af_inet) ≡ false = ground (arith, e) in
        rw (e, to_ip_fits 63 a (omega arith), four)
          (print_fits 64 (91 ∷ texts.ntop6 a.sin6_addr) (93 ∷ 58 ∷ texts.decimal (port_of order a))
            (omega (arith, texts.length6 a.sin6_addr, port_length a)))
    | inr e ↦
        rw (e, to_ip_fits 64 a (omega arith))
          (print_fits 64
            (if a.sin_family == af_inet then texts.ntop4 a.sin_addr else texts.ntop6 a.sin6_addr)
            (58 ∷ texts.decimal (port_of order a)) (omega (arith, ip_length a, port_length a)))
  ]
