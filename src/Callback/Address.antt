-- ===== src/Callback/Address.antt =====
-- net.IP and net.IPNet as the policy reads them: an address is a number of 32 or 128 bits, and a
-- 128-bit address that maps a 32-bit one is read as that, as To4 does.
use kubeclaw.Prelude.{
  ℕ, ◌-◌, ◌/◌, ◌%◌, ◌^◌, Bool, false, Option, none, some, ◌==◌, ◌&&◌, ◌||◌, if◌then◌else◌,
}

pub data Ip : Type 0 where
  v4 : ℕ → Ip  -- below 2^32
  v6 : ℕ → Ip  -- below 2^128

-- To4: ::ffff:0:0/96 is the 32-bit address
unfoldable pub to4 : Ip → Option ℕ
to4 (v4 a) = some a
to4 (v6 a) = if a / 2 ^ 32 == 65535 then some (a % 2 ^ 32) else none

abbrev pub bits_of : Ip → ℕ
bits_of (v4 a) = a
bits_of (v6 a) = a

pub record IpNet : Type 0 where
  pub base : Ip  -- masked, in its shorter form
  pub prefix : ℕ

-- Contains: the same first bits, among addresses of the same length
unfoldable pub contains : IpNet → Ip → Bool
unfolding to4
contains n ip = elim n.base [
  | v4 b ↦ elim (to4 ip) [
    | none ↦ false
    | some a ↦ a / 2 ^ (32 - n.prefix) == b / 2 ^ (32 - n.prefix)
  ]
  | v6 b ↦ elim (to4 ip) [
    | none ↦ bits_of ip / 2 ^ (128 - n.prefix) == b / 2 ^ (128 - n.prefix)
    | some a ↦ false
  ]
]

-- the first octets of a 32-bit address
abbrev pub octet0 : ℕ → ℕ
octet0 a = a / 2 ^ 24

abbrev pub octet1 : ℕ → ℕ
octet1 a = a / 2 ^ 16 % 256

abbrev pub octet2 : ℕ → ℕ
octet2 a = a / 2 ^ 8 % 256

unfoldable pub is_loopback : Ip → Bool
unfolding to4
is_loopback ip = elim (to4 ip) [ none ↦ bits_of ip == 1 | some a ↦ octet0 a == 127 ]

-- 169.254.0.0/16 and fe80::/10
unfoldable pub is_link_local_unicast : Ip → Bool
unfolding to4
is_link_local_unicast ip = elim (to4 ip) [
  | none ↦ bits_of ip / 2 ^ 118 == 1018
  | some a ↦ octet0 a == 169 && octet1 a == 254
]

-- 224.0.0.0/24 and ffx2::/16
unfoldable pub is_link_local_multicast : Ip → Bool
unfolding to4
is_link_local_multicast ip = elim (to4 ip) [
  | none ↦ bits_of ip / 2 ^ 120 == 255 && bits_of ip / 2 ^ 112 % 16 == 2
  | some a ↦ octet0 a == 224 && (octet1 a == 0 && octet2 a == 0)
]

unfoldable pub is_unspecified : Ip → Bool
unfolding to4
is_unspecified ip = elim (to4 ip) [ none ↦ bits_of ip == 0 | some a ↦ a == 0 ]

-- 10.0.0.0/8, 172.16.0.0/12 and 192.168.0.0/16, and fc00::/7
unfoldable pub is_private : Ip → Bool
unfolding to4
is_private ip = elim (to4 ip) [
  | none ↦ bits_of ip / 2 ^ 121 == 126
  | some a ↦
      octet0 a == 10
      || (octet0 a == 172 && octet1 a / 16 == 1)
      || (octet0 a == 192 && octet1 a == 168)
]
