-- ===== src/Callback/Policy.antt =====
-- The allowlist of callback targets: Policy, New and Allowed of
-- internal/callbackpolicy/policy.go. Names are bytes; net.ParseCIDR is a parameter.
use kubeclaw.Prelude.{
  bytes_eq, ℕ, ◌+◌, Bool, true, false, not, Option, none, some, List, [], ◌∷◌, ◌++◌, ◌==◌, ◌&&◌,
  ◌||◌, leb, any, if◌then◌else◌,
}
use kubeclaw.Callback.Address.{
  Ip, v4, IpNet, contains, is_loopback, is_link_local_unicast, is_link_local_multicast,
  is_unspecified, is_private,
}

abbrev pub Bytes : Type 0
Bytes = List ℕ

pub record Policy : Type 0 where
  pub suffixes : List Bytes
  pub cidrs : List IpNet

-- net.ParseCIDR, `none` for an error
pub record Parsers : Type 0 where
  pub parse_cidr : Bytes → Option IpNet

-- strings.ToLower, of ASCII letters
abbrev pub lower : ℕ → ℕ
lower c = if leb 65 c && leb c 90 then c + 32 else c

abbrev pub to_lower : Bytes → Bytes
to_lower [] = []
to_lower (c ∷ s) = lower c ∷ to_lower s

-- strings.TrimPrefix(s, ".")
abbrev pub trim_dot : Bytes → Bytes
trim_dot [] = []
trim_dot (c ∷ s) = if c == 46 then s else c ∷ s

-- strings.TrimSuffix(s, ".")
abbrev pub trim_last_dot : Bytes → Bytes
trim_last_dot [] = []
trim_last_dot (c ∷ []) = if c == 46 then [] else c ∷ []
trim_last_dot (c ∷ d ∷ s) = c ∷ trim_last_dot (d ∷ s)

-- strings.HasSuffix
abbrev pub has_suffix : Bytes → Bytes → Bool
has_suffix [] t = bytes_eq [] t
has_suffix (c ∷ s) t = let rest = has_suffix s t in bytes_eq (c ∷ s) t || rest

abbrev pub is_space : ℕ → Bool
is_space c = c == 32 || (leb 9 c && leb c 13)

abbrev pub trim_left : Bytes → Bytes
trim_left [] = []
trim_left (c ∷ s) = let rest = trim_left s in if is_space c then rest else c ∷ s

-- drops the trailing spaces
abbrev pub trim_right : Bytes → Bytes
trim_right [] = []
trim_right (c ∷ s) = keep c (trim_right s)
  where
    keep : ℕ → Bytes → Bytes
    keep c [] = if is_space c then [] else c ∷ []
    keep c (d ∷ t) = c ∷ d ∷ t

-- strings.TrimSpace, of ASCII spaces
abbrev pub trim_space : Bytes → Bytes
trim_space s = trim_right (trim_left s)

abbrev pub is_empty : Bytes → Bool
is_empty [] = true
is_empty (_ ∷ _) = false

-- the body of New's loop, which appends
unfoldable pub add_entry : Parsers → Bytes → Policy → Policy
add_entry P raw p =
    let entry = trim_space raw in
    if is_empty entry then p else elim (P.parse_cidr entry) [
      | some network ↦ record p { cidrs = p.cidrs ++ network ∷ [] }
      | none ↦ record p { suffixes = p.suffixes ++ to_lower (trim_dot entry) ∷ [] }
    ]

unfoldable pub new_from : Parsers → List Bytes → Policy → Policy
unfolding add_entry
new_from P [] p = p
new_from P (raw ∷ entries) p = new_from P entries (add_entry P raw p)

unfoldable pub new : Parsers → List Bytes → Policy
unfolding new_from
new P entries = new_from P entries (record { suffixes = []; cidrs = [] })

unfoldable pub matches : Policy → Bytes → Ip → Bool
matches p host ip =
    let name = to_lower (trim_last_dot host) in
    any (λ (s : Bytes). bytes_eq name s || has_suffix name (46 ∷ s)) p.suffixes
    || any (λ n. contains n ip) p.cidrs

-- 100.64.0.0/10 and 198.18.0.0/15
unfoldable pub internal_in_practice : List IpNet
internal_in_practice =
    record { base = v4 1681915904; prefix = 10 } ∷ record { base = v4 3323068416; prefix = 15 } ∷ []

-- what no allowlist opens
unfoldable pub floor : Ip → Bool
floor ip =
    is_loopback ip
    || (is_link_local_unicast ip || (is_link_local_multicast ip || is_unspecified ip))

unfoldable pub allowed : Policy → Bytes → Ip → Bool
unfolding floor matches internal_in_practice
allowed p host ip =
    if floor ip
    then false
    else if matches p host ip
    then true
    else if is_private ip
    then false
    else not (any (λ n. contains n ip) internal_in_practice)
