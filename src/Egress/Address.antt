-- ===== src/Egress/Address.antt =====
-- The address registry of ephemora_cell/egress_sidecar.py. An address is its number; the scope of an
-- IPv6 address, which `_parse_address` drops, is left out.
use ephemora_cell.Common.{
  ℕ, ◌+◌, ◌*◌, ◌/◌, ◌%◌, ◌^◌, ◌<◌, ◌≡◌, refl, String, Bool, true, false, ◌||◌, Option, none, some,
  List, [], ◌∷◌, nat_beq, if◌then◌else◌, arith, All, Outcome, ok, raised, sym,
}

pub data Address : Type 0 where
  v4 v6 : ℕ → Address

-- A network: its first address, and how many of its low bits are free.
abbrev pub Network : Type 0
Network = ℕ × ℕ

-- `addr in net`
abbrev pub in_network : ℕ → Network → Bool
in_network n net = nat_beq (n / 2 ^ net.1) (net.0 / 2 ^ net.1)

abbrev pub in_any : ℕ → List Network → Bool
in_any n [] = false
in_any n (net ∷ rest) = in_network n net || in_any n rest

abbrev pub octets : ℕ → ℕ → ℕ → ℕ → ℕ
octets a b c d = ((a * 256 + b) * 256 + c) * 256 + d

-- The address that begins with three 16-bit groups and has zeros after them.
abbrev pub groups : ℕ → ℕ → ℕ → ℕ
groups a b c = (a * 2 ^ 32 + b * 2 ^ 16 + c) * 2 ^ 80

-- `_V4_REFUSED`
unfoldable pub v4_refused : List Network
v4_refused =
    (octets 0 0 0 0, 24)
    ∷ (octets 10 0 0 0, 24)
    ∷ (octets 100 64 0 0, 22)
    ∷ (octets 127 0 0 0, 24)
    ∷ (octets 169 254 0 0, 16)
    ∷ (octets 172 16 0 0, 20)
    ∷ (octets 192 0 0 0, 8)
    ∷ (octets 192 0 2 0, 8)
    ∷ (octets 192 31 196 0, 8)
    ∷ (octets 192 88 99 0, 8)
    ∷ (octets 192 168 0 0, 16)
    ∷ (octets 198 18 0 0, 17)
    ∷ (octets 198 51 100 0, 8)
    ∷ (octets 203 0 113 0, 8)
    ∷ (octets 224 0 0 0, 28)
    ∷ (octets 240 0 0 0, 28)
    ∷ []

-- `_V6_REFUSED`
unfoldable pub v6_refused : List Network
v6_refused =
    (0, 0)
    ∷ (1, 0)
    ∷ (groups 0x64 0xff9b 1, 80)
    ∷ (groups 0x100 0 0, 64)
    ∷ (groups 0x2001 0 0, 105)
    ∷ (groups 0x2001 0x100 0, 96)
    ∷ (groups 0x2001 0xdb8 0, 96)
    ∷ (groups 0x3fff 0 0, 108)
    ∷ (groups 0x5f00 0 0, 120)
    ∷ (groups 0xfc00 0 0, 121)
    ∷ (groups 0xfe80 0 0, 118)
    ∷ (groups 0xff00 0 0, 120)
    ∷ []

-- `_embedded_ipv4_of`, for the number of an IPv6 address
unfoldable pub embedded_ipv4_of : ℕ → Option ℕ
embedded_ipv4_of n =
    if nat_beq (n / 2 ^ 112) 0x2002
    then some (n / 2 ^ 80 % 2 ^ 32)
    else if nat_beq (n / 2 ^ 32) 0xffff
    then some (n % 2 ^ 32)
    else if nat_beq (n / 2 ^ 32) (0x0064ff9b * 2 ^ 64)
    then some (n % 2 ^ 32)
    else none

-- The destination is judged where the address stands for one.
abbrev pub refused_v6 : ℕ → Option ℕ → Bool
refused_v6 n (some embedded) = in_any embedded v4_refused
refused_v6 n none = in_any n v6_refused

abbrev pub refused : Address → Bool
refused (v4 n) = in_any n v4_refused
refused (v6 n) = refused_v6 n (embedded_ipv4_of n)

-- `_ip_blocked` of what the text of an address parses to
unfoldable pub ip_blocked : Option Address → Bool
ip_blocked none = true
ip_blocked (some a) = refused a

-- An IPv4 address in one of the three notations of IPv6 for it: mapped, NAT64, and 6to4 with what
-- follows the address there.
pub data Notation : Type 0 where
  mapped nat64 : Notation
  six_to_four : ℕ → Notation

abbrev pub spell : Notation → ℕ → ℕ
spell mapped a = 0xffff * 2 ^ 32 + a
spell nat64 a = 0x0064ff9b * 2 ^ 96 + a
spell (six_to_four rest) a = (0x2002 * 2 ^ 32 + a) * 2 ^ 80 + rest % 2 ^ 80

embedded-spell : (way : Notation) (a : ℕ) → a < 2 ^ 32 → embedded_ipv4_of (spell way a) ≡ some a
unfolding embedded_ipv4_of
embedded-spell mapped a h = ground (arith, h)
embedded-spell nat64 a h = ground (arith, h)
embedded-spell (six_to_four rest) a h = ground (arith, h)

-- An IPv4 address below 2 ^ 32 that is written as an IPv6 one, mapped, by NAT64 or by 6to4, is blocked
-- exactly when it is blocked as it is.
pub ip_blocked-spell :
    (way : Notation) (a : ℕ)
    → a < 2 ^ 32
    → ip_blocked (some (v6 (spell way a))) ≡ ip_blocked (some (v4 a))
unfolding ip_blocked
ip_blocked-spell way a h = rw (ip_blocked, embedded-spell way a h) refl

pub data Error : Type 0 where
  ssrf_blocked : Error

module _ (parse : String → Option Address) where
  abbrev pub public_only : List String → List String
  public_only [] = []
  public_only (ip ∷ rest) =
      if ip_blocked (parse ip) then public_only rest else ip ∷ public_only rest

  abbrev pub some_left : List String → Outcome Error (List String)
  some_left [] = raised ssrf_blocked
  some_left (ip ∷ rest) = ok (ip ∷ rest)

  -- `_guarded_getaddrinfo` inside a fetch, by the addresses that the resolver answers with: a host
  -- that is itself an address, or is absent, keeps them all.
  unfoldable pub guarded_getaddrinfo : Option String → List String → Outcome Error (List String)
  guarded_getaddrinfo none infos = ok infos
  guarded_getaddrinfo (some host) infos = elim (parse host) [
    | some a ↦ ok infos
    | none ↦ some_left (public_only infos)
  ]

  public_only-All :
      (infos : List String) → All (λ ip. ip_blocked (parse ip) ≡ false) (public_only infos)
  public_only-All [] = tt
  public_only-All (ip ∷ rest) = ground (arith, public_only-All rest)

  some_left_same : (xs ys : List String) → some_left xs ≡ ok ys → xs ≡ ys
  some_left_same [] ys h = ground (arith, h)
  some_left_same (x ∷ xs) ys h = ground (arith, h)

  -- A host that is no address is resolved, if at all, only to addresses that are not blocked.
  pub guarded_getaddrinfo-All :
      (host : String) (infos safe : List String)
      → parse host ≡ none
      → guarded_getaddrinfo (some host) infos ≡ ok safe
      → All (λ ip. ip_blocked (parse ip) ≡ false) safe
  unfolding guarded_getaddrinfo
  guarded_getaddrinfo-All host infos safe h g =
      rw (sym (some_left_same (public_only infos) safe (rw (guarded_getaddrinfo, h) at g)))
        (public_only-All infos)
