-- ===== src/Netip.antt =====
-- Go's net/netip, as far as the program uses it: addresses and prefixes as Go represents them.
-- The text form of an address (ParseAddr, String) is a parameter wherever it is used.
use kikimora.Prelude.{
  ℕ, ◌+◌, ◌-◌, ◌*◌, ◌/◌, ◌%◌, ◌^◌, String, ◌≡◌, ◌↔◌, Bool, true, false, ◌&&◌, arith, eq_iff, ltb,
  leb, if◌then◌else◌, Eq, ◌==◌, nat_eq, string_eq,
}

-- The zero Addr, an IPv4 address as a 32-bit number, an IPv6 address with its zone.
pub data Addr : Type 0 where
  no_addr : Addr
  v4 : ℕ → Addr
  v6 : ℕ → String → Addr

abbrev pub addr_beq : Addr → Addr → Bool
addr_beq no_addr no_addr = true
addr_beq (v4 a) (v4 b) = a == b
addr_beq (v6 a z) (v6 b y) = a == b && z == y
addr_beq _ _ = false

pub addr_beq_iff : (a b : Addr) → (addr_beq a b ≡ true) ↔ (a ≡ b)
addr_beq_iff no_addr no_addr = ground arith
addr_beq_iff no_addr (v4 b) = ground arith
addr_beq_iff no_addr (v6 b y) = ground arith
addr_beq_iff (v4 a) no_addr = ground arith
addr_beq_iff (v4 a) (v4 b) = ground arith
addr_beq_iff (v4 a) (v6 b y) = ground arith
addr_beq_iff (v6 a z) no_addr = ground arith
addr_beq_iff (v6 a z) (v4 b) = ground arith
addr_beq_iff (v6 a z) (v6 b y) = ground (arith, eq_iff z y)

instance abbrev pub addr_eq : Eq Addr
addr_eq = record { beq = addr_beq; beq_iff = addr_beq_iff }

abbrev pub is_valid_addr : Addr → Bool
is_valid_addr no_addr = false
is_valid_addr _ = true

-- An IPv4 address mapped into IPv6.
abbrev pub is4in6 : Addr → Bool
is4in6 (v6 a zone) = a / 2 ^ 32 == 65535
is4in6 _ = false

abbrev pub is4 : Addr → Bool
is4 (v4 a) = true
is4 _ = false

abbrev pub is4_in6 : Addr → Bool
is4_in6 (v6 a z) = a / 2 ^ 32 == 0xffff
is4_in6 _ = false

abbrev pub is_loopback : Addr → Bool
is_loopback no_addr = false
is_loopback (v4 a) = a / 2 ^ 24 == 127
is_loopback (v6 a z) = if is4_in6 (v6 a z) then (a % 2 ^ 32) / 2 ^ 24 == 127 else a == 1

abbrev pub bit_len : Addr → ℕ
bit_len no_addr = 0
bit_len (v4 a) = 32
bit_len (v6 a z) = 128

-- `bits_plus_one` is 0 in an invalid prefix, as in Go.
pub record Prefix : Type 0 where
  pub ip : Addr
  pub bits_plus_one : ℕ

abbrev pub prefix_beq : Prefix → Prefix → Bool
prefix_beq p q = p.ip == q.ip && p.bits_plus_one == q.bits_plus_one

pub prefix_beq_iff : (p q : Prefix) → (prefix_beq p q ≡ true) ↔ (p ≡ q)
prefix_beq_iff p q = ground (arith, addr_beq_iff p.ip q.ip)

instance abbrev pub prefix_eq : Eq Prefix
prefix_eq = record { beq = prefix_beq; beq_iff = prefix_beq_iff }

abbrev pub is_valid : Prefix → Bool
is_valid p = ltb 0 p.bits_plus_one

-- `ip.Prefix(bits)`: the network of `bits` bits; the zero prefix where that is an error.
abbrev pub network : Addr → ℕ → Addr
network no_addr bits = no_addr
network (v4 a) bits = v4 (a / 2 ^ (32 - bits) * 2 ^ (32 - bits))
network (v6 a z) bits = v6 (a / 2 ^ (128 - bits) * 2 ^ (128 - bits)) ""

abbrev no_prefix : Prefix
no_prefix = record { ip = no_addr; bits_plus_one = 0 }

unfoldable pub masked : Prefix → Prefix
masked p =
    if is_valid p && is_valid_addr p.ip && leb p.bits_plus_one (bit_len p.ip + 1)
    then record p { ip = network p.ip (p.bits_plus_one - 1) }
    else no_prefix
