-- ===== src/Routing/Identity.antt =====
-- toad/internal/routing/selected_registry.go (identities and their validation) and prefix.go. The
-- text parser of net/netip is the parameter `parse_addr`.
use kikimora.Prelude.{
  ℕ, ◌+◌, String, ◌≡◌, ◌↔◌, Bool, true, false, not, ◌&&◌, ◌||◌, Option, none, some, arith, eq_iff,
  if◌then◌else◌, Eq, ◌==◌, nat_eq, string_eq, bool_eq, ℤ, pos, Result, ok, err, ◌>>=◌, ◌>>◌,
  fail_if,
}
use kikimora.Prelude.Int.{int_beq_iff, int_eq, is_positive}
use kikimora.Netip.{
  Addr, is_valid_addr, is4, is4_in6, is_loopback, bit_len, Prefix, prefix_eq, is_valid, masked,
}

abbrev pub managed_selected_route_table : ℤ
managed_selected_route_table = pos 254

abbrev pub managed_park_metric : ℕ
managed_park_metric = 42760

abbrev pub scope_link : ℤ
scope_link = pos 253

unfoldable pub is_canonical_prefix : Prefix → Bool
is_canonical_prefix p = is_valid p && p == masked p

unfoldable pub is_host_prefix : Prefix → Bool
is_host_prefix p = is_valid p && is_valid_addr p.ip && p.bits_plus_one == bit_len p.ip + 1

unfoldable pub prefix_family : Prefix → ℕ
prefix_family p = if is4 p.ip then 4 else 6

-- What a `Validate` method finds wrong, one constructor for each message.
pub data IdentityError : Type 0 where
  prefix_not_canonical bad_table bad_ifindex bad_next_hop wrong_hop_family : IdentityError
  bad_protocol bad_metric has_interface not_loopback unknown_kind bad_scope : IdentityError

pub record SelectedRouteIdentity : Type 0 where
  pub table : ℤ
  pub if_index : ℤ
  pub next_hop : String
  pub protocol : ℤ
  pub metric : ℕ  -- uint32
  pub scope : ℤ
  pub interface_luid : ℕ  -- uint64

abbrev pub route_identity_beq : SelectedRouteIdentity → SelectedRouteIdentity → Bool
route_identity_beq i j =
    i.table == j.table
    && (i.if_index == j.if_index
        && (i.next_hop == j.next_hop
            && (i.protocol == j.protocol
                && (i.metric == j.metric
                    && (i.scope == j.scope && i.interface_luid == j.interface_luid)))))

pub route_identity_beq_iff :
    (i j : SelectedRouteIdentity) → (route_identity_beq i j ≡ true) ↔ (i ≡ j)
route_identity_beq_iff i j = ground (
  arith,
  int_beq_iff i.table j.table,
  int_beq_iff i.if_index j.if_index,
  eq_iff i.next_hop j.next_hop,
  int_beq_iff i.protocol j.protocol,
  int_beq_iff i.scope j.scope,
)

instance abbrev pub route_identity_eq : Eq SelectedRouteIdentity
route_identity_eq = record { beq = route_identity_beq; beq_iff = route_identity_beq_iff }

pub data SelectedParkKind : Type 0 where
  unreachable loopback : SelectedParkKind
  other_kind : String → SelectedParkKind

abbrev pub park_kind_beq : SelectedParkKind → SelectedParkKind → Bool
park_kind_beq unreachable unreachable = true
park_kind_beq loopback loopback = true
park_kind_beq (other_kind s) (other_kind t) = s == t
park_kind_beq _ _ = false

pub park_kind_beq_iff : (k l : SelectedParkKind) → (park_kind_beq k l ≡ true) ↔ (k ≡ l)
park_kind_beq_iff unreachable unreachable = ground arith
park_kind_beq_iff unreachable loopback = ground arith
park_kind_beq_iff unreachable (other_kind t) = ground arith
park_kind_beq_iff loopback unreachable = ground arith
park_kind_beq_iff loopback loopback = ground arith
park_kind_beq_iff loopback (other_kind t) = ground arith
park_kind_beq_iff (other_kind s) unreachable = ground arith
park_kind_beq_iff (other_kind s) loopback = ground arith
park_kind_beq_iff (other_kind s) (other_kind t) = ground (arith, eq_iff s t)

pub record SelectedParkIdentity : Type 0 where
  pub kind : SelectedParkKind
  pub table : ℤ
  pub if_index : ℤ
  pub next_hop : String
  pub protocol : ℤ
  pub metric : ℕ  -- uint32
  pub scope : ℤ
  pub interface_luid : ℕ  -- uint64

abbrev pub park_identity_beq : SelectedParkIdentity → SelectedParkIdentity → Bool
park_identity_beq i j =
    park_kind_beq i.kind j.kind
    && (i.table == j.table
        && (i.if_index == j.if_index
            && (i.next_hop == j.next_hop
                && (i.protocol == j.protocol
                    && (i.metric == j.metric
                        && (i.scope == j.scope && i.interface_luid == j.interface_luid))))))

pub park_identity_beq_iff : (i j : SelectedParkIdentity) → (park_identity_beq i j ≡ true) ↔ (i ≡ j)
park_identity_beq_iff i j = ground (
  arith,
  park_kind_beq_iff i.kind j.kind,
  int_beq_iff i.table j.table,
  int_beq_iff i.if_index j.if_index,
  eq_iff i.next_hop j.next_hop,
  int_beq_iff i.protocol j.protocol,
  int_beq_iff i.scope j.scope,
)

instance abbrev pub park_identity_eq : Eq SelectedParkIdentity
park_identity_eq = record { beq = park_identity_beq; beq_iff = park_identity_beq_iff }

abbrev valid_scope : ℤ → Bool
valid_scope s = s == pos 0 || s == scope_link

module _ (parse_addr : String → Option Addr) where
  -- A next hop that parses and is of the prefix's family.
  abbrev check_hop : String → Prefix → Result IdentityError Addr
  check_hop hop p = elim (parse_addr hop) [
    | none ↦ err bad_next_hop
    | some a ↦ if is4_in6 a || not (is4 a == is4 p.ip) then err wrong_hop_family else ok a
  ]

  unfoldable pub validate_route : SelectedRouteIdentity → Prefix → Result IdentityError (Unit {0})
  validate_route i p = do
    fail_if (not (is_valid p) || not (is_canonical_prefix p)) prefix_not_canonical
    fail_if (not (i.table == managed_selected_route_table)) bad_table
    fail_if (not (is_positive i.if_index)) bad_ifindex
    if i.next_hop == "" then ok tt else check_hop i.next_hop p >>= λ _. ok tt
    fail_if (not (is_positive i.protocol)) bad_protocol
    fail_if (not (valid_scope i.scope)) bad_scope

  abbrev check_kind :
      SelectedParkKind → SelectedParkIdentity → Prefix → Result IdentityError (Unit {0})
  check_kind unreachable i p =
      fail_if (not (i.if_index == pos 0) || not (i.next_hop == "") || not (i.interface_luid == 0))
        has_interface
  check_kind loopback i p = do
    fail_if (not (is_positive i.if_index)) bad_ifindex
    hop ← check_hop i.next_hop p
    fail_if (not (is_loopback hop)) not_loopback
  check_kind (other_kind s) i p = err unknown_kind

  unfoldable pub validate_park : SelectedParkIdentity → Prefix → Result IdentityError (Unit {0})
  validate_park i p = do
    fail_if (not (is_valid p) || not (is_canonical_prefix p)) prefix_not_canonical
    fail_if (not (i.table == managed_selected_route_table)) bad_table
    fail_if (not (is_positive i.protocol)) bad_protocol
    fail_if (not (i.metric == managed_park_metric)) bad_metric
    check_kind i.kind i p
    fail_if (not (valid_scope i.scope)) bad_scope
