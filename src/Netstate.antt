-- ===== src/Netstate.antt =====
-- toad/internal/netstate: the identity of the physical underlay, its epochs (compare.go, identity.go,
-- snapshot.go) and the coalescer of invalidations. Times are nanoseconds, the zero time is 0.
pub mod Epochs
pub mod Coalescer
pub mod Reason
use kikimora.Prelude.{
  ℕ, ◌+◌, ◌%◌, String, ◌≡◌, ◌↔◌, Bool, true, false, not, ◌&&◌, ◌||◌, Option, none, some, arith,
  eq_iff, if◌then◌else◌, Eq, ◌==◌, nat_eq, string_eq, bool_eq, option_beq, option_beq_iff, ℤ,
  u64_suc,
}
use kikimora.Prelude.Int.{int_beq_iff, int_eq}
use kikimora.Netip.{Addr, addr_eq, addr_beq_iff, is_valid_addr}

pub record UnderlayPath : Type 0 where
  pub family : ℤ
  pub if_index : ℤ
  pub interface : String
  pub gateway : Addr
  pub preferred_src : Addr
  pub mtu : ℤ
  pub table : ℤ
  pub metric : ℕ  -- uint32

pub record Metadata : Type 0 where
  pub connection_id : String
  pub bssid : String

pub record Snapshot : Type 0 where
  pub epoch : ℕ  -- uint64
  pub ipv4 : Option UnderlayPath
  pub ipv6 : Option UnderlayPath
  pub metadata : Metadata
  pub observed_at : ℕ

abbrev pub path_beq : UnderlayPath → UnderlayPath → Bool
path_beq p q =
    p.family == q.family
    && (p.if_index == q.if_index
        && (p.interface == q.interface
            && (p.gateway == q.gateway
                && (p.preferred_src == q.preferred_src
                    && (p.mtu == q.mtu && (p.table == q.table && p.metric == q.metric))))))

pub path_beq_iff : (p q : UnderlayPath) → (path_beq p q ≡ true) ↔ (p ≡ q)
path_beq_iff p q = ground (
  arith,
  int_beq_iff p.family q.family,
  int_beq_iff p.if_index q.if_index,
  eq_iff p.interface q.interface,
  addr_beq_iff p.gateway q.gateway,
  addr_beq_iff p.preferred_src q.preferred_src,
  int_beq_iff p.mtu q.mtu,
  int_beq_iff p.table q.table,
)

instance abbrev pub path_eq : Eq UnderlayPath
path_eq = record { beq = path_beq; beq_iff = path_beq_iff }

unfoldable pub identity_equal : Snapshot → Snapshot → Bool
identity_equal a b =
    option_beq a.ipv4 b.ipv4 && (option_beq a.ipv6 b.ipv6 && a.metadata.bssid == b.metadata.bssid)

abbrev pub has_path : Option UnderlayPath → Bool
has_path none = false
has_path (some p) = true

abbrev usable : Option UnderlayPath → Bool
usable none = false
usable (some p) = is_valid_addr p.preferred_src

unfoldable pub available : Snapshot → ℕ → Bool
available s family =
    if family == 4 then usable s.ipv4 else if family == 6 then usable s.ipv6 else false

abbrev addr_changed : Option UnderlayPath → Option UnderlayPath → (UnderlayPath → Addr) → Bool
addr_changed none b value = false
addr_changed (some a) none value = false
addr_changed (some a) (some b) value = not (value a == value b)

abbrev path_identity_changed : Option UnderlayPath → Option UnderlayPath → Bool
path_identity_changed none b = false
path_identity_changed (some a) none = false
path_identity_changed (some a) (some b) =
    not (a.if_index == b.if_index) || not (a.interface == b.interface)

-- The reason for the next epoch of two snapshots whose identity differs: the first test that holds.
unfoldable pub change_reason : Snapshot → Snapshot → String
change_reason old next =
    if path_identity_changed old.ipv4 next.ipv4 || path_identity_changed old.ipv6 next.ipv6
    then Reason.interface
    else if addr_changed old.ipv4 next.ipv4 (λ p. p.gateway)
        || addr_changed old.ipv6 next.ipv6 (λ p. p.gateway)
    then Reason.gateway
    else if addr_changed old.ipv4 next.ipv4 (λ p. p.preferred_src)
        || addr_changed old.ipv6 next.ipv6 (λ p. p.preferred_src)
    then Reason.preferred_source
    else if not (not (has_path old.ipv4) == not (has_path next.ipv4))
        || not (not (has_path old.ipv6) == not (has_path next.ipv6))
    then Reason.availability
    else if not (old.metadata.bssid == next.metadata.bssid)
    then Reason.wifi_identity
    else Reason.interface

unfoldable pub compare_snapshots : Snapshot → Snapshot → Snapshot × String × Bool
compare_snapshots old next =
    if old.epoch == 0 && not (identity_equal old next)
    then (record next { epoch = 1 }, Reason.initial, true)
    else if identity_equal old next
    then (record next { epoch = old.epoch }, "", false)
    else (record next { epoch = u64_suc old.epoch }, change_reason old next, true)
