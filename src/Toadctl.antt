-- ===== src/Toadctl.antt =====
-- toad/internal/toadctl/protocol.go: what a Toad reports of itself. `deep_equal` is reflect.DeepEqual
-- on its snapshots.
use kikimora.Prelude.{
  ℕ, String, Bool, true, false, ◌&&◌, Option, List, [], ◌∷◌, ◌==◌, nat_eq, string_eq, bool_eq,
  option_beq, ℤ, pos, none,
}
use kikimora.Prelude.Int.{int_eq}
use kikimora.Netip.{Addr, addr_eq}

pub record AddrPort : Type 0 where
  pub addr : Addr
  pub port : ℕ  -- uint16

abbrev pub addr_port_beq : AddrPort → AddrPort → Bool
addr_port_beq a b = a.addr == b.addr && a.port == b.port

pub record Capabilities : Type 0 where
  pub validate : Bool
  pub rebind : Bool
  pub restart_transport_keeping_tun : Bool
  pub reports_live_endpoints : Bool

pub record TransportEndpoint : Type 0 where
  pub network : String
  pub address : AddrPort
  pub hostname : String
  pub port : ℕ  -- uint16
  pub observed_at : ℕ
  pub active : Bool

pub record FamilyReadiness : Type 0 where
  pub configured : Bool
  pub ready : Bool
  pub reason : String

pub record RouteFamilies : Type 0 where
  pub ipv4 : FamilyReadiness
  pub ipv6 : FamilyReadiness

pub record ValidationResult : Type 0 where
  pub healthy : Bool
  pub state : String
  pub reason : String
  pub families : RouteFamilies

pub record Snapshot : Type 0 where
  pub protocol_version : ℤ
  pub revision : ℕ  -- uint64
  pub generation : ℕ  -- uint64
  pub state : String
  pub reason : String
  pub interface_name : String
  pub if_index : ℤ
  pub mtu : ℤ
  pub addresses : List String
  pub route_ready : Bool
  pub families : RouteFamilies
  pub session_connected : Bool
  pub last_handshake_age_ms : Option ℤ
  pub rx_bytes : ℕ  -- uint64
  pub tx_bytes : ℕ  -- uint64
  pub endpoint : String
  pub capabilities : Capabilities
  pub endpoints : List TransportEndpoint
  pub updated_at : ℕ

abbrev list_beq {ℓ} : {A : Type ℓ} → (A → A → Bool) → List A → List A → Bool
list_beq f [] [] = true
list_beq f (x ∷ xs) (y ∷ ys) = f x y && list_beq f xs ys
list_beq f _ _ = false

abbrev family_beq : FamilyReadiness → FamilyReadiness → Bool
family_beq a b = a.configured == b.configured && (a.ready == b.ready && a.reason == b.reason)

abbrev families_beq : RouteFamilies → RouteFamilies → Bool
families_beq a b = family_beq a.ipv4 b.ipv4 && family_beq a.ipv6 b.ipv6

abbrev capabilities_beq : Capabilities → Capabilities → Bool
capabilities_beq a b =
    a.validate == b.validate
    && (a.rebind == b.rebind
        && (a.restart_transport_keeping_tun == b.restart_transport_keeping_tun
            && a.reports_live_endpoints == b.reports_live_endpoints))

abbrev endpoint_beq : TransportEndpoint → TransportEndpoint → Bool
endpoint_beq a b =
    a.network == b.network
    && (addr_port_beq a.address b.address
        && (a.hostname == b.hostname
            && (a.port == b.port && (a.observed_at == b.observed_at && a.active == b.active))))

unfoldable pub deep_equal : Snapshot → Snapshot → Bool
deep_equal a b =
    a.protocol_version == b.protocol_version
    && (a.revision == b.revision
        && (a.generation == b.generation
            && (a.state == b.state
                && (a.reason == b.reason
                    && (a.interface_name == b.interface_name
                        && (a.if_index == b.if_index
                            && (a.mtu == b.mtu && deep_equal_rest a b)))))))
  where
    deep_equal_rest : Snapshot → Snapshot → Bool
    deep_equal_rest a b =
        list_beq (λ s t. s == t) a.addresses b.addresses
        && (a.route_ready == b.route_ready
            && (families_beq a.families b.families
                && (a.session_connected == b.session_connected
                    && (option_beq a.last_handshake_age_ms b.last_handshake_age_ms
                        && (a.rx_bytes == b.rx_bytes
                            && (a.tx_bytes == b.tx_bytes
                                && (a.endpoint == b.endpoint
                                    && (capabilities_beq a.capabilities b.capabilities
                                        && (list_beq endpoint_beq a.endpoints b.endpoints
                                            && a.updated_at == b.updated_at)))))))))

-- The zero values of the Go types.
abbrev no_addr_port : AddrPort
no_addr_port = record { addr = Addr.no_addr; port = 0 }

abbrev no_family : FamilyReadiness
no_family = record { configured = false; ready = false; reason = "" }

abbrev pub no_families : RouteFamilies
no_families = record { ipv4 = no_family; ipv6 = no_family }

abbrev pub no_validation : ValidationResult
no_validation = record { healthy = false; state = ""; reason = ""; families = no_families }

abbrev pub no_capabilities : Capabilities
no_capabilities = record {
  validate = false;
  rebind = false;
  restart_transport_keeping_tun = false;
  reports_live_endpoints = false;
}

abbrev pub no_snapshot : Snapshot
no_snapshot = record {
  protocol_version = pos 0;
  revision = 0;
  generation = 0;
  state = "";
  reason = "";
  interface_name = "";
  if_index = pos 0;
  mtu = pos 0;
  addresses = [];
  route_ready = false;
  families = no_families;
  session_connected = false;
  last_handshake_age_ms = none;
  rx_bytes = 0;
  tx_bytes = 0;
  endpoint = "";
  capabilities = no_capabilities;
  endpoints = [];
  updated_at = 0;
}
