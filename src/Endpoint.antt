-- ===== src/Endpoint.antt =====
-- toad/internal/endpoint: policy.go, resolver.go and manager.go. A provider's specifications are resolved
-- as a whole; the resolver and the texts of addresses are parameters.
pub mod Whole
use kikimora.Prelude.{
  ℕ, ℤ, String, Bool, true, false, not, ◌&&◌, ◌||◌, Option, none, some, List, [], ◌∷◌, ◌++◌, map,
  if◌then◌else◌, ◌==◌, string_eq, nat_eq, Result, ok, err, ltb,
}
use kikimora.Prelude.Int.{is_positive}
use kikimora.Netip.{Addr, no_addr, v4, v6, is4in6, is_valid_addr}
use kikimora.Toadctl.{AddrPort}
use kikimora.Core.Model.{EndpointState}

pub record EndpointSpec : Type 0 where
  pub network : String
  pub hostname : String
  pub address : AddrPort
  pub port : ℕ  -- uint16

-- Policy.Valid reads these fields.
pub record Policy : Type 0 where
  pub role : String
  pub zone : String
  pub priority : ℤ

unfoldable pub is_valid_policy : Policy → Bool
is_valid_policy p = not (p.role == "") && (not (p.zone == "") && is_positive p.priority)

abbrev pub has_address : EndpointSpec → Bool
has_address s = is_valid_addr s.address.addr

unfoldable pub spec_port : EndpointSpec → ℕ
spec_port s = if has_address s then s.address.port else (if not (s.port == 0) then s.port else 443)

-- The loop of Resolve: mapped and zero addresses are left out.
unfoldable pub with_port : ℕ → List Addr → List AddrPort
with_port port [] = []
with_port port (a ∷ as') =
    let rest = with_port port as' in
    if is4in6 a || not (is_valid_addr a) then rest else record { addr = a; port = port } ∷ rest

-- A resolver that may be missing, by host name.
abbrev pub Resolver : Type 0
Resolver = Option (String → Result String (List Addr))

unfoldable pub resolve :
    (String → Result String (List Addr)) → String → ℕ → Result String (List AddrPort)
resolve r host port = elim (r host) [ err e ↦ err e | ok found ↦ ok (with_port port found) ]

-- Why a refresh stops: without a typed error, or with ErrResolutionUnavailable.
pub data Stop : Type 0 where
  degraded unavailable : String → Stop

-- Without an address the resolution counts as timed out.
abbrev answered : Result String (List AddrPort) → Result Stop (List AddrPort)
answered (err e) = err (unavailable e)
answered (ok []) = err (unavailable "context deadline exceeded")
answered (ok (x ∷ xs)) = ok (x ∷ xs)

abbrev by_name : Resolver → EndpointSpec → Result Stop (List AddrPort)
by_name none s = err (degraded "endpoint has no resolvable address")
by_name (some r) s =
    if s.hostname == ""
    then err (degraded "endpoint has no resolvable address")
    else answered (resolve r s.hostname (spec_port s))

-- One turn of the loop of RefreshSpecsWithError.
unfoldable pub resolve_spec : Resolver → EndpointSpec → Result Stop (List AddrPort)
resolve_spec r s = if has_address s then ok (s.address ∷ []) else by_name r s

unfoldable pub resolve_specs :
    Resolver → List AddrPort → List EndpointSpec → Result Stop (List AddrPort)
resolve_specs r found [] = ok found
resolve_specs r found (s ∷ ss) = elim (resolve_spec r s) [
  | err e ↦ err e
  | ok more ↦ resolve_specs r (found ++ more) ss
]

unfoldable pub keep_degraded : String → EndpointState → EndpointState
keep_degraded message previous = record previous { state = "degraded"; last_error = message }

abbrev ready_state : ℕ → List String → List AddrPort → EndpointState
ready_state epoch configured addresses = record {
  state = "ready";
  applied_underlay_epoch = epoch;
  configured = configured;
  resolved = addresses;
  live = addresses;
  last_error = "";
}

module _ (show_addr_port : AddrPort → String) where
  abbrev pub named : EndpointSpec → String
  named s = if has_address s then show_addr_port s.address else s.hostname

  unfoldable pub commit : ℕ → List AddrPort → List EndpointSpec → EndpointState
  commit epoch addresses specs = ready_state epoch (map named specs) addresses

  unfoldable pub refreshed :
      ℕ
      → List EndpointSpec
      → Result Stop (List AddrPort)
      → EndpointState
      → EndpointState × Option String
  refreshed epoch specs (ok addresses) previous = (commit epoch addresses specs, none)
  refreshed epoch specs (err (degraded why)) previous = (keep_degraded why previous, none)
  refreshed epoch specs (err (unavailable why)) previous = (keep_degraded why previous, some why)

  -- RefreshSpecsWithError: the new state, which is also returned, and the error behind ErrResolutionUnavailable.
  unfoldable pub refresh_specs_with_error :
      ℕ → List EndpointSpec → Resolver → EndpointState → EndpointState × Option String
  refresh_specs_with_error epoch [] r previous =
      (keep_degraded "endpoint provider returned no endpoints" previous, none)
  refresh_specs_with_error epoch (s ∷ ss) r previous =
      refreshed epoch (s ∷ ss) (resolve_specs r [] (s ∷ ss)) previous

-- Refresh, from the answer of a provider that may be missing.
unfoldable pub refresh :
    ℕ → List String → Option (Result String (List AddrPort)) → EndpointState → EndpointState
refresh epoch configured none previous = keep_degraded "endpoint provider is nil" previous
refresh epoch configured (some (err e)) previous = keep_degraded e previous
refresh epoch configured (some (ok addresses)) previous = ready_state epoch configured addresses
