-- ===== src/Routing/Record.antt =====
-- toad/internal/routing/selected_registry.go: the registered record of one destination and its park
-- transaction. A state that is decoded from a file and is none of the program's constants is kept
-- as `other_...`.
use kikimora.Prelude.{
  ℕ, String, ◌≡◌, Bool, true, false, Option, ◌&&◌, arith, eq_iff, ◌↔◌, Eq, ◌==◌, string_eq,
}
use kikimora.Netip.{Prefix, prefix_beq_iff, prefix_eq}
use kikimora.Routing.Identity.{SelectedRouteIdentity, SelectedParkIdentity}

pub data SelectedRouteSource : Type 0 where
  dns static_source : SelectedRouteSource
  other_source : String → SelectedRouteSource

abbrev pub source_beq : SelectedRouteSource → SelectedRouteSource → Bool
source_beq dns dns = true
source_beq static_source static_source = true
source_beq (other_source s) (other_source t) = s == t
source_beq _ _ = false

pub data SelectedRouteState : Type 0 where
  pending applying active retiring : SelectedRouteState
  other_state : String → SelectedRouteState

pub data SelectedParkState : Type 0 where
  park_pending park_applying park_active park_retiring : SelectedParkState
  other_park_state : String → SelectedParkState

pub record SelectedPark : Type 0 where
  pub state : SelectedParkState
  pub desired : SelectedParkIdentity
  pub owned : Option SelectedParkIdentity
  pub retire_desired : Bool

pub record SelectedRoute : Type 0 where
  pub role : String
  pub zone : String
  pub prefix : Prefix
  pub source : SelectedRouteSource
  pub toad_generation : ℕ  -- uint64
  pub route_generation : ℕ  -- uint64
  pub interface : String
  pub desired : SelectedRouteIdentity
  pub owned : Option SelectedRouteIdentity
  pub state : SelectedRouteState
  pub retire_desired : Bool
  pub park : Option SelectedPark

-- Ownership is the (role, prefix) pair.
pub record SelectedRouteKey : Type 0 where
  pub role : String
  pub prefix : Prefix

abbrev pub key_beq : SelectedRouteKey → SelectedRouteKey → Bool
key_beq k l = k.role == l.role && k.prefix == l.prefix

pub key_beq_iff : (k l : SelectedRouteKey) → (key_beq k l ≡ true) ↔ (k ≡ l)
key_beq_iff k l = ground (arith, eq_iff k.role l.role, prefix_beq_iff k.prefix l.prefix)

instance abbrev pub key_eq : Eq SelectedRouteKey
key_eq = record { beq = key_beq; beq_iff = key_beq_iff }
