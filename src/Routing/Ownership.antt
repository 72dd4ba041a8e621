-- ===== src/Routing/Ownership.antt =====
-- toad/internal/routing/ownership.go: MemoryOwnership, without the nil receiver.
pub mod Refined
use kikimora.Prelude.{ℤ, String, Option, none, some, List, [], ◌∷◌, if◌then◌else◌, ◌==◌, string_eq}
use kikimora.Prelude.Map.{lookup, insert, erase}
use kikimora.Netip.{Prefix}

pub record SelectedRouteOwner : Type 0 where
  pub role : String
  pub interface : String
  pub if_index : ℤ
  pub prefix : Prefix

abbrev pub Owners : Type 0
Owners = List (String × List SelectedRouteOwner)

abbrev pub listed {ℓ} : {A : Type ℓ} → Option (List A) → List A
listed none = []
listed (some xs) = xs

unfoldable pub owners_of : String → Owners → List SelectedRouteOwner
owners_of role r = listed (lookup role r)

abbrev pub replaced : String → List SelectedRouteOwner → Owners → Owners
replaced role [] r = erase role r
replaced role (o ∷ os) r = insert role (o ∷ os) r

unfoldable pub replace : String → List SelectedRouteOwner → Owners → Owners
replace role routes r = if role == "" then r else replaced role routes r

unfoldable pub remove_owners : String → Owners → Owners
remove_owners role r = erase role r
