-- ===== src/Tests/Ownership.antt =====
-- toad/internal/routing/ownership.go: owners that are replaced and removed.
use kikimora.Prelude.{◌≡◌, List, [], ◌∷◌, pos}
use kikimora.Routing.Ownership.{SelectedRouteOwner, owners_of}
use kikimora.Routing.Ownership.Refined.{
  OwnershipCall, replaces, removes, own_all, promised, owners_of-promised,
}
use kikimora.Tests.Registry.{destination}

abbrev owner : SelectedRouteOwner
owner = record { role = "vpn"; interface = "kikimora0"; if_index = pos 7; prefix = destination }

abbrev owner_calls : List OwnershipCall
owner_calls =
    replaces "work" [] ∷ replaces "vpn" (owner ∷ []) ∷ replaces "" (owner ∷ []) ∷ removes "vpn" ∷ []

owners_of-promised_example : owners_of "vpn" (own_all owner_calls) ≡ promised owner_calls "vpn"
owners_of-promised_example = owners_of-promised owner_calls "vpn"
