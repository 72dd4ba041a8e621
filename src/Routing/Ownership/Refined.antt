-- ===== src/Routing/Ownership/Refined.antt =====
-- toad/internal/routing/ownership.go: MemoryOwnership and what the interface OwnershipRegistry promises.
use kikimora.Prelude.{
  String, ◌≡◌, refl, ◌∙◌, List, [], ◌∷◌, if◌then◌else◌, ◌==◌, string_eq, arith, Bool-cases, inl,
  inr,
}
use kikimora.Prelude.Map.{lookup, lookup-insert, lookup-erase}
use kikimora.Routing.Ownership.{
  SelectedRouteOwner, Owners, owners_of, replaced, replace, remove_owners,
}

pub data OwnershipCall : Type 0 where
  replaces : String → List SelectedRouteOwner → OwnershipCall
  removes : String → OwnershipCall

unfoldable pub own : OwnershipCall → Owners → Owners
own (replaces role os) r = replace role os r
own (removes role) r = remove_owners role r

-- The newest call first, on NewMemoryOwnership.
unfoldable pub own_all : List OwnershipCall → Owners
own_all [] = []
own_all (c ∷ cs) = own c (own_all cs)

-- What one call promises of the owners that a role is read to have.
unfoldable pub promises :
    OwnershipCall → (String → List SelectedRouteOwner) → String → List SelectedRouteOwner
promises (replaces role os) before read =
    if role == "" then before read else (if role == read then os else before read)
promises (removes role) before read = if role == read then [] else before read

-- The interface as a function of the role, without any map.
unfoldable pub promised : List OwnershipCall → String → List SelectedRouteOwner
promised [] read = []
promised (c ∷ cs) read = promises c (promised cs) read

read-replaced :
    (role read : String) (os : List SelectedRouteOwner) (r : Owners)
    → owners_of read (replaced role os r) ≡ (if role == read then os else owners_of read r)
unfolding owners_of
read-replaced role read [] r = ground (arith, lookup-erase role read r)
read-replaced role read (o ∷ os) r = ground (arith, lookup-insert role read (o ∷ os) r)

read-own :
    (c : OwnershipCall) (read : String) (r : Owners)
    → owners_of read (own c r) ≡ promises c (λ role. owners_of role r) read
unfolding own promises replace remove_owners owners_of
read-own (replaces role os) read r = elim (Bool-cases (role == "")) [
  | inl q ↦ rw q refl
  | inr q ↦ rw q (read-replaced role read os r)
]
read-own (removes role) read r = ground (arith, lookup-erase role read r)

promises-ap :
    (c : OwnershipCall) (f g : String → List SelectedRouteOwner) (read : String)
    → f read ≡ g read
    → promises c f read ≡ promises c g read
unfolding promises
promises-ap (replaces role os) f g read h = rw h refl
promises-ap (removes role) f g read h = rw h refl

-- After any calls, MemoryOwnership shows every role the owners that the interface promises: those of the
-- newest Replace of the role after its newest Remove, where a Replace without a role does nothing.
pub owners_of-promised :
    (cs : List OwnershipCall) (read : String) → owners_of read (own_all cs) ≡ promised cs read
unfolding own_all promised owners_of lookup
owners_of-promised [] read = refl
owners_of-promised (c ∷ cs) read =
    read-own c read (own_all cs)
    ∙ promises-ap c (λ role. owners_of role (own_all cs)) (promised cs) read
        (owners_of-promised cs read)
