-- ===== src/Control/WriteAhead.antt =====
-- Write-ahead: what the kernel may be asked for by what the checkpoint file held at that time.
pub mod Rules
pub mod Selected
pub mod Retired
pub mod Parked
pub mod Ahead
use kikimora.Prelude.{
  String, ◌≡◌, Bool, true, false, Option, none, some, List, [], ◌∷◌, if◌then◌else◌, ◌==◌, string_eq,
  ℕ,
}
use kikimora.Netip.{Prefix}
use kikimora.Routing.Record.{
  applying, retiring, park_applying, park_retiring, SelectedPark, SelectedRoute,
}
use kikimora.Control.World.{
  Request, checkpoint, reconcile_selected, remove_selected, reconcile_park, remove_park, History,
  find_prefix,
}

abbrev pub written : Request → Option (String × List SelectedRoute)
written (checkpoint role generation es) = some (role, es)
written _ = none

-- What the role's file is known to hold: nothing is known after a write that failed.
abbrev pub rewritten :
    String
    → Bool
    → Option (String × List SelectedRoute)
    → Option (List SelectedRoute)
    → Option (List SelectedRoute)
rewritten role succeeded none old = old
rewritten role succeeded (some (r, es)) old =
    if r == role then (if succeeded then some es else none) else old

unfoldable pub durable : String → History → Option (List SelectedRoute)
durable role [] = none
durable role ((q, succeeded) ∷ h) = rewritten role succeeded (written q) (durable role h)

-- The file holds this record as the one of the prefix.
abbrev pub Held : String → Prefix → SelectedRoute → History → Type 0
Held role prefix e h =
    (es : List SelectedRoute) × (durable role h ≡ some es) × (find_prefix prefix es ≡ some e)

-- The kernel is asked to write a route or a park only for a record that the file holds as Applying, and
-- to delete one only for a record that it holds as Retiring.
abbrev pub May : Request → History → Type 0
May (reconcile_selected role prefix i e) h = Held role prefix e h × (e.state ≡ applying)
May (remove_selected e) h =
    (role : String) × (prefix : Prefix) × Held role prefix e h × (e.state ≡ retiring)
May (reconcile_park role prefix e) h =
    (p : SelectedPark) × Held role prefix e h × (e.park ≡ some p) × (p.state ≡ park_applying)
May (remove_park role prefix p) h =
    (e : SelectedRoute) × Held role prefix e h × (e.park ≡ some p) × (p.state ≡ park_retiring)
May _ h = Unit {0}

-- Every request of the history was allowed when it was made.
abbrev pub Authorized : History → Type 0
Authorized [] = Unit {0}
Authorized ((q, succeeded) ∷ h) = May q h × Authorized h
