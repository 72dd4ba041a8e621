-- ===== src/Tests/Unpark.antt =====
-- toad/internal/control/selected_parking.go: a park whose route is back.
use kikimora.Prelude.{false, ◌≡◌, ◌⊎◌, some, none, [], ◌∷◌}
use kikimora.Routing.Record.{active, park_active, SelectedPark, SelectedRoute}
use kikimora.Routing.Plan.{SelectedKernelRow, route_row}
use kikimora.Control.World.{Env}
use kikimora.Control.WriteAhead.Rules.{Post}
use kikimora.Control.Unpark.{retire_proven_park}
use kikimora.Control.Unpark.Proof.{deletions, Proven, retire_proven_park-Proven}
use kikimora.Tests.Registry.{destination, direct, parked}
use kikimora.Tests.Control.{env, entry, frozen_world}

abbrev row : SelectedKernelRow
row = record { kind = route_row; route = direct 7; park = parked; description = "" }

abbrev routed : Env
routed = record env { rows = λ _ _. (destination, row ∷ []) ∷ [] }

abbrev park : SelectedPark
park = record { desired = parked; owned = some parked; state = park_active; retire_desired = false }

abbrev back : SelectedRoute
back = record (entry active (some park)) { owned = some (direct 7) }

retire_proven_park-Proven_example :
    Post
      (λ _ w'. Proven routed none back park frozen_world.history w'.history)
      (λ w'.
        (deletions w'.history ≡ deletions frozen_world.history)
        ⊎ Proven routed none back park frozen_world.history w'.history)
      (retire_proven_park routed none "vpn" back park frozen_world)
retire_proven_park-Proven_example =
    retire_proven_park-Proven routed none "vpn" back park frozen_world
