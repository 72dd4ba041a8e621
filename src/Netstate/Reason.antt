-- ===== src/Netstate/Reason.antt =====
-- toad/internal/netstate/snapshot.go: the values of ChangeReason.
use kikimora.Prelude.{String}

abbrev pub initial : String
initial = "initial"

abbrev pub interface : String
interface = "default-interface-changed"

abbrev pub gateway : String
gateway = "gateway-changed"

abbrev pub preferred_source : String
preferred_source = "source-address-changed"

abbrev pub availability : String
availability = "underlay-availability-changed"

abbrev pub wifi_identity : String
wifi_identity = "wifi-identity-changed"

abbrev pub resume_validation : String
resume_validation = "resume-validation"
