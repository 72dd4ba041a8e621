-- ===== src/Tests/Endpoint.antt =====
-- toad/internal/endpoint: a specification with an address before one with a name that does not resolve.
use kikimora.Prelude.{String, ◌≡◌, ◌⊎◌, none, some, List, [], ◌∷◌, ok}
use kikimora.Netip.{v4, no_addr}
use kikimora.Toadctl.{AddrPort}
use kikimora.Core.Model.{no_endpoint}
use kikimora.Endpoint.{EndpointSpec, Resolver, refresh_specs_with_error}
use kikimora.Endpoint.Whole.{Committed, Kept, refresh_specs_with_error-Whole}

abbrev show : AddrPort → String
show a = "192.0.2.1:443"

abbrev specs : List EndpointSpec
specs =
    record {
      network = "udp";
      hostname = "";
      address = record { addr = v4 3221225985; port = 443 };
      port = 0;
    }
    ∷ record {
      network = "udp";
      hostname = "vpn.example";
      address = record { addr = no_addr; port = 0 };
      port = 0;
    }
    ∷ []

abbrev resolver : Resolver
resolver = some (λ host. ok (v4 3221225986 ∷ []))

refresh_specs_with_error-Whole_example :
    let v = refresh_specs_with_error show 3 specs resolver no_endpoint in
    (Committed show 3 specs resolver v.0 × (v.1 ≡ none)) ⊎ Kept no_endpoint v.0
refresh_specs_with_error-Whole_example =
    refresh_specs_with_error-Whole show 3 specs resolver no_endpoint
