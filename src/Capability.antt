-- ===== src/Capability.antt =====
-- desktop/protocol/src/capability.rs: what two peers agree on. A lock is held for the length of one
-- call, so each call is one step; log lines are left out.
pub mod Versions
pub mod Outcome
pub mod Defaults
use bit_drive.Prelude.{
  ℕ, min, String, Bool, true, false, ◌&&◌, Option, none, some, List, [], ◌∷◌, ◌==◌, leb, any,
  if◌then◌else◌,
}
use bit_drive.Prelude.Eq.{eqb, string_eq}
use bit_drive.Prelude.Map.{Map, lookup, insert}
use bit_drive.Errors.{Result, ok, err, ◌>>=◌, required_capability_missing}
use bit_drive.Pb.Service.{
  ServiceCapability, CapabilitySet, NegotiatedCapability, VersionCompatibility,
}

pub record CapabilityNegotiator : Type 0 where
  pub local_capabilities : CapabilitySet
  pub negotiated : List NegotiatedCapability

-- `CapabilitySet::default()`, every field empty.
unfoldable pub new : CapabilityNegotiator
new = record {
  local_capabilities = record {
    capabilities = [];
    protocol_version = none;
    software_version = "";
    device_name = "";
    device_id = none;
  };
  negotiated = [];
}

unfoldable pub set_local_capabilities : CapabilityNegotiator → CapabilitySet → CapabilityNegotiator
set_local_capabilities n capabilities = record n { local_capabilities = capabilities }

-- `iter().find(|c| c.service_id == id)`
unfoldable pub find_capability : String → List ServiceCapability → Option ServiceCapability
find_capability id [] = none
find_capability id (c ∷ cs) = if eqb c.service_id id then some c else find_capability id cs

-- The features of the first map whose key the second one has too.
unfoldable pub common_features :
    Map String String → Map String String → Map String String → Map String String
common_features [] remote done = done
common_features ((k, v) ∷ local) remote done =
    common_features local remote (elim (lookup k remote) [ none ↦ done | some w ↦ insert k v done ])

unavailable : String → String → NegotiatedCapability
unavailable service_id reason = record {
  service_id = service_id;
  negotiated_version = 0;
  negotiated_features = [];
  available = false;
  unavailable_reason = reason;
}

unfoldable pub negotiate_single : ServiceCapability → ServiceCapability → NegotiatedCapability
unfolding common_features unavailable
negotiate_single local remote =
    let negotiated_version = min local.version remote.version in
    if negotiated_version == 0 then unavailable local.service_id "Version mismatch" else record {
      service_id = local.service_id;
      negotiated_version = negotiated_version;
      negotiated_features = common_features local.metadata remote.metadata [];
      available = true;
      unavailable_reason = "";
    }

-- The body of the first loop, for the local capability that was found.
unfoldable pub negotiate_found :
    Option ServiceCapability → ServiceCapability → Result NegotiatedCapability
unfolding negotiate_single unavailable
negotiate_found (some local) remote_cap = ok (negotiate_single local remote_cap)
negotiate_found none remote_cap =
    if remote_cap.required
    then err (required_capability_missing remote_cap.service_id)
    else ok (unavailable remote_cap.service_id "Not supported locally")

unfoldable pub negotiate_each :
    List ServiceCapability → List ServiceCapability → Result (List NegotiatedCapability)
unfolding negotiate_found find_capability
negotiate_each local [] = ok []
negotiate_each local (remote_cap ∷ rest) =
    negotiate_found (find_capability remote_cap.service_id local) remote_cap >>= λ here.
    (negotiate_each local rest >>= λ more. ok (here ∷ more))

-- `n.service_id == id && n.available`
abbrev pub is_offered : String → NegotiatedCapability → Bool
is_offered id n = eqb n.service_id id && n.available

-- The second loop.
unfoldable pub check_required :
    List ServiceCapability → List NegotiatedCapability → Result (Unit {0})
check_required [] negotiated = ok tt
check_required (local_cap ∷ rest) negotiated =
    let later = check_required rest negotiated in
    if local_cap.required
    then (if any (is_offered local_cap.service_id) negotiated
        then later
        else err (required_capability_missing local_cap.service_id))
    else later

unfoldable pub agree :
    List ServiceCapability → List ServiceCapability → Result (List NegotiatedCapability)
unfolding negotiate_each check_required
agree local remote = negotiate_each local remote >>= λ negotiated.
    (check_required local negotiated >>= λ checked. ok negotiated)

-- The end of `negotiate`: only a success is kept.
unfoldable pub keep :
    CapabilityNegotiator
    → Result (List NegotiatedCapability)
    → CapabilityNegotiator × Result (List NegotiatedCapability)
keep n (ok negotiated) = (record n { negotiated = negotiated }, ok negotiated)
keep n failed = (n, failed)

unfoldable pub negotiate :
    CapabilityNegotiator → CapabilitySet → CapabilityNegotiator × Result (List NegotiatedCapability)
unfolding agree keep
negotiate n remote = keep n (agree n.local_capabilities.capabilities remote.capabilities)

unfoldable pub is_capability_supported : CapabilityNegotiator → String → ℕ → Bool
is_capability_supported n service_id required_version =
    any (λ c. is_offered service_id c && leb required_version c.negotiated_version) n.negotiated

unfoldable pub is_available : CapabilityNegotiator → String → Bool
is_available n service_id = any (is_offered service_id) n.negotiated

-- `find(..).map(|c| c.negotiated_version)`
unfoldable pub find_version : String → List NegotiatedCapability → Option ℕ
find_version service_id [] = none
find_version service_id (c ∷ cs) =
    if is_offered service_id c then some c.negotiated_version else find_version service_id cs

unfoldable pub get_version : CapabilityNegotiator → String → Option ℕ
unfolding find_version
get_version n service_id = find_version service_id n.negotiated

-- One turn of `check_compatibility`.
unfoldable pub compatibility_with :
    ServiceCapability → Option ServiceCapability → VersionCompatibility
compatibility_with local_cap none = record {
  service_id = local_cap.service_id;
  local_version = local_cap.version;
  remote_version = 0;
  compatible = false;
  incompatibility_reason = "Version mismatch";
}
compatibility_with local_cap (some r) =
    let compatible = r.version == local_cap.version in
    record {
      service_id = local_cap.service_id;
      local_version = local_cap.version;
      remote_version = r.version;
      compatible = compatible;
      incompatibility_reason = if compatible then "" else "Version mismatch";
    }

unfoldable pub compatibilities :
    List ServiceCapability → List ServiceCapability → List VersionCompatibility
unfolding compatibility_with find_capability
compatibilities [] remote = []
compatibilities (local_cap ∷ rest) remote =
    compatibility_with local_cap (find_capability local_cap.service_id remote)
    ∷ compatibilities rest remote

unfoldable pub check_compatibility :
    CapabilityNegotiator → CapabilitySet → List VersionCompatibility
unfolding compatibilities
check_compatibility n remote = compatibilities n.local_capabilities.capabilities remote.capabilities
