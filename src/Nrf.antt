-- ===== src/Nrf.antt =====
-- Registration at the NRF (internal/sbi/consumer/nrf_service.go, nrf_heartbeat.go). The calls of the NRF
-- are inputs: what the client library returned.
pub mod Registration
pub mod Requests
mod Tests
use chf.Base.{ℕ, Bool, true, false, List, [], ◌∷◌, Option, none, some, if◌then◌else◌}
use chf.Base.Decimal.{Text}
use chf.Base.Maps.{text_eq}
use chf.Context.{NfService, ChfContext}
use chf.Resource.Store.{update_text}

-- The parts of a profile that are read or written. `oauth2` is the entry of its custom information, if
-- that is a map with a Boolean there.
pub record NfProfile : Type 0 where
  pub nf_instance_id : Text
  pub ipv4_addresses : List Text
  pub nf_services : List NfService
  pub heart_beat_timer : ℕ
  pub oauth2 : Option Bool

abbrev pub empty_profile : NfProfile
empty_profile = record {
  nf_instance_id = [];
  ipv4_addresses = [];
  nf_services = [];
  heart_beat_timer = 0;
  oauth2 = none;
}

-- What the service and the context keep of a registration.
pub record Registered : Type 0 where
  pub heartbeat_timer : ℕ
  pub oauth2_required : Bool

module _ {Client : Type 0} (new_client : Text → Client) where
  -- `getNFManagementClient` and `getNFDiscClient`: one client for each address, and none without one.
  unfoldable pub get_client : (Text → Option Client) → Text → Option Client × (Text → Option Client)
  get_client clients [] = (none, clients)
  get_client clients (c ∷ uri) = elim (clients (c ∷ uri)) [
    | some client ↦ (some client, clients)
    | none ↦
        (some (new_client (c ∷ uri)), update_text clients (c ∷ uri) (some (new_client (c ∷ uri))))
  ]

abbrev pub services_of : List (Text × NfService) → List NfService
services_of [] = []
services_of ((name, s) ∷ services) = s ∷ services_of services

-- `buildNfProfile`, with the services in the order in which the map gives them.
unfoldable pub build_nf_profile : ChfContext → NfProfile
build_nf_profile context = record empty_profile {
  nf_instance_id = context.nf_id;
  ipv4_addresses = context.register_ipv4 ∷ [];
  nf_services = services_of context.nf_service;
}

abbrev pub setting : Option Bool → Bool
setting none = false
setting (some oauth2) = oauth2

-- `processRegisterResponse`; a setting that is not applied is only logged.
unfoldable pub process_register_response : Bool → Registered → NfProfile → Registered
process_register_response apply_oauth2 state nf = record {
  heartbeat_timer = nf.heart_beat_timer;
  oauth2_required = if apply_oauth2 then setting nf.oauth2 else state.oauth2_required;
}

-- One round of the loop: whether the context is done, and otherwise the response, which can have no
-- profile; an error and an empty response are none.
pub data Round : Type 0 where
  cancelled : Round
  answered : Option (Option NfProfile) → Round

pub data Outcome : Type 0 where
  registered : Outcome
  aborted : Outcome
  not_found : Outcome
  waiting : Outcome

abbrev pub profile_of : Option NfProfile → NfProfile
profile_of none = empty_profile
profile_of (some nf) = nf

-- The loop of `RegisterNFInstance` over the rounds that there are.
unfoldable pub register : Bool → Registered → List Round → Registered × Outcome
register apply_oauth2 state [] = (state, waiting)
register apply_oauth2 state (cancelled ∷ rounds) = (state, aborted)
register apply_oauth2 state (answered none ∷ rounds) = register apply_oauth2 state rounds
register apply_oauth2 state (answered (some nf) ∷ rounds) =
    (process_register_response apply_oauth2 state (profile_of nf), registered)

-- `RegisterNFInstance`, with the client.
unfoldable pub register_nf_instance :
    {Client : Type 0} → Option Client → Bool → Registered → List Round → Registered × Outcome
register_nf_instance none apply_oauth2 state rounds = (state, not_found)
register_nf_instance (some client) apply_oauth2 state rounds = register apply_oauth2 state rounds

abbrev pub interval : Registered × Outcome → Registered × Option ℕ
interval (state, registered) = (state, some state.heartbeat_timer)
interval (state, aborted) = (state, none)
interval (state, not_found) = (state, none)
interval (state, waiting) = (state, none)

-- The heartbeat's registration: the interval, where there is no error.
unfoldable pub heartbeat_register :
    {Client : Type 0} → Option Client → Registered → List Round → Registered × Option ℕ
heartbeat_register client state rounds = interval (register_nf_instance client false state rounds)
