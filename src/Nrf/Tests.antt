-- ===== src/Nrf/Tests.antt =====
-- A registration that succeeds at the third round (internal/sbi/consumer/nrf_service.go).
use chf.Base.{ℕ, ◌++◌, true, false, [], ◌∷◌, Option, some, List}
use chf.Nrf.{
  Outcome, heartbeat_register, NfProfile, empty_profile, Registered, answered, registered,
  process_register_response, register, Round, register_nf_instance,
}
use chf.Nrf.Registration.{failures, Ends, Continues, register_nf_instance-Ends}

abbrev client_number : ℕ
client_number = 1

abbrev client : Option ℕ
client = some client_number

abbrev unregistered : Registered
unregistered = record { heartbeat_timer = 0; oauth2_required = false }

abbrev accepted : NfProfile
accepted = record empty_profile { heart_beat_timer = 60; oauth2 = some true }

abbrev rounds : List Round
rounds = failures 2 ++ (answered (some (some accepted)) ∷ [])

abbrev at_start : Registered
at_start = record { heartbeat_timer = 60; oauth2_required = true }

abbrev at_heartbeat : Registered
at_heartbeat = record { heartbeat_timer = 60; oauth2_required = false }

register_nf_instance-Ends_example :
    Ends true unregistered rounds at_start registered
    × ((outcome : Outcome) × Ends false unregistered rounds at_heartbeat outcome
        × Continues at_heartbeat outcome (some 60))
unfolding register_nf_instance register process_register_response heartbeat_register
register_nf_instance-Ends_example = register_nf_instance-Ends client_number true unregistered rounds
