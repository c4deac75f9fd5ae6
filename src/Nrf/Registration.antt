-- ===== src/Nrf/Registration.antt =====
-- When the registration of internal/sbi/consumer/nrf_service.go ends, and with what.
use chf.Base.{
  ℕ, zero, suc, ◌≡◌, ◌⊎◌, inl, inr, refl, Bool, true, false, List, [], ◌∷◌, ◌++◌, Option, none,
  some, sym, ◌≢◌,
}
use mathlib.Core.Path.{subst}
use chf.Nrf.{
  NfProfile, Registered, Round, cancelled, answered, Outcome, registered, aborted, not_found,
  waiting, process_register_response, profile_of, setting, register, register_nf_instance, interval,
  heartbeat_register,
}

-- Rounds in which the NRF did not answer.
abbrev pub failures : ℕ → List Round
failures zero = []
failures (suc n) = answered none ∷ failures n

-- The interval of a response, where no profile says 0, and whether it asks for tokens.
abbrev pub timer_of : Option NfProfile → ℕ
timer_of none = 0
timer_of (some nf) = nf.heart_beat_timer

abbrev pub Requires : Option NfProfile → Bool → Type 0
Requires none required = required ≡ false
Requires (some nf) required =
    (nf.oauth2 ≡ some required) ⊎ ((nf.oauth2 ≡ none) × (required ≡ false))

-- What a response leaves in the context.
pub record IsRegisteredBy (apply_oauth2 : Bool) (state left : Registered)
    (response : Option NfProfile) : Type 0 where
  pub timer : left.heartbeat_timer ≡ timer_of response
  pub tokens :
      ((apply_oauth2 ≡ true) × Requires response left.oauth2_required)
      ⊎ ((apply_oauth2 ≡ false) × (left.oauth2_required ≡ state.oauth2_required))

-- How a registration ends: it waits behind rounds without an answer, or the first other round decides.
pub data Ends (apply_oauth2 : Bool) (state : Registered)
    : List Round → Registered → Outcome → Type 0 where
  unanswered : (n : ℕ) → Ends apply_oauth2 state (failures n) state waiting
  ended :
      (n : ℕ) (rounds : List Round)
      → Ends apply_oauth2 state (failures n ++ (cancelled ∷ rounds)) state aborted
  accepted :
      (n : ℕ) (response : Option NfProfile) (rounds : List Round) (left : Registered)
      → IsRegisteredBy apply_oauth2 state left response
      → Ends apply_oauth2 state (failures n ++ (answered (some response) ∷ rounds)) left registered

requires_lem :
    (oauth2 : Option Bool)
    → (oauth2 ≡ some (setting oauth2)) ⊎ ((oauth2 ≡ none) × (setting oauth2 ≡ false))
requires_lem none = inr (refl, refl)
requires_lem (some b) = inl refl

process-IsRegisteredBy :
    (apply_oauth2 : Bool) (state : Registered) (response : Option NfProfile)
    → IsRegisteredBy apply_oauth2 state
        (process_register_response apply_oauth2 state (profile_of response))
        response
unfolding process_register_response
process-IsRegisteredBy true state none = record { timer = refl; tokens = inl (refl, refl) }
process-IsRegisteredBy true state (some nf) = record {
  timer = refl;
  tokens = inl (refl, requires_lem nf.oauth2);
}
process-IsRegisteredBy false state none = record { timer = refl; tokens = inr (refl, refl) }
process-IsRegisteredBy false state (some nf) = record { timer = refl; tokens = inr (refl, refl) }

module _ (apply_oauth2 : Bool) (state : Registered) where
  one_more :
      (rounds : List Round) (left : Registered) (outcome : Outcome)
      → Ends apply_oauth2 state rounds left outcome
      → Ends apply_oauth2 state (answered none ∷ rounds) left outcome
  one_more _ _ _ (unanswered n) = unanswered (suc n)
  one_more _ _ _ (ended n rounds) = ended (suc n) rounds
  one_more _ _ _ (accepted n response rounds left h) = accepted (suc n) response rounds left h

  register-Ends :
      (rounds : List Round)
      → let r = register apply_oauth2 state rounds in Ends apply_oauth2 state rounds (r.0) (r.1)
  unfolding register
  register-Ends [] = unanswered 0
  register-Ends (cancelled ∷ rounds) = ended 0 rounds
  register-Ends (answered none ∷ rounds) = one_more rounds _ _ (register-Ends rounds)
  register-Ends (answered (some response) ∷ rounds) =
      accepted 0 response rounds _ (process-IsRegisteredBy apply_oauth2 state response)

-- The interval that the heartbeat goes on with is that of a registration without an error.
pub data Continues : Registered → Outcome → Option ℕ → Type 0 where
  at_interval : (left : Registered) → Continues left registered (some left.heartbeat_timer)
  after_error :
      (left : Registered) (outcome : Outcome) → outcome ≢ registered → Continues left outcome none

interval-Continues :
    (r : Registered × Outcome) → ((interval r).0 ≡ r.0) × Continues (r.0) (r.1) ((interval r).1)
interval-Continues (state, registered) = (refl, at_interval state)
interval-Continues (state, aborted) = (refl, after_error state aborted (λ e. cc))
interval-Continues (state, not_found) = (refl, after_error state not_found (λ e. cc))
interval-Continues (state, waiting) = (refl, after_error state waiting (λ e. cc))

-- Whatever the rounds are, with a client: the registration goes on exactly through the rounds in
-- which the NRF does not answer, with the context as it was. The first other round ends it: where
-- the context is done, with an error and the context as it was; where the NRF answers, with the
-- interval of its profile, or 0 without a profile, and, at start-up, with tokens required where
-- the profile says so and not where it says nothing, and by the heartbeat with the requirement of
-- tokens as it was; the heartbeat then goes on with that interval, and with none after an error.
pub register_nf_instance-Ends :
    {Client : Type 0} (client : Client) (apply_oauth2 : Bool) (state : Registered)
    (rounds : List Round)
    → let r = register_nf_instance (some client) apply_oauth2 state rounds in
      let heartbeat = heartbeat_register (some client) state rounds in
      Ends apply_oauth2 state rounds (r.0) (r.1)
      × ((outcome : Outcome) × Ends false state rounds (heartbeat.0) outcome
          × Continues (heartbeat.0) outcome (heartbeat.1))
unfolding register_nf_instance heartbeat_register
register_nf_instance-Ends client apply_oauth2 state rounds =
    let r = register false state rounds in
    let (same, continues) = interval-Continues r in
    (
      register-Ends apply_oauth2 state rounds,
      (
        r.1,
        subst (λ left. Ends false state rounds left (r.1)) (sym same)
            (register-Ends false state rounds),
        subst (λ left. Continues left (r.1) ((interval r).1)) (sym same) continues,
      ),
    )
