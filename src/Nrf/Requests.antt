-- ===== src/Nrf/Requests.antt =====
-- The other requests to the NRF (internal/sbi/consumer/nrf_service.go) with the tokens that they carry
-- (`GetTokenCtx` of internal/context/context.go).
use chf.Base.{Bool, Option, none, some, if◌then◌else◌}
use chf.Base.Decimal.{Text}
use chf.Nrf.{NfProfile, empty_profile}

-- The token of a request: none is required, or it is there, or asking for it failed.
pub data TokenCtx (Problem : Type 0) : Type 0 where
  no_token : TokenCtx Problem
  with_token : Text → TokenCtx Problem
  refused : Option Problem → TokenCtx Problem

-- `GetTokenCtx`, with the token server of the library.
unfoldable pub get_token_ctx :
    {Problem : Type 0} → (Text → TokenCtx Problem) → Bool → Text → TokenCtx Problem
get_token_ctx ask required service = if required then ask service else no_token

-- What a call returned: a response, which can be nil, an API error with the model of the call and its
-- problem, or another error.
pub data Called (Problem A : Type 0) : Type 0 where
  responded : Option A → Called Problem A
  api_error : Option (Option Problem) → Called Problem A
  call_failed : Called Problem A

-- What a request returned: a result, nil without an error, or a problem, which can be nil, and an error.
pub data Returned (Problem A : Type 0) : Type 0 where
  result : A → Returned Problem A
  empty_result : Returned Problem A
  problem : Option Problem → Returned Problem A

abbrev model_problem : {Problem : Type 0} → Option (Option Problem) → Option Problem
model_problem none = none
model_problem (some pd) = pd

module _ {Problem Client : Type 0} where
  module _ {A : Type 0} (call : Client → TokenCtx Problem → Called Problem A) where
    abbrev found : Called Problem A → Returned Problem A
    found (responded none) = empty_result
    found (responded (some a)) = result a
    found (api_error model) = problem none
    found call_failed = problem none

    abbrev search_with : Client → TokenCtx Problem → Returned Problem A
    search_with client (refused pd) = problem none
    search_with client no_token = found (call client no_token)
    search_with client (with_token t) = found (call client (with_token t))

    -- `SendSearchNFInstances`, which looks for the client first.
    unfoldable pub send_search_nf_instances : Option Client → TokenCtx Problem → Returned Problem A
    send_search_nf_instances none token = problem none
    send_search_nf_instances (some client) token = search_with client token

    abbrev deregistered : Called Problem A → Returned Problem A
    deregistered (responded r) = empty_result
    deregistered (api_error model) = problem (model_problem model)
    deregistered call_failed = problem none

    abbrev deregister_with : TokenCtx Problem → Option Client → Returned Problem A
    deregister_with token none = problem none
    deregister_with token (some client) = deregistered (call client token)

    -- `SendDeregisterNFInstance`, which asks for the token first.
    unfoldable pub send_deregister_nf_instance :
        TokenCtx Problem → Option Client → Returned Problem A
    send_deregister_nf_instance (refused pd) client = problem pd
    send_deregister_nf_instance no_token client = deregister_with no_token client
    send_deregister_nf_instance (with_token t) client = deregister_with (with_token t) client

  module _ (call : Client → TokenCtx Problem → Called Problem (Option NfProfile)) where
    abbrev updated_profile : Option NfProfile → NfProfile
    updated_profile none = empty_profile
    updated_profile (some nf) = nf

    -- An empty response is an error here.
    abbrev profile_updated : Called Problem (Option NfProfile) → Returned Problem NfProfile
    profile_updated (responded none) = problem none
    profile_updated (responded (some nf)) = result (updated_profile nf)
    profile_updated (api_error model) = problem (model_problem model)
    profile_updated call_failed = problem none

    abbrev update_with : TokenCtx Problem → Option Client → Returned Problem NfProfile
    update_with token none = problem none
    update_with token (some client) = profile_updated (call client token)

    -- `SendUpdateNFInstance`
    unfoldable pub send_update_nf_instance :
        TokenCtx Problem → Option Client → Returned Problem NfProfile
    send_update_nf_instance (refused pd) client = problem pd
    send_update_nf_instance no_token client = update_with no_token client
    send_update_nf_instance (with_token t) client = update_with (with_token t) client
