-- ===== src/Sbi.antt =====
-- The HTTP layer of converged charging: the handlers of internal/sbi/api_convergedcharging.go, the
-- handlers of internal/sbi/processor/converged_charging.go behind them, and the check of the access token
-- (internal/util/router_auth_check.go, internal/context/context.go).
pub mod Served
pub mod Statuses
pub mod Histories
pub mod Routes
pub mod Router
mod Tests
use chf.Base.{ℕ, ◌%◌, ◌^◌, Bool, true, false, List, [], ◌∷◌, Option, none, some, if◌then◌else◌}
use chf.Base.Decimal.{Text, parse_int}
use chf.Models.{ChargingDataRequest}
use chf.Session.Peers.{Peers}
use chf.Resource.{Chf, Outside, Answer, created, updated, no_content, problem}
use chf.Resource.Create.{charging_data_create}
use chf.Resource.Update.{Done, charging_data_update}
use chf.Resource.Release.{charging_data_release}
use chf.Resource.Recharge.{notify_recharge}
use chf.Resource.Reach.{System}

-- The routes with what the handlers read of a request: the body, which is none where reading it fails,
-- the reference in the path, and the query.
pub data Endpoint : Type 0 where
  index : Endpoint
  release_post : Text → Option (List ℕ) → Endpoint
  update_post : Text → Option (List ℕ) → Endpoint
  charging_data_post : Option (List ℕ) → Endpoint
  recharge_get : Endpoint
  recharge_put : Text → Text → Endpoint

pub data Response : Type 0 where
  text : Response
  answered_with : Answer → Response
  recharge_done : Response
  system_failure : Response
  malformed_request : Response
  missing_rating_group : Response
  invalid_rating_group : Response
  unauthorized : Response

abbrev answer_status : Answer → ℕ
answer_status (created location number) = 201
answer_status (updated number information) = 200
answer_status no_content = 204
answer_status (problem code cause) = code

unfoldable pub status : Response → ℕ
status text = 200
status (answered_with a) = answer_status a
status recharge_done = 204
status system_failure = 500
status malformed_request = 400
status missing_rating_group = 400
status invalid_rating_group = 400
status unauthorized = 401

-- What the layer uses from outside: the check of a token, and the JSON of a request.
pub record Web : Type 0 where
  pub verify_oauth : Text → Bool
  pub deserialize : List ℕ → Option ChargingDataRequest

-- `AuthorizationCheck`
unfoldable pub authorization_check : (Text → Bool) → Bool → Text → Bool
authorization_check verify required token = if required then verify token else true

module _ (w : Web) (p : Peers) (o : Outside) where
  -- The system after a request, with the response of its handler; none where the handler panics. The
  -- router's library recovers from a panic with status 500; what it leaves then is not modelled.
  abbrev pub Outcome : Type 0
  Outcome = Option (System p o × Response)

  abbrev pub created_outcome : p.State → Option (Chf × o.Files × Answer) → Outcome
  created_outcome st none = none
  created_outcome st (some (context, files, a)) = some ((context, st, files), answered_with a)

  -- `HandleChargingdataInitial`, with the operation behind it.
  unfoldable pub handle_chargingdata_initial : System p o → ChargingDataRequest → Outcome
  handle_chargingdata_initial (context, st, files) data' =
      created_outcome st (charging_data_create o files context data')

  abbrev pub done_outcome : Option (Done p o) → Outcome
  done_outcome none = none
  done_outcome (some (context, st, files, a)) = some ((context, st, files), answered_with a)

  unfoldable pub handle_chargingdata_update : System p o → ChargingDataRequest → Text → Outcome
  handle_chargingdata_update (context, st, files) data' session_id =
      done_outcome (charging_data_update p o context st files data' session_id)

  unfoldable pub handle_chargingdata_release : System p o → ChargingDataRequest → Text → Outcome
  handle_chargingdata_release (context, st, files) data' session_id =
      done_outcome (charging_data_release p o context st files data' session_id)

  -- The body is read and deserialized before the handler runs.
  unfoldable pub with_body :
      System p o → Option (List ℕ) → (ChargingDataRequest → Outcome) → Outcome
  with_body s none handle = some (s, system_failure)
  with_body s (some body) handle = elim (w.deserialize body) [
    | none ↦ some (s, malformed_request)
    | some data' ↦ handle data'
  ]

  -- `RechargePut`: the rating group is converted to 32 bits.
  unfoldable pub recharge : System p o → Text → Option ℕ → Outcome
  recharge s ue_id none = some (s, invalid_rating_group)
  recharge (context, st, files) ue_id (some rg) =
      some (((notify_recharge context ue_id (rg % 2 ^ 32)).0, st, files), recharge_done)

  unfoldable pub put_recharge : System p o → Text → Text → Outcome
  put_recharge s ue_id [] = some (s, missing_rating_group)
  put_recharge s ue_id (c ∷ rating_group) = recharge s ue_id (parse_int (c ∷ rating_group))

  -- `ChargingdataChargingDataRefReleasePost`
  unfoldable pub release_handler : System p o → Text → Option (List ℕ) → Outcome
  release_handler s session_id body =
      with_body s body (λ data'. handle_chargingdata_release s data' session_id)

  -- `ChargingdataChargingDataRefUpdatePost`
  unfoldable pub update_handler : System p o → Text → Option (List ℕ) → Outcome
  update_handler s session_id body =
      with_body s body (λ data'. handle_chargingdata_update s data' session_id)

  -- `ChargingdataPost`
  unfoldable pub post_handler : System p o → Option (List ℕ) → Outcome
  post_handler s body = with_body s body (handle_chargingdata_initial s)

  unfoldable pub route : System p o → Endpoint → Outcome
  route s index = some (s, text)
  route s (release_post session_id body) = release_handler s session_id body
  route s (update_post session_id body) = update_handler s session_id body
  route s (charging_data_post body) = post_handler s body
  route s recharge_get = some (s, text)
  route s (recharge_put ue_id rating_group) = put_recharge s ue_id rating_group

  -- The token is checked before any handler.
  unfoldable pub serve : Bool → Text → System p o → Endpoint → Outcome
  serve required token s e =
      if authorization_check w.verify_oauth required token
      then route s e
      else some (s, unauthorized)
