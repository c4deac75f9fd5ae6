-- ===== src/Sbi/Served.antt =====
-- What one request to the server does (internal/sbi/api_convergedcharging.go): which operation an
-- endpoint asks for, and how a request is served, described apart from the handlers.
use chf.Base.{
  ℕ, ◌%◌, ◌^◌, ◌≡◌, refl, ◌≢◌, inl, inr, arith, Bool, true, false, List, [], ◌∷◌, Option, none,
  some, Option-cases, Bool-cases,
}
use chf.Base.Decimal.{Text, parse_int}
use chf.Models.{ChargingDataRequest}
use chf.Session.Peers.{Peers}
use chf.Resource.{Chf, Outside, Answer, created, updated, no_content, problem}
use chf.Resource.Create.{charging_data_create}
use chf.Resource.Update.{Done, charging_data_update}
use chf.Resource.Release.{charging_data_release}
use chf.Resource.Recharge.{notify_recharge}
use chf.Resource.Reach.{System}
use chf.Resource.Answers.{IsUsual}
use chf.Sbi.{
  Endpoint, index, release_post, update_post, charging_data_post, recharge_get, recharge_put,
  Response, text, answered_with, recharge_done, system_failure, malformed_request,
  missing_rating_group, invalid_rating_group, unauthorized, status, Web, Outcome, created_outcome,
  done_outcome, handle_chargingdata_initial, handle_chargingdata_update,
  handle_chargingdata_release, with_body, release_handler, update_handler, post_handler, recharge,
  put_recharge, route, serve, authorization_check,
}

-- The operations of the resource.
pub data Operation : Type 0 where
  creates : ChargingDataRequest → Operation
  updates : ChargingDataRequest → Text → Operation
  releases : ChargingDataRequest → Text → Operation
  recharges : Text → ℕ → Operation

-- The body that an endpoint reads, where it reads one.
abbrev pub body_of : Endpoint → Option (Option (List ℕ))
body_of (release_post session_id body) = some body
body_of (update_post session_id body) = some body
body_of (charging_data_post body) = some body
body_of _ = none

abbrev pub IsUnreadable : Endpoint → Type 0
IsUnreadable e = body_of e ≡ some none

unfoldable pub IsHandled : Response → Type 0
IsHandled response = (status response ≢ 401) × (status response ≢ 500)

pub usual-IsHandled : (a : Answer) → IsUsual a → IsHandled (answered_with a)
unfolding IsHandled IsUsual status
usual-IsHandled (created location number) h = (omega arith, omega arith)
usual-IsHandled (updated number infos) h = (omega arith, omega arith)
usual-IsHandled no_content h = (omega arith, omega arith)
usual-IsHandled (problem code cause) (inl h) = (omega (arith, h), omega (arith, h))
usual-IsHandled (problem code cause) (inr h) = (omega (arith, h), omega (arith, h))

pub recharged-IsHandled : IsHandled recharge_done
unfolding IsHandled status
recharged-IsHandled = (omega arith, omega arith)

module _ (w : Web) where
  -- The operation that an endpoint asks for.
  pub data Asks : Endpoint → Operation → Type 0 where
    to_create :
        {body : List ℕ} {data' : ChargingDataRequest}
        → w.deserialize body ≡ some data'
        → Asks (charging_data_post (some body)) (creates data')
    to_update :
        {body : List ℕ} {data' : ChargingDataRequest} {session_id : Text}
        → w.deserialize body ≡ some data'
        → Asks (update_post session_id (some body)) (updates data' session_id)
    to_release :
        {body : List ℕ} {data' : ChargingDataRequest} {session_id : Text}
        → w.deserialize body ≡ some data'
        → Asks (release_post session_id (some body)) (releases data' session_id)
    to_recharge :
        {ue_id : Text} {rating_group : Text} {rg : ℕ}
        → parse_int rating_group ≡ some rg
        → Asks (recharge_put ue_id rating_group) (recharges ue_id (rg % 2 ^ 32))

  -- The responses of endpoints that ask for none.
  pub data Declines : Endpoint → Response → Type 0 where
    index_text : Declines index text
    recharge_text : Declines recharge_get text
    unreadable : {e : Endpoint} → IsUnreadable e → Declines e system_failure
    malformed :
        {e : Endpoint} {body : List ℕ}
        → body_of e ≡ some (some body)
        → w.deserialize body ≡ none
        → Declines e malformed_request
    without_group : {ue_id : Text} → Declines (recharge_put ue_id []) missing_rating_group
    no_group :
        {ue_id : Text} {rating_group : Text}
        → parse_int rating_group ≡ none
        → Declines (recharge_put ue_id rating_group) invalid_rating_group

  abbrev pub IsRefused : Bool → Text → Type 0
  IsRefused required token = (required ≡ true) × (w.verify_oauth token ≡ false)

module _ (w : Web) (p : Peers) (o : Outside) where
  -- An operation without a panic, with its answer in the response.
  abbrev pub Performs : System p o → Operation → System p o → Response → Type 0
  Performs s (creates data') t response =
      (a : Answer) × (charging_data_create o (s.2) (s.0) data' ≡ some (t.0, t.2, a))
      × (t.1 ≡ s.1)
      × (response ≡ answered_with a)
  Performs s (updates data' session_id) t response =
      (a : Answer) × (charging_data_update p o (s.0) (s.1) (s.2) data' session_id
        ≡ some (t.0, t.1, t.2, a))
      × (response ≡ answered_with a)
  Performs s (releases data' session_id) t response =
      (a : Answer) × (charging_data_release p o (s.0) (s.1) (s.2) data' session_id
        ≡ some (t.0, t.1, t.2, a))
      × (response ≡ answered_with a)
  Performs s (recharges ue_id rg) t response =
      (t ≡ ((notify_recharge (s.0) ue_id rg).0, s.1, s.2)) × (response ≡ recharge_done)

  -- How a request with a token is served, to a system and a response.
  pub data Routed (s : System p o) (e : Endpoint) : System p o → Response → Type 0 where
    declines : (response : Response) → Declines w e response → Routed s e s response
    performs :
        (op : Operation) (t : System p o) (response : Response)
        → Asks w e op
        → Performs s op t response
        → Routed s e t response

  pub data Served (required : Bool) (s : System p o) (token : Text) (e : Endpoint)
      : System p o → Response → Type 0 where
    refused : IsRefused w required token → Served required s token e s unauthorized
    admitted :
        (t : System p o) (response : Response)
        → ¬ IsRefused w required token
        → Routed s e t response
        → Served required s token e t response

  abbrev IsRouted : System p o → Endpoint → Outcome w p o → Type 0
  IsRouted s e none = Unit
  IsRouted s e (some (t, response)) = Routed s e t response

  decoded :
      (body bytes : List ℕ) (data' : ChargingDataRequest)
      → some body ≡ some bytes
      → w.deserialize bytes ≡ some data'
      → w.deserialize body ≡ some data'
  decoded body bytes data' b q = cc

  initial-Routed :
      (s : System p o) (e : Endpoint) (data' : ChargingDataRequest)
      → Asks w e (creates data')
      → IsRouted s e (handle_chargingdata_initial w p o s data')
  unfolding handle_chargingdata_initial
  initial-Routed (context, st, files) e data' asked =
      go (charging_data_create o files context data') refl
    where
      go :
          (r : Option (Chf × o.Files × Answer))
          → charging_data_create o files context data' ≡ r
          → IsRouted (context, st, files) e (created_outcome w p o st r)
      go none q = tt
      go (some (context', files', a)) q = performs (creates data') _ _ asked (a, q, refl, refl)

  done-Routed :
      (s : System p o) (e : Endpoint) (op : Operation) (r : Option (Done p o))
      → Asks w e op
      → ((t : System p o) (a : Answer)
          → r ≡ some (t.0, t.1, t.2, a)
          → Performs s op t (answered_with a))
      → IsRouted s e (done_outcome w p o r)
  done-Routed s e op none asked h = tt
  done-Routed s e op (some (context', st', files', a)) asked h =
      performs op (context', st', files') (answered_with a) asked (h (context', st', files') a refl)

  update-Routed :
      (s : System p o) (e : Endpoint) (data' : ChargingDataRequest) (session_id : Text)
      → Asks w e (updates data' session_id)
      → IsRouted s e (handle_chargingdata_update w p o s data' session_id)
  unfolding handle_chargingdata_update
  update-Routed (context, st, files) e data' session_id asked =
      done-Routed (context, st, files) e (updates data' session_id)
        (charging_data_update p o context st files data' session_id) asked (λ t a q. (a, q, refl))

  release-Routed :
      (s : System p o) (e : Endpoint) (data' : ChargingDataRequest) (session_id : Text)
      → Asks w e (releases data' session_id)
      → IsRouted s e (handle_chargingdata_release w p o s data' session_id)
  unfolding handle_chargingdata_release
  release-Routed (context, st, files) e data' session_id asked =
      done-Routed (context, st, files) e (releases data' session_id)
        (charging_data_release p o context st files data' session_id) asked (λ t a q. (a, q, refl))

  with_body-Routed :
      (s : System p o) (e : Endpoint) (body : Option (List ℕ))
      (handle : ChargingDataRequest → Outcome w p o)
      → body_of e ≡ some body
      → ((bytes : List ℕ) (data' : ChargingDataRequest)
          → body ≡ some bytes
          → w.deserialize bytes ≡ some data'
          → IsRouted s e (handle data'))
      → IsRouted s e (with_body w p o s body handle)
  unfolding with_body
  with_body-Routed s e none handle b h = declines _ (unreadable b)
  with_body-Routed s e (some body) handle b h = elim (Option-cases (w.deserialize body)) [
    | inl q ↦ rw (q, with_body) (declines _ (malformed b q))
    | inr (data', q) ↦ rw (q, with_body) (h body data' refl q)
  ]

  recharge-Routed :
      (s : System p o) (ue_id rating_group : Text) (rg : Option ℕ)
      → parse_int rating_group ≡ rg
      → IsRouted s (recharge_put ue_id rating_group) (recharge w p o s ue_id rg)
  unfolding recharge
  recharge-Routed s ue_id rating_group none q = declines _ (no_group q)
  recharge-Routed (context, st, files) ue_id rating_group (some rg) q =
      performs (recharges ue_id (rg % 2 ^ 32)) _ _ (to_recharge q) (refl, refl)

  route-Routed : (s : System p o) (e : Endpoint) → IsRouted s e (route w p o s e)
  unfolding route release_handler update_handler post_handler put_recharge
  route-Routed s index = declines _ index_text
  route-Routed s (release_post session_id none) =
      with_body-Routed s (release_post session_id none) none _ refl (λ bytes data' b q. cc)
  route-Routed s (release_post session_id (some body)) =
      with_body-Routed s (release_post session_id (some body)) (some body) _ refl
        (λ bytes data' b q.
          release-Routed s _ data' session_id (to_release (decoded body bytes data' b q)))
  route-Routed s (update_post session_id none) =
      with_body-Routed s (update_post session_id none) none _ refl (λ bytes data' b q. cc)
  route-Routed s (update_post session_id (some body)) =
      with_body-Routed s (update_post session_id (some body)) (some body) _ refl (λ bytes data' b q.
        update-Routed s _ data' session_id (to_update (decoded body bytes data' b q)))
  route-Routed s (charging_data_post none) =
      with_body-Routed s (charging_data_post none) none _ refl (λ bytes data' b q. cc)
  route-Routed s (charging_data_post (some body)) =
      with_body-Routed s (charging_data_post (some body)) (some body) _ refl
        (λ bytes data' b q. initial-Routed s _ data' (to_create (decoded body bytes data' b q)))
  route-Routed s recharge_get = declines _ recharge_text
  route-Routed s (recharge_put ue_id []) = declines _ without_group
  route-Routed s (recharge_put ue_id (c ∷ rating_group)) =
      recharge-Routed s ue_id (c ∷ rating_group) (parse_int (c ∷ rating_group)) refl

  abbrev pub IsServed : Bool → System p o → Text → Endpoint → Outcome w p o → Type 0
  IsServed required s token e none = Unit
  IsServed required s token e (some (t, response)) = Served required s token e t response

  admitted-IsServed :
      (required : Bool) (s : System p o) (token : Text) (e : Endpoint) (r : Outcome w p o)
      → ¬ IsRefused w required token
      → IsRouted s e r
      → IsServed required s token e r
  admitted-IsServed required s token e none h q = tt
  admitted-IsServed required s token e (some (t, response)) h q = admitted t response h q

  authorized :
      (required : Bool) (token : Text)
      → authorization_check w.verify_oauth required token ≡ true
      → ¬ IsRefused w required token
  unfolding authorization_check
  authorized true token h refusal = cc
  authorized false token h refusal = cc

  unauthorized_lem :
      (required : Bool) (token : Text)
      → authorization_check w.verify_oauth required token ≡ false
      → IsRefused w required token
  unfolding authorization_check
  unauthorized_lem true token h = (refl, h)
  unauthorized_lem false token h = cc

  pub serve-IsServed :
      (required : Bool) (token : Text) (s : System p o) (e : Endpoint)
      → IsServed required s token e (serve w p o required token s e)
  unfolding serve
  serve-IsServed required token s e =
      elim (Bool-cases (authorization_check w.verify_oauth required token)) [
        | inl h ↦
            rw (h, serve)
              (admitted-IsServed required s token e (route w p o s e) (authorized required token h)
                (route-Routed s e))
        | inr h ↦ rw (h, serve) (refused (unauthorized_lem required token h))
      ]
