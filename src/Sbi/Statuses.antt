-- ===== src/Sbi/Statuses.antt =====
-- The statuses 401 and 500 of served requests (internal/sbi/api_convergedcharging.go).
use chf.Sbi.Served.{
  Operation, creates, updates, releases, recharges, body_of, IsUnreadable, IsHandled,
  usual-IsHandled, recharged-IsHandled, Asks, to_create, to_update, to_release, to_recharge,
  Declines, index_text, recharge_text, unreadable, malformed, without_group, no_group, IsRefused,
  Performs, Routed, declines, performs, Served, refused, admitted, IsServed, serve-IsServed,
}
use chf.Base.{ℕ, ◌≡◌, refl, sym, ◌≢◌, ◌⊎◌, ◌↔◌, inl, inr, arith, Bool, List, [], none, some}
use chf.Base.Decimal.{Text}
use chf.Session.Peers.{Peers}
use chf.Resource.{Outside}
use chf.Resource.Reach.{System}
use chf.Resource.Answers.{
  UsualCreated, UsualDone, charging_data_create-UsualCreated, charging_data_update-UsualDone,
  charging_data_release-UsualDone,
}
use mathlib.Core.Path.{subst}
use chf.Sbi.{Endpoint, index, recharge_get, recharge_put, Response, status, Web, serve}

module _ (w : Web) (p : Peers) (o : Outside) where
  readable : (e : Endpoint) (op : Operation) → Asks w e op → ¬ IsUnreadable e
  readable _ _ (to_create q) u = cc
  readable _ _ (to_update q) u = cc
  readable _ _ (to_release q) u = cc
  readable _ _ (to_recharge q) u = cc

  performed-IsHandled :
      (s t : System p o) (op : Operation) (response : Response)
      → Performs w p o s op t response
      → IsHandled response
  unfolding UsualCreated UsualDone
  performed-IsHandled s t (creates data') response (a, q, same, e) = subst IsHandled (sym e) (
      usual-IsHandled a
        (subst (UsualCreated o) q (charging_data_create-UsualCreated o (s.2) (s.0) data')))
  performed-IsHandled s t (updates data' session_id) response (a, q, e) = subst IsHandled (sym e) (
      usual-IsHandled a (
        subst (UsualDone p o) q
          (charging_data_update-UsualDone p o (s.0) (s.1) (s.2) data' session_id)))
  performed-IsHandled s t (releases data' session_id) response (a, q, e) = subst IsHandled (sym e) (
      usual-IsHandled a (
        subst (UsualDone p o) q
          (charging_data_release-UsualDone p o (s.0) (s.1) (s.2) data' session_id)))
  performed-IsHandled s t (recharges ue_id rg) response (q, e) =
      subst IsHandled (sym e) recharged-IsHandled

  abbrev pub IsAnswered : Bool → Text → System p o → Endpoint → System p o → Response → Type 0
  IsAnswered required token s e t response =
      ((status response ≡ 401) ↔ IsRefused w required token)
      × ((status response ≡ 500) ↔ ((¬ IsRefused w required token) × IsUnreadable e))
      × ((t ≡ s) ⊎ IsHandled response)

  bodyless : (e : Endpoint) → body_of e ≡ none → ¬ IsUnreadable e
  bodyless e b u = cc

  with_bytes : (e : Endpoint) (body : List ℕ) → body_of e ≡ some (some body) → ¬ IsUnreadable e
  with_bytes e body b u = cc

  -- A response with neither status, to an admitted request whose body can be read.
  plain-IsAnswered :
      (required : Bool) (token : Text) (s t : System p o) (e : Endpoint) (response : Response)
      → ¬ IsRefused w required token
      → ¬ IsUnreadable e
      → IsHandled response
      → IsAnswered required token s e t response
  unfolding IsHandled
  plain-IsAnswered required token s t e response admitted' readable' (not401, not500) = (
    (λ q. absurd (not401 q), λ r. absurd (admitted' r)),
    (λ q. absurd (not500 q), λ u. absurd (readable' (u.1))),
    inr (not401, not500),
  )

  handled :
      (response : Response) (code : ℕ)
      → status response ≡ code
      → (code ≢ 401) × (code ≢ 500)
      → IsHandled response
  unfolding IsHandled
  handled response code e h = rw e h

  declined-IsAnswered :
      (required : Bool) (token : Text) (s : System p o) (e : Endpoint) (response : Response)
      → ¬ IsRefused w required token
      → Declines w e response
      → IsAnswered required token s e s response
  unfolding status
  declined-IsAnswered required token s _ _ h index_text =
      plain-IsAnswered required token s s index _ h (bodyless index refl)
        (handled _ 200 refl (omega arith, omega arith))
  declined-IsAnswered required token s _ _ h recharge_text =
      plain-IsAnswered required token s s recharge_get _ h (bodyless recharge_get refl)
        (handled _ 200 refl (omega arith, omega arith))
  declined-IsAnswered required token s _ _ h (unreadable u) =
      ((λ q. absurd (omega (arith, q)), λ r. absurd (h r)), (λ q. (h, u), λ v. refl), inl refl)
  declined-IsAnswered required token s _ _ h (malformed {e = e} {body = body} b q) =
      plain-IsAnswered required token s s e _ h (with_bytes e body b)
        (handled _ 400 refl (omega arith, omega arith))
  declined-IsAnswered required token s _ _ h (without_group {ue_id = ue_id}) =
      plain-IsAnswered required token s s (recharge_put ue_id []) _ h
        (bodyless (recharge_put ue_id []) refl) (handled _ 400 refl (omega arith, omega arith))
  declined-IsAnswered required token s _ _ h
        (no_group {ue_id = ue_id} {rating_group = rating_group} q) =
      plain-IsAnswered required token s s (recharge_put ue_id rating_group) _ h
        (bodyless (recharge_put ue_id rating_group) refl)
        (handled _ 400 refl (omega arith, omega arith))

  Routed-IsAnswered :
      (required : Bool) (token : Text) (s t : System p o) (e : Endpoint) (response : Response)
      → ¬ IsRefused w required token
      → Routed w p o s e t response
      → IsAnswered required token s e t response
  Routed-IsAnswered required token s _ e _ h (declines response d) =
      declined-IsAnswered required token s e response h d
  Routed-IsAnswered required token s _ e _ h (performs op t response asked done) =
      plain-IsAnswered required token s t e response h (readable e op asked)
        (performed-IsHandled s t op response done)

  Served-IsAnswered :
      (required : Bool) (token : Text) (s t : System p o) (e : Endpoint) (response : Response)
      → Served w p o required s token e t response
      → IsAnswered required token s e t response
  unfolding status
  Served-IsAnswered required token s _ e _ (refused r) =
      ((λ q. r, λ r. refl), (λ q. absurd (omega (arith, q)), λ u. absurd (u.0 r)), inl refl)
  Served-IsAnswered required token s _ e _ (admitted t response h q) =
      Routed-IsAnswered required token s t e response h q

  -- Where the handler of a request does not panic: its response has the status 401 exactly where
  -- tokens are required and the token is not valid, and the status 500 exactly where that is not
  -- so and the body cannot be read; and the request leaves the system as it was or its response
  -- has neither status. The 500 with which the library of the router answers a panic is not one of
  -- these responses.
  pub serve-IsAnswered :
      (required : Bool) (token : Text) (s t : System p o) (e : Endpoint) (response : Response)
      → serve w p o required token s e ≡ some (t, response)
      → IsAnswered required token s e t response
  serve-IsAnswered required token s t e response h =
      Served-IsAnswered required token s t e response
        (subst (IsServed w p o required s token e) h (serve-IsServed w p o required token s e))
