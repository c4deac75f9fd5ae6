-- ===== src/Sbi/Histories.antt =====
-- Lists of requests to the server, and the histories of operations that they take the system through
-- (internal/sbi/api_convergedcharging.go).
use chf.Base.{◌≡◌, Bool, List, [], ◌∷◌, Option, none, some, ◌>>=◌}
use chf.Base.Decimal.{Text}
use mathlib.Core.Path.{subst}
use chf.Session.Peers.{Peers}
use chf.Resource.{Outside}
use chf.Resource.Reach.{System, Reach, here, there, from_nobody-AreKept}
use chf.Resource.Reach
use chf.Sbi.{Endpoint, Response, Web, Outcome, serve}
use chf.Sbi.Served.{
  Operation, creates, updates, releases, recharges, Performs, declines, performs, Served, refused,
  admitted, IsServed, serve-IsServed,
}

module _ (w : Web) (p : Peers) (o : Outside) where
  -- Requests one after another, with their tokens; none where a handler panics.
  unfoldable pub serve_all :
      Bool → System p o → List (Text × Endpoint) → Option (System p o × List Response)
  serve_all required s [] = some (s, [])
  serve_all required s ((token, e) ∷ rest) = serve w p o required token s e >>= λ q.
      (serve_all required (q.0) rest >>= λ r. some (r.0, q.1 ∷ r.1))

  -- Each request is served at the system that the one before left.
  pub data History (required : Bool)
      : System p o → List (Text × Endpoint) → System p o → List Response → Type 0 where
    nothing : {s : System p o} → History required s [] s []
    follows :
        {s t u : System p o} {token : Text} {e : Endpoint} {response : Response}
        {rest : List (Text × Endpoint)} {responses : List Response}
        → Served w p o required s token e t response
        → History required t rest u responses
        → History required s ((token, e) ∷ rest) u (response ∷ responses)

  performed-Reach :
      (s t u : System p o) (op : Operation) (response : Response)
      → Performs w p o s op t response
      → Reach p o t u
      → Reach p o s u
  performed-Reach s t u (creates data') response (a, q, same, e) r =
      there (Reach.creates data' a q) (subst (λ st. Reach p o (t.0, st, t.2) u) same r)
  performed-Reach s t u (updates data' session_id) response (a, q, e) r =
      there (Reach.updates data' session_id a q) r
  performed-Reach s t u (releases data' session_id) response (a, q, e) r =
      there (Reach.releases data' session_id a q) r
  performed-Reach s t u (recharges ue_id rg) response (q, e) r =
      there (Reach.recharges ue_id rg) (subst (λ v. Reach p o v u) q r)

  Served-Reach :
      (required : Bool) (s t u : System p o) (token : Text) (e : Endpoint) (response : Response)
      → Served w p o required s token e t response
      → Reach p o t u
      → Reach p o s u
  Served-Reach required s _ u token e _ (refused h) r = r
  Served-Reach required s _ u token e _ (admitted _ _ h (declines response d)) r = r
  Served-Reach required s _ u token e _ (admitted _ _ h (performs op t response asked done)) r =
      performed-Reach s t u op response done r

  History-Reach :
      (required : Bool) {s t : System p o} {requests : List (Text × Endpoint)}
      {responses : List Response}
      → History required s requests t responses
      → Reach p o s t
  History-Reach required nothing = here
  History-Reach required
        (follows {s = s} {t = t} {u = u} {token = token} {e = e} {response = response} served
          rest) =
      Served-Reach required s t u token e response served (History-Reach required rest)

  abbrev Passes :
      Bool → System p o → List (Text × Endpoint) → Option (System p o × List Response) → Type 0
  Passes required s requests none = Unit
  Passes required s requests (some (t, responses)) = History required s requests t responses

  serve_all-Passes :
      (required : Bool) (s : System p o) (requests : List (Text × Endpoint))
      → Passes required s requests (serve_all required s requests)
  unfolding serve_all
  serve_all-Passes required s [] = nothing
  serve_all-Passes required s ((token, e) ∷ rest) =
      go (serve w p o required token s e) (serve-IsServed w p o required token s e)
        (λ t. serve_all-Passes required t rest)
    where
      after :
          (t : System p o) (response : Response) (r : Option (System p o × List Response))
          → Served w p o required s token e t response
          → Passes required t rest r
          → Passes required s ((token, e) ∷ rest) (r >>= λ r. some (r.0, response ∷ r.1))
      after t response none served h = tt
      after t response (some (u, responses)) served h = follows served h

      go :
          (q : Outcome w p o)
          → IsServed w p o required s token e q
          → ((t : System p o) → Passes required t rest (serve_all required t rest))
          → Passes required s
              ((token, e) ∷ rest)
              (q >>= λ q. (serve_all required (q.0) rest >>= λ r. some (r.0, q.1 ∷ r.1)))
      go none h ih = tt
      go (some (t, response)) h ih = after t response (serve_all required t rest) h (ih t)

  -- Where no handler panics on any request of a list, each request is served at the system that
  -- the one before left: without a valid token, where tokens are required, it is answered as
  -- unauthorized and changes nothing; any other request either asks for no operation, since its
  -- endpoint has none, its body cannot be read or decoded or its rating group is missing or no
  -- number, and changes nothing, or it performs the operation that its endpoint, body and path ask
  -- for, with the answer of that operation as the response. So the operations performed are a
  -- history of creations, updates, releases and recharges.
  pub serve_all-History :
      (required : Bool) (s t : System p o) (requests : List (Text × Endpoint))
      (responses : List Response)
      → serve_all required s requests ≡ some (t, responses)
      → History required s requests t responses × Reach p o s t
  serve_all-History required s t requests responses h =
      let history = subst (Passes required s requests) h (serve_all-Passes required s requests) in
      (history, History-Reach required history)
