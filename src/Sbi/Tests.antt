-- ===== src/Sbi/Tests.antt =====
-- Requests to the HTTP layer on concrete data (internal/sbi/api_convergedcharging.go).
use chf.Base.{arith, length, ℕ, List, ap, inl, All, ◌≡◌, refl, inr, [], ◌∷◌, none, some, true}
use chf.Config.Validate.{converged_charging, spending_limit_control}
use chf.Sbi.Routes.{new_router}
use chf.Sbi.Router.{AreApart, IsGuarded, new_router_routes}
use chf.Base.Decimal.{Text, parse_int, scan}
use chf.Diameter.Table.{table}
use chf.Session.Peers.{servers}
use chf.Resource.Recharge.{notify_recharge}
use chf.Resource.Reach.{System, Reach}
use chf.Resource.Sample.{imsi, outside, context, request, no_accounts}
use chf.Base.Maps.{text_eq}
use chf.Sbi.{
  charging_data_post, recharge_put, system_failure, recharge_done, unauthorized, Web, serve, route,
  with_body, post_handler, put_recharge, recharge, authorization_check,
}
use chf.Sbi.Statuses.{IsAnswered, serve-IsAnswered}
use chf.Sbi.Histories.{History, serve_all, serve_all-History}

abbrev start : System (servers table) outside
start = (context, no_accounts, 0)

-- A web with the token "t", in which every body is the request.
abbrev granted_token : Text
granted_token = b't' ∷ []

abbrev guarded : Web
guarded = record {
  verify_oauth = λ token. text_eq token granted_token;
  deserialize = λ body. some request;
}

serve-IsAnswered_example :
    IsAnswered guarded
      (servers table)
      outside
      true
      granted_token
      start
      (recharge_put imsi (b'1' ∷ []))
      ((notify_recharge context imsi 1).0, no_accounts, 0)
      recharge_done
unfolding serve authorization_check text_eq route put_recharge recharge parse_int scan
serve-IsAnswered_example =
    serve-IsAnswered guarded (servers table) outside true granted_token start
      ((notify_recharge context imsi 1).0, no_accounts, 0) (recharge_put imsi (b'1' ∷ []))
      recharge_done refl

-- A request without the token, one whose body cannot be read, and a recharge.
serve_all-History_example :
    History guarded
      (servers table)
      outside
      true
      start
      (([], recharge_put imsi (b'2' ∷ []))
        ∷ (granted_token, charging_data_post none)
        ∷ (granted_token, recharge_put imsi (b'1' ∷ []))
        ∷ [])
      ((notify_recharge context imsi 1).0, no_accounts, 0)
      (unauthorized ∷ system_failure ∷ recharge_done ∷ [])
    × Reach (servers table) outside start ((notify_recharge context imsi 1).0, no_accounts, 0)
unfolding serve_all serve authorization_check text_eq route post_handler with_body put_recharge
    recharge parse_int scan
serve_all-History_example =
    serve_all-History guarded (servers table) outside true start
      ((notify_recharge context imsi 1).0, no_accounts, 0)
      (([], recharge_put imsi (b'2' ∷ []))
        ∷ (granted_token, charging_data_post none)
        ∷ (granted_token, recharge_put imsi (b'1' ∷ []))
        ∷ [])
      (unauthorized ∷ system_failure ∷ recharge_done ∷ []) refl

abbrev services : List Text
services = spending_limit_control ∷ converged_charging ∷ []

new_router_routes_example : AreApart (new_router services) × All IsGuarded (new_router services)
new_router_routes_example =
    new_router_routes services (inr (inr refl), (inl refl, tt)) ((λ e. apart e, tt), (tt, tt))
  where
    apart : spending_limit_control ≡ converged_charging → ⊥
    apart e = absurd (omega (arith, ap {B = ℕ} length e))
