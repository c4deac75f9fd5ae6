-- ===== src/Sbi/Routes.antt =====
-- The routes of the server (internal/sbi/server.go, routes.go, api_offlineonlycharging.go and
-- api_spendinglimitcontrol.go).
use chf.Base.{ℕ, List, [], ◌∷◌, ◌++◌, Option, none, some, if◌then◌else◌}
use chf.Base.Decimal.{Text}
use chf.Base.Maps.{text_eq}
use chf.Config.Validate.{converged_charging, offline_only_charging, spending_limit_control}

pub data Method : Type 0 where
  get : Method
  post : Method
  put : Method
  delete : Method

-- What a route does: it greets, or answers that it is not implemented, or calls a handler of converged
-- charging.
pub data Action : Type 0 where
  hello : Action
  not_implemented : Action
  release_action : Action
  update_action : Action
  create_action : Action
  recharge_hello : Action
  recharge_action : Action

pub record Route : Type 0 where
  pub method : Method
  pub pattern_text : Text
  pub action : Action

abbrev pub action_status : Action → Option ℕ
action_status hello = some 200
action_status recharge_hello = some 200
action_status not_implemented = some 501
action_status _ = none

-- `getConvergenChargingRoutes`
unfoldable pub converged_charging_routes : List Route
converged_charging_routes =
    record { method = get; pattern_text = b'/' ∷ []; action = hello }
    ∷ record {
      method = post;
      pattern_text =
          b'/' ∷ b'c' ∷ b'h' ∷ b'a' ∷ b'r' ∷ b'g' ∷ b'i' ∷ b'n' ∷ b'g' ∷ b'd' ∷ b'a' ∷ b't' ∷ b'a'
          ∷ b'/' ∷ b':' ∷ b'C' ∷ b'h' ∷ b'a' ∷ b'r' ∷ b'g' ∷ b'i' ∷ b'n' ∷ b'g' ∷ b'D' ∷ b'a' ∷ b't'
          ∷ b'a' ∷ b'R' ∷ b'e' ∷ b'f' ∷ b'/' ∷ b'r' ∷ b'e' ∷ b'l' ∷ b'e' ∷ b'a' ∷ b's' ∷ b'e' ∷ [];
      action = release_action;
    }
    ∷ record {
      method = post;
      pattern_text =
          b'/' ∷ b'c' ∷ b'h' ∷ b'a' ∷ b'r' ∷ b'g' ∷ b'i' ∷ b'n' ∷ b'g' ∷ b'd' ∷ b'a' ∷ b't' ∷ b'a'
          ∷ b'/' ∷ b':' ∷ b'C' ∷ b'h' ∷ b'a' ∷ b'r' ∷ b'g' ∷ b'i' ∷ b'n' ∷ b'g' ∷ b'D' ∷ b'a' ∷ b't'
          ∷ b'a' ∷ b'R' ∷ b'e' ∷ b'f' ∷ b'/' ∷ b'u' ∷ b'p' ∷ b'd' ∷ b'a' ∷ b't' ∷ b'e' ∷ [];
      action = update_action;
    }
    ∷ record {
      method = post;
      pattern_text =
          b'/' ∷ b'c' ∷ b'h' ∷ b'a' ∷ b'r' ∷ b'g' ∷ b'i' ∷ b'n' ∷ b'g' ∷ b'd' ∷ b'a' ∷ b't' ∷ b'a'
          ∷ [];
      action = create_action;
    }
    ∷ record {
      method = get;
      pattern_text =
          b'/' ∷ b'r' ∷ b'e' ∷ b'c' ∷ b'h' ∷ b'a' ∷ b'r' ∷ b'g' ∷ b'i' ∷ b'n' ∷ b'g' ∷ [];
      action = recharge_hello;
    }
    ∷ record {
      method = put;
      pattern_text =
          b'/' ∷ b'r' ∷ b'e' ∷ b'c' ∷ b'h' ∷ b'a' ∷ b'r' ∷ b'g' ∷ b'i' ∷ b'n' ∷ b'g' ∷ b'/' ∷ b':'
          ∷ b'u' ∷ b'e' ∷ b'I' ∷ b'd' ∷ [];
      action = recharge_action;
    }
    ∷ []

-- `getOfflineOnlyChargingRoutes`
unfoldable pub offline_only_charging_routes : List Route
offline_only_charging_routes =
    record { method = get; pattern_text = b'/' ∷ []; action = hello }
    ∷ record {
      method = post;
      pattern_text =
          b'/' ∷ b'o' ∷ b'f' ∷ b'f' ∷ b'l' ∷ b'i' ∷ b'n' ∷ b'e' ∷ b'c' ∷ b'h' ∷ b'a' ∷ b'r' ∷ b'g'
          ∷ b'i' ∷ b'n' ∷ b'g' ∷ b'd' ∷ b'a' ∷ b't' ∷ b'a' ∷ b'/' ∷ b':' ∷ b'O' ∷ b'f' ∷ b'f' ∷ b'l'
          ∷ b'i' ∷ b'n' ∷ b'e' ∷ b'C' ∷ b'h' ∷ b'a' ∷ b'r' ∷ b'g' ∷ b'i' ∷ b'n' ∷ b'g' ∷ b'D' ∷ b'a'
          ∷ b't' ∷ b'a' ∷ b'R' ∷ b'e' ∷ b'f' ∷ b'/' ∷ b'r' ∷ b'e' ∷ b'l' ∷ b'e' ∷ b'a' ∷ b's' ∷ b'e'
          ∷ [];
      action = not_implemented;
    }
    ∷ record {
      method = post;
      pattern_text =
          b'/' ∷ b'o' ∷ b'f' ∷ b'f' ∷ b'l' ∷ b'i' ∷ b'n' ∷ b'e' ∷ b'c' ∷ b'h' ∷ b'a' ∷ b'r' ∷ b'g'
          ∷ b'i' ∷ b'n' ∷ b'g' ∷ b'd' ∷ b'a' ∷ b't' ∷ b'a' ∷ b'/' ∷ b':' ∷ b'O' ∷ b'f' ∷ b'f' ∷ b'l'
          ∷ b'i' ∷ b'n' ∷ b'e' ∷ b'C' ∷ b'h' ∷ b'a' ∷ b'r' ∷ b'g' ∷ b'i' ∷ b'n' ∷ b'g' ∷ b'D' ∷ b'a'
          ∷ b't' ∷ b'a' ∷ b'R' ∷ b'e' ∷ b'f' ∷ b'/' ∷ b'u' ∷ b'p' ∷ b'd' ∷ b'a' ∷ b't' ∷ b'e' ∷ [];
      action = not_implemented;
    }
    ∷ record {
      method = post;
      pattern_text =
          b'/' ∷ b'o' ∷ b'f' ∷ b'f' ∷ b'l' ∷ b'i' ∷ b'n' ∷ b'e' ∷ b'c' ∷ b'h' ∷ b'a' ∷ b'r' ∷ b'g'
          ∷ b'i' ∷ b'n' ∷ b'g' ∷ b'd' ∷ b'a' ∷ b't' ∷ b'a' ∷ [];
      action = not_implemented;
    }
    ∷ []

-- `getSpendingLimitControlRoutes`
unfoldable pub spending_limit_control_routes : List Route
spending_limit_control_routes =
    record { method = get; pattern_text = b'/' ∷ []; action = hello }
    ∷ record {
      method = post;
      pattern_text =
          b'/' ∷ b's' ∷ b'u' ∷ b'b' ∷ b's' ∷ b'c' ∷ b'r' ∷ b'i' ∷ b'p' ∷ b't' ∷ b'i' ∷ b'o' ∷ b'n'
          ∷ b's' ∷ [];
      action = not_implemented;
    }
    ∷ record {
      method = delete;
      pattern_text =
          b'/' ∷ b's' ∷ b'u' ∷ b'b' ∷ b's' ∷ b'c' ∷ b'r' ∷ b'i' ∷ b'p' ∷ b't' ∷ b'i' ∷ b'o' ∷ b'n'
          ∷ b's' ∷ b'/' ∷ b':' ∷ b's' ∷ b'u' ∷ b'b' ∷ b's' ∷ b'c' ∷ b'r' ∷ b'i' ∷ b'p' ∷ b't' ∷ b'i'
          ∷ b'o' ∷ b'n' ∷ b'I' ∷ b'd' ∷ [];
      action = not_implemented;
    }
    ∷ record {
      method = put;
      pattern_text =
          b'/' ∷ b's' ∷ b'u' ∷ b'b' ∷ b's' ∷ b'c' ∷ b'r' ∷ b'i' ∷ b'p' ∷ b't' ∷ b'i' ∷ b'o' ∷ b'n'
          ∷ b's' ∷ b'/' ∷ b':' ∷ b's' ∷ b'u' ∷ b'b' ∷ b's' ∷ b'c' ∷ b'r' ∷ b'i' ∷ b'p' ∷ b't' ∷ b'i'
          ∷ b'o' ∷ b'n' ∷ b'I' ∷ b'd' ∷ [];
      action = not_implemented;
    }
    ∷ []

-- A route of the router: its method and its whole path, and the service that the token is checked for.
pub record Registered : Type 0 where
  pub method : Method
  pub path : Text
  pub service : Text
  pub action : Action

-- `applyRoutes` on a group with a prefix; every method that a route has here is one that is registered.
unfoldable pub apply_routes : Text → Text → List Route → List Registered
apply_routes prefix service [] = []
apply_routes prefix service (r ∷ routes) =
    record {
      method = r.method;
      path = prefix ++ r.pattern_text;
      service = service;
      action = r.action;
    }
    ∷ apply_routes prefix service routes

abbrev pub converged_prefix : Text
converged_prefix =
    b'/' ∷ b'n' ∷ b'c' ∷ b'h' ∷ b'f' ∷ b'-' ∷ b'c' ∷ b'o' ∷ b'n' ∷ b'v' ∷ b'e' ∷ b'r' ∷ b'g' ∷ b'e'
    ∷ b'd' ∷ b'c' ∷ b'h' ∷ b'a' ∷ b'r' ∷ b'g' ∷ b'i' ∷ b'n' ∷ b'g' ∷ b'/' ∷ b'v' ∷ b'3' ∷ []

abbrev pub offline_prefix : Text
offline_prefix =
    b'/' ∷ b'n' ∷ b'c' ∷ b'h' ∷ b'f' ∷ b'-' ∷ b'o' ∷ b'f' ∷ b'f' ∷ b'l' ∷ b'i' ∷ b'n' ∷ b'e' ∷ b'o'
    ∷ b'n' ∷ b'l' ∷ b'y' ∷ b'c' ∷ b'h' ∷ b'a' ∷ b'r' ∷ b'g' ∷ b'i' ∷ b'n' ∷ b'g' ∷ b'/' ∷ b'v'
    ∷ b'1' ∷ []

abbrev pub spending_prefix : Text
spending_prefix =
    b'/' ∷ b'n' ∷ b'c' ∷ b'h' ∷ b'f' ∷ b'-' ∷ b's' ∷ b'p' ∷ b'e' ∷ b'n' ∷ b'd' ∷ b'i' ∷ b'n' ∷ b'g'
    ∷ b'l' ∷ b'i' ∷ b'm' ∷ b'i' ∷ b't' ∷ b'c' ∷ b'o' ∷ b'n' ∷ b't' ∷ b'r' ∷ b'o' ∷ b'l' ∷ b'/'
    ∷ b'v' ∷ b'1' ∷ []

-- The group of a service; a name that is not known is only logged.
unfoldable pub group_of : Text → List Registered
group_of name =
    if text_eq name converged_charging
    then apply_routes converged_prefix name converged_charging_routes
    else if text_eq name offline_only_charging
    then apply_routes offline_prefix name offline_only_charging_routes
    else if text_eq name spending_limit_control
    then apply_routes spending_prefix name spending_limit_control_routes
    else []

-- `newRouter`
unfoldable pub new_router : List Text → List Registered
new_router [] = []
new_router (name ∷ names) = group_of name ++ new_router names
