-- ===== src/Config/Validate.antt =====
-- The validation of the configuration (pkg/factory/config.go). `govalidator.ValidateStruct` is a
-- parameter; it returns `Errors` where it returns an error.
use chf.Base.{
  ℕ, suc, ◌==◌, ◌&&◌, ◌||◌, Bool, true, false, List, [], ◌∷◌, Option, none, some, if◌then◌else◌,
}
use chf.Base.Decimal.{Text}
use chf.Base.Maps.{text_eq}
use chf.Config.{Tls, Sbi, Metrics, Configuration, Config}
use chf.Config.Getters.{text_or}

mutual
  pub data Error : Type 0 where
    message : Text → Error
    invalid : Error → Error
    same_binding : Text → ℕ → Error
    invalid_service : ℕ → Text → Error
    errors : Errors → Error

  pub data Errors : Type 0 where
    no_errors : Errors
    and_error : Error → Errors → Errors

-- The values of `ValidateStruct` for each struct that it is called on.
pub record Validator : Type 0 where
  pub tls : Tls → Bool × Option Errors
  pub sbi : Sbi → Bool × Option Errors
  pub metrics : Metrics → Bool × Option Errors
  pub configuration : Configuration → Bool × Option Errors
  pub config : Config → Bool × Option Errors

abbrev all_invalid : Errors → Errors
all_invalid no_errors = no_errors
all_invalid (and_error e es) = and_error (invalid e) (all_invalid es)

-- `appendInvalid`
abbrev pub append_invalid : Option Errors → Option Error
append_invalid none = none
append_invalid (some es) = some (errors (all_invalid es))

abbrev pub to_error : Option Errors → Option Error
to_error none = none
to_error (some es) = some (errors es)

-- A failure is returned, and otherwise the validation goes on.
abbrev pub or_else : Bool × Option Error → Bool × Option Error → Bool × Option Error
or_else (result, some e) next = (result, some e)
or_else (result, none) next = next

abbrev pub add_error : Option Error → Errors → Errors
add_error none es = es
add_error (some e) es = and_error e es

abbrev pub collected : Errors → Bool × Option Error
collected no_errors = (true, none)
collected (and_error e es) = (false, some (errors (and_error e es)))

abbrev pub clash : Sbi → Metrics → Bool
clash s m = m.port == s.port && text_eq s.binding_ipv4 m.binding_ipv4

abbrev pub check_clash : Option Sbi → Metrics → Bool × Option Error
check_clash none m = (true, none)
check_clash (some s) m =
    if clash s m
    then (false, some (errors (and_error (same_binding s.binding_ipv4 s.port) no_errors)))
    else (true, none)

module _ (v : Validator) where
  unfoldable pub validate_tls : Tls → Bool × Option Error
  validate_tls t = ((v.tls t).0, to_error ((v.tls t).1))

  abbrev pub validate_tls? : Option Tls → Bool × Option Error
  validate_tls? none = (true, none)
  validate_tls? (some t) = validate_tls t

  -- `Sbi.validate`
  unfoldable pub validate_sbi : Sbi → Bool × Option Error
  validate_sbi s = or_else (validate_tls? s.tls) ((v.sbi s).0, append_invalid ((v.sbi s).1))

  abbrev pub validate_sbi? : Option Sbi → Bool × Option Error
  validate_sbi? none = (true, none)
  validate_sbi? (some s) = validate_sbi s

  -- `Metrics.validate`, which collects the errors of both.
  unfoldable pub validate_metrics : Metrics → Bool × Option Error
  validate_metrics m =
      collected
        (add_error ((validate_tls? m.tls).1) (add_error (to_error ((v.metrics m).1)) no_errors))

  -- The part of `Configuration.validate` for metrics.
  unfoldable pub check_metrics : Option Sbi → Option Metrics → Bool × Option Error
  check_metrics sbi none = (true, none)
  check_metrics sbi (some m) = or_else (false, (validate_metrics m).1) (check_clash sbi m)

abbrev pub converged_charging : Text
converged_charging =
    b'n' ∷ b'c' ∷ b'h' ∷ b'f' ∷ b'-' ∷ b'c' ∷ b'o' ∷ b'n' ∷ b'v' ∷ b'e' ∷ b'r' ∷ b'g' ∷ b'e' ∷ b'd'
    ∷ b'c' ∷ b'h' ∷ b'a' ∷ b'r' ∷ b'g' ∷ b'i' ∷ b'n' ∷ b'g' ∷ []

abbrev pub offline_only_charging : Text
offline_only_charging =
    b'n' ∷ b'c' ∷ b'h' ∷ b'f' ∷ b'-' ∷ b'o' ∷ b'f' ∷ b'f' ∷ b'l' ∷ b'i' ∷ b'n' ∷ b'e' ∷ b'o' ∷ b'n'
    ∷ b'l' ∷ b'y' ∷ b'c' ∷ b'h' ∷ b'a' ∷ b'r' ∷ b'g' ∷ b'i' ∷ b'n' ∷ b'g' ∷ []

abbrev pub spending_limit_control : Text
spending_limit_control =
    b'n' ∷ b'c' ∷ b'h' ∷ b'f' ∷ b'-' ∷ b's' ∷ b'p' ∷ b'e' ∷ b'n' ∷ b'd' ∷ b'i' ∷ b'n' ∷ b'g' ∷ b'l'
    ∷ b'i' ∷ b'm' ∷ b'i' ∷ b't' ∷ b'c' ∷ b'o' ∷ b'n' ∷ b't' ∷ b'r' ∷ b'o' ∷ b'l' ∷ []

unfoldable pub is_service : Text → Bool
is_service name =
    text_eq name converged_charging
    || text_eq name offline_only_charging
    || text_eq name spending_limit_control

abbrev pub check_services : ℕ → List Text → Bool × Option Error
check_services i [] = (true, none)
check_services i (name ∷ names) =
    let rest = check_services (suc i) names in
    if is_service name then rest else (false, some (invalid_service i name))

-- A missing identifier is replaced by the UUID that this call makes.
unfoldable pub identified : Text → Configuration → Configuration
identified new_uuid k = record k { nf_instance_id = text_or k.nf_instance_id new_uuid }

module _ (v : Validator) where
  -- `Configuration.validate` behind that.
  unfoldable pub validate_configuration : Configuration → Bool × Option Error
  validate_configuration k = or_else (validate_sbi? v k.sbi) (
      or_else (check_metrics v k.sbi k.metrics) (
        or_else (check_services 0 k.service_name_list)
          ((v.configuration k).0, append_invalid ((v.configuration k).1))))

  abbrev pub validate_struct : Config → Bool × Option Error
  validate_struct c = ((v.config c).0, append_invalid ((v.config c).1))

  abbrev pub validate_with : Text → Config → Option Configuration → Config × (Bool × Option Error)
  validate_with new_uuid c none = (c, validate_struct c)
  validate_with new_uuid c (some k) =
      let k' = identified new_uuid k in
      let c' : Config = record c { configuration = some k' } in
      (c', or_else (validate_configuration k') (validate_struct c'))

  -- `Config.Validate`, with the UUID that the call makes, and the configuration that it leaves.
  unfoldable pub validate : Text → Config → Config × (Bool × Option Error)
  validate new_uuid c = validate_with new_uuid c c.configuration
