-- ===== src/Config/Accepted.antt =====
-- Which configurations the validation of pkg/factory/config.go accepts.
use chf.Base.{
  ◌≡◌, ◌≢◌, refl, sym, ap, ◌↔◌, ◌⊎◌, inl, inr, ◌==◌, ◌&&◌, arith, Bool, true, false, Bool-cases,
  List, [], ◌∷◌, Option, none, some, ℕ, suc, All, if◌then◌else◌,
}
use std.Logic.{↔_trans}
use mathlib.Core.Path.{subst}
use chf.Base.Decimal.{Text}
use chf.Base.Maps.{text_eq, text_eq→eq, text_eq_refl}
use chf.Config.{Tls, Sbi, Metrics, Configuration, Config}
use chf.Config.Getters.{text_or}
use chf.Config.Validate.{
  Error, Errors, Validator, or_else, append_invalid, to_error, validate_tls, validate_tls?,
  validate_sbi, validate_sbi?, validate_metrics, check_clash, check_metrics, converged_charging,
  offline_only_charging, spending_limit_control, is_service, check_services, identified,
  validate_configuration, validate_struct, validate_with, validate, errors, same_binding, no_errors,
  and_error, collected, add_error,
}

abbrev pub IsService : Text → Type 0
IsService name =
    (name ≡ converged_charging) ⊎ ((name ≡ offline_only_charging) ⊎ (name ≡ spending_limit_control))

module _ (v : Validator) where
  abbrev pub IsTls : Option Tls → Type 0
  IsTls none = Unit
  IsTls (some t) = (v.tls t).1 ≡ none

  abbrev pub IsSbi : Option Sbi → Type 0
  IsSbi none = Unit
  IsSbi (some s) = IsTls s.tls × ((v.sbi s).1 ≡ none)

  abbrev pub AreApart : Option Sbi → Metrics → Type 0
  AreApart none m = Unit
  AreApart (some s) m = ¬ ((m.port ≡ s.port) × (s.binding_ipv4 ≡ m.binding_ipv4))

  abbrev pub AreMetrics : Option Sbi → Option Metrics → Type 0
  AreMetrics sbi none = Unit
  AreMetrics sbi (some m) = (IsTls m.tls × ((v.metrics m).1 ≡ none)) × AreApart sbi m

  -- The structs are valid for the library, the services are known, and the metrics have a binding of
  -- their own.
  abbrev pub IsAcceptedConfiguration : Configuration → Type 0
  IsAcceptedConfiguration k =
      IsSbi k.sbi
      × (AreMetrics k.sbi k.metrics
          × (All IsService k.service_name_list × ((v.configuration k).1 ≡ none)))

  abbrev pub IsAcceptedWith : Config → Option Configuration → Type 0
  IsAcceptedWith c none = (v.config c).1 ≡ none
  IsAcceptedWith c (some k) = IsAcceptedConfiguration k × ((v.config c).1 ≡ none)

  abbrev pub IsAccepted : Config → Type 0
  IsAccepted c = IsAcceptedWith c c.configuration

-- The identifier that a configuration has afterwards: its own, where it has one.
abbrev pub kept_or : Text → Text → Text
kept_or [] new_uuid = new_uuid
kept_or (c ∷ id) new_uuid = c ∷ id

abbrev completed_with : Text → Config → Option Configuration → Config
completed_with new_uuid c none = c
completed_with new_uuid c (some k) = record c {
  configuration = some (record k { nf_instance_id = kept_or k.nf_instance_id new_uuid });
}

-- The configuration with an identifier, and all else as it is.
abbrev pub completed : Text → Config → Config
completed new_uuid c = completed_with new_uuid c c.configuration

-- Both parts are without an error.
or_else_iff : (p q : Bool × Option Error) → ((or_else p q).1 ≡ none) ↔ ((p.1 ≡ none) × (q.1 ≡ none))
or_else_iff (r, none) q = (λ e. (refl, e), λ e. e.1)
or_else_iff (r, some x) q = (λ e. cc, λ e. cc)

append_invalid_iff : (o : Option Errors) → (append_invalid o ≡ none) ↔ (o ≡ none)
append_invalid_iff none = (λ e. refl, λ e. refl)
append_invalid_iff (some es) = (λ e. cc, λ e. cc)

to_error_iff : (o : Option Errors) → (to_error o ≡ none) ↔ (o ≡ none)
to_error_iff none = (λ e. refl, λ e. refl)
to_error_iff (some es) = (λ e. cc, λ e. cc)

both_iff : {A B C D : Type 0} → (A ↔ B) → (C ↔ D) → (A × C) ↔ (B × D)
both_iff f g = (λ p. (f.0 (p.0), g.0 (p.1)), λ p. (f.1 (p.0), g.1 (p.1)))

or_else_both :
    {A B : Type 0} (p q : Bool × Option Error)
    → ((p.1 ≡ none) ↔ A)
    → ((q.1 ≡ none) ↔ B)
    → ((or_else p q).1 ≡ none) ↔ (A × B)
or_else_both p q f g = ↔_trans (or_else_iff p q) (both_iff f g)

is_service-true : (name : Text) → is_service name ≡ true → IsService name
unfolding is_service
is_service-true name h = ground (
  arith,
  text_eq→eq name converged_charging,
  text_eq→eq name offline_only_charging,
  text_eq→eq name spending_limit_control,
)

IsService-is_service : (name : Text) → IsService name → is_service name ≡ true
unfolding is_service
IsService-is_service name (inl e) = rw (e, text_eq_refl) refl
IsService-is_service name (inr (inl e)) = rw (e, text_eq_refl) (ground arith)
IsService-is_service name (inr (inr e)) = rw (e, text_eq_refl) (ground arith)

refused :
    (name : Text) (i : ℕ) (names : List Text)
    → is_service name ≡ false
    → (check_services i (name ∷ names)).1 ≡ none
    → ⊥
refused name i names e h = let h' = rw e at h in cc

check_services_iff :
    (i : ℕ) (names : List Text) → ((check_services i names).1 ≡ none) ↔ All IsService names
check_services_iff i [] = (λ e. tt, λ e. refl)
check_services_iff i (name ∷ names) =
    let rest = check_services_iff (suc i) names in
    elim (Bool-cases (is_service name)) [
      | inl e ↦ rw e (λ h. (is_service-true name e, rest.0 h), λ h. rest.1 (h.1))
      | inr e ↦ (
        λ h. absurd (refused name i names e h),
        λ h. let t = IsService-is_service name (h.0) in cc,
      )
    ]

abbrev when_clear : Bool → Option Error → Bool × Option Error
when_clear clashes x = if clashes then (false, x) else (true, none)

clash_iff :
    (i j : ℕ) (s t : Text) (x : Option Error)
    → (x ≡ none → ⊥)
    → ((when_clear (i == j && text_eq s t) x).1 ≡ none) ↔ (¬ ((i ≡ j) × (s ≡ t)))
clash_iff i j s t x failed = (apart (Bool-cases (i == j && text_eq s t)), unclash)
  where
    apart :
        ((i == j && text_eq s t) ≡ true) ⊎ ((i == j && text_eq s t) ≡ false)
        → (when_clear (i == j && text_eq s t) x).1 ≡ none
        → ¬ ((i ≡ j) × (s ≡ t))
    apart (inl e) h p = failed (rw e at h)
    apart (inr e) h p = ground (arith, p.0, text_eq_refl s, ap (text_eq s) (p.1))

    unclash : ¬ ((i ≡ j) × (s ≡ t)) → (when_clear (i == j && text_eq s t) x).1 ≡ none
    unclash h = elim (Bool-cases (i == j && text_eq s t)) [
      | inl e ↦ absurd (h (ground arith, text_eq→eq s t (ground arith)))
      | inr e ↦ rw e refl
    ]

module _ (v : Validator) where
  validate_tls_iff : (t : Option Tls) → ((validate_tls? v t).1 ≡ none) ↔ IsTls v t
  unfolding validate_tls
  validate_tls_iff none = (λ e. tt, λ e. refl)
  validate_tls_iff (some t) = to_error_iff ((v.tls t).1)

  validate_sbi_iff : (s : Option Sbi) → ((validate_sbi? v s).1 ≡ none) ↔ IsSbi v s
  unfolding validate_sbi
  validate_sbi_iff none = (λ e. tt, λ e. refl)
  validate_sbi_iff (some s) =
      or_else_both (validate_tls? v s.tls) ((v.sbi s).0, append_invalid ((v.sbi s).1))
        (validate_tls_iff s.tls) (append_invalid_iff ((v.sbi s).1))

  collected_iff :
      (a b : Option Error)
      → ((collected (add_error a (add_error b no_errors))).1 ≡ none) ↔ ((a ≡ none) × (b ≡ none))
  collected_iff none none = (λ e. (refl, refl), λ e. refl)
  collected_iff none (some y) = (λ e. cc, λ e. cc)
  collected_iff (some x) b = (λ e. cc, λ e. cc)

  validate_metrics_iff :
      (m : Metrics) → ((validate_metrics v m).1 ≡ none) ↔ (IsTls v m.tls × ((v.metrics m).1 ≡ none))
  unfolding validate_metrics
  validate_metrics_iff m =
      ↔_trans (collected_iff ((validate_tls? v m.tls).1) (to_error ((v.metrics m).1)))
        (both_iff (validate_tls_iff m.tls) (to_error_iff ((v.metrics m).1)))

  check_clash_iff : (s : Option Sbi) (m : Metrics) → ((check_clash s m).1 ≡ none) ↔ AreApart v s m
  check_clash_iff none m = (λ e. tt, λ e. refl)
  check_clash_iff (some s) m =
      clash_iff m.port s.port s.binding_ipv4 m.binding_ipv4
        (some (errors (and_error (same_binding s.binding_ipv4 s.port) no_errors))) (λ e. cc)

  check_metrics_iff :
      (s : Option Sbi) (m : Option Metrics) → ((check_metrics v s m).1 ≡ none) ↔ AreMetrics v s m
  unfolding check_metrics
  check_metrics_iff s none = (λ e. tt, λ e. refl)
  check_metrics_iff s (some m) =
      or_else_both (false, (validate_metrics v m).1) (check_clash s m) (validate_metrics_iff m)
        (check_clash_iff s m)

  validate_configuration_iff :
      (k : Configuration) → ((validate_configuration v k).1 ≡ none) ↔ IsAcceptedConfiguration v k
  unfolding validate_configuration
  validate_configuration_iff k = or_else_both (validate_sbi? v k.sbi) _ (validate_sbi_iff k.sbi) (
      or_else_both (check_metrics v k.sbi k.metrics) _ (check_metrics_iff k.sbi k.metrics) (
        or_else_both (check_services 0 k.service_name_list) _
          (check_services_iff 0 k.service_name_list) (append_invalid_iff ((v.configuration k).1))))

  text_or_lem : (id new_uuid : Text) → text_or id new_uuid ≡ kept_or id new_uuid
  text_or_lem [] new_uuid = refl
  text_or_lem (c ∷ id) new_uuid = refl

  identified_lem :
      (new_uuid : Text) (k : Configuration)
      → identified new_uuid k ≡ record k { nf_instance_id = kept_or k.nf_instance_id new_uuid }
  unfolding identified
  identified_lem new_uuid k =
      ap (λ id. record k { nf_instance_id = id }) (text_or_lem k.nf_instance_id new_uuid)

  validate_with_completed :
      (new_uuid : Text) (c : Config) (o : Option Configuration)
      → (validate_with v new_uuid c o).0 ≡ completed_with new_uuid c o
  validate_with_completed new_uuid c none = refl
  validate_with_completed new_uuid c (some k) =
      ap (λ k'. record c { configuration = some k' }) (identified_lem new_uuid k)

  validate_with_iff :
      (new_uuid : Text) (c : Config) (o : Option Configuration)
      → c.configuration ≡ o
      → (((validate_with v new_uuid c o).1).1 ≡ none)
        ↔ IsAccepted v ((validate_with v new_uuid c o).0)
  validate_with_iff new_uuid c none e =
      subst (λ o. ((append_invalid ((v.config c).1)) ≡ none) ↔ IsAcceptedWith v c o) (sym e)
        (append_invalid_iff ((v.config c).1))
  validate_with_iff new_uuid c (some k) e =
      let k' = identified new_uuid k in
      let c' : Config = record c { configuration = some k' } in
      or_else_both (validate_configuration v k') (validate_struct v c')
        (validate_configuration_iff k') (append_invalid_iff ((v.config c').1))

  -- An identifier that is there is not replaced by another UUID.
  text_or_again :
      (id first next : Text) → first ≢ [] → text_or (text_or id first) next ≡ text_or id first
  text_or_again [] [] next h = absurd (h refl)
  text_or_again [] (c ∷ first) next h = refl
  text_or_again (c ∷ id) first next h = refl

  identified_again :
      (first next : Text) (k : Configuration)
      → first ≢ []
      → identified next (identified first k) ≡ identified first k
  unfolding identified
  identified_again first next k h =
      ap (λ id. record k { nf_instance_id = id }) (text_or_again k.nf_instance_id first next h)

  validate_with_again :
      (first next : Text) (c : Config) (o : Option Configuration)
      → first ≢ []
      → c.configuration ≡ o
      → validate v next ((validate_with v first c o).0) ≡ validate_with v first c o
  unfolding validate
  validate_with_again first next c none h e = ap (validate_with v next c) e
  validate_with_again first next c (some k) h e =
      ap
        (λ k'.
          let c' : Config = record c { configuration = some k' } in
          (c', or_else (validate_configuration v k') (validate_struct v c')))
        (identified_again first next k h)

-- Where the UUID that the validation makes is not empty: it leaves the configuration as it was but
-- for a missing identifier, which becomes that UUID. It returns no error exactly where the structs
-- of the configuration that it leaves are valid for the library, each service is one of the three,
-- and metrics have another port or another address than the SBI. Validating the configuration that
-- it leaves, with any other UUID, leaves it as it is and returns the same.
pub validate-IsAccepted :
    (v : Validator) (new_uuid next_uuid : Text) (c : Config)
    → new_uuid ≢ []
    → ((((validate v new_uuid c).1).1 ≡ none) ↔ IsAccepted v (completed new_uuid c))
      × ((validate v new_uuid c).0 ≡ completed new_uuid c)
      × (validate v next_uuid ((validate v new_uuid c).0) ≡ validate v new_uuid c)
unfolding validate
validate-IsAccepted v new_uuid next_uuid c h =
    let left = validate_with_completed v new_uuid c c.configuration in
    (
      rw left at (validate_with_iff v new_uuid c c.configuration refl),
      left,
      validate_with_again v new_uuid next_uuid c c.configuration h refl,
    )
