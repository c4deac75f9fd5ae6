-- ===== src/Context/Advertised.antt =====
-- What the function advertises, and what its server listens on (internal/context/chf_context_init.go,
-- pkg/factory/config.go, internal/sbi/consumer/nrf_service.go).
use chf.Base.{
  ◌^◌, ◌<◌, ◌≡◌, refl, sym, ap, ◌∙◌, ◌⊎◌, inl, inr, arith, [], ◌∷◌, ◌++◌, Option, none, some, All,
}
use mathlib.Core.Path.{subst}
use chf.Base.Decimal.{Text, format_int}
use chf.Base.Maps.{text_eq}
use chf.Config.{Sbi, Diameter, Info, Configuration, Config}
use chf.Config.Getters.{
  https, http, sbi_default_port, text_or, number_or, binding, sbi_of, get_sbi_binding_ip,
  get_sbi_port, get_sbi_scheme,
}
use chf.Context.{
  scheme_text, scheme_of, binding_of, colon_slashes, NfService, ChfContext, Environment,
  add_nf_services, initial, with_services, init_parts, init_with, init_chf_context, default_ipv4,
}
use chf.Nrf.{build_nf_profile}

-- The scheme, the address and the port of a service are those of the server.
pub record IsServed (c : Config) (context : ChfContext) (s : NfService) : Type 0 where
  pub scheme : scheme_text s.scheme ≡ get_sbi_scheme c
  pub address :
      s.api_prefix
      ≡ get_sbi_scheme c
        ++ colon_slashes
        ++ context.register_ipv4
        ++ (b':' ∷ format_int (get_sbi_port c))
  pub end_point :
      s.ip_end_points ≡ record { ipv4_address = context.register_ipv4; port = get_sbi_port c } ∷ []

pub record Listens (env : Text → Text) (c : Config) (context : ChfContext) : Type 0 where
  pub ip : context.binding_ipv4 ≡ get_sbi_binding_ip env c
  pub port : context.sbi_port ≡ get_sbi_port c
  pub served : All (IsServed c context) ((build_nf_profile context).nf_services)

abbrev pub HasScheme : Option Sbi → Type 0
HasScheme none = Unit
HasScheme (some s) = (s.scheme ≡ http) ⊎ (s.scheme ≡ https)

scheme_lem :
    (scheme : Text)
    → (scheme ≡ http) ⊎ (scheme ≡ https)
    → scheme_text (scheme_of scheme) ≡ text_or scheme https
unfolding text_eq
scheme_lem scheme (inl e) = rw e refl
scheme_lem scheme (inr e) = rw e refl

binding_lem : (env : Text → Text) → env [] ≡ [] → (ip : Text) → binding_of env ip ≡ binding env ip
binding_lem env e [] = rw e refl
binding_lem env e (c ∷ ip) = refl

module _ (c : Config) (s : Sbi) (e : sbi_of c.configuration ≡ some s) where
  port_lem : get_sbi_port c ≡ number_or s.port sbi_default_port
  unfolding get_sbi_port
  port_lem = rw (e, get_sbi_port) refl

  get_scheme_lem : get_sbi_scheme c ≡ text_or s.scheme https
  unfolding get_sbi_scheme
  get_scheme_lem = rw (e, get_sbi_scheme) refl

  ip_lem : (env : Text → Text) → get_sbi_binding_ip env c ≡ binding env s.binding_ipv4
  unfolding get_sbi_binding_ip
  ip_lem env = rw (e, get_sbi_binding_ip) refl

  module _ (env : Environment) (k : Configuration) (rf abmf : Diameter) (version : Text)
      (unset : env.getenv [] ≡ []) (has : HasScheme (some s))
      (small : get_sbi_port c < 2 ^ 32) where
    served_lem :
        All
          (IsServed c (with_services version (initial env k s rf abmf)))
          ((build_nf_profile (with_services version (initial env k s rf abmf))).nf_services)
    unfolding build_nf_profile add_nf_services
    served_lem = (
      record {
        scheme = scheme_lem s.scheme has ∙ sym get_scheme_lem;
        address = rw (get_scheme_lem, port_lem, ← scheme_lem s.scheme has) refl;
        end_point =
            ap (λ n. record { ipv4_address = text_or s.register_ipv4 default_ipv4; port = n } ∷ [])
              (omega (arith, port_lem));
      },
      tt,
    )

    initial-Listens : Listens env.getenv c (with_services version (initial env k s rf abmf))
    initial-Listens = record {
      ip = binding_lem env.getenv unset s.binding_ipv4 ∙ sym (ip_lem env.getenv);
      port = sym port_lem;
      served = served_lem;
    }

Started : Environment → Config → ChfContext → Type 0
Started env c context =
    env.getenv [] ≡ []
    → HasScheme (sbi_of c.configuration)
    → get_sbi_port c < 2 ^ 32
    → Listens env.getenv c context

init_parts-Started :
    (env : Environment) (c : Config) (context : ChfContext) (k : Configuration) (info : Option Info)
    (s : Option Sbi) (rf abmf : Option Diameter)
    → sbi_of c.configuration ≡ s
    → init_parts env info k s rf abmf ≡ some context
    → Started env c context
unfolding Started
init_parts-Started env c context k (some info) (some s) (some rf) (some abmf) e h =
    λ unset has small.
      subst (Listens env.getenv c) (cc)
        (initial-Listens c s e env k rf abmf info.version unset (subst HasScheme e has) small)
init_parts-Started env c context k none s rf abmf e h = cc
init_parts-Started env c context k (some info) none rf abmf e h = cc
init_parts-Started env c context k (some info) (some s) none abmf e h = cc
init_parts-Started env c context k (some info) (some s) (some rf) none e h = cc

init_with-Started :
    (env : Environment) (c : Config) (context : ChfContext) (o : Option Configuration)
    → c.configuration ≡ o
    → init_with env c.info o ≡ some context
    → Started env c context
init_with-Started env c context none e h = cc
init_with-Started env c context (some k) e h =
    init_parts-Started env c context k c.info k.sbi k.rf_diameter k.abmf_diameter (ap sbi_of e) h

-- Where the start-up does not panic, the scheme of the SBI is http or https, its port fits in 32
-- bits and the variable without a name is not set: the address and the port of the context are
-- those that the server listens on, and each service that is registered at the NRF has the scheme
-- and the port of the server.
pub init_chf_context-Listens :
    (env : Environment) (c : Config) (context : ChfContext)
    → env.getenv [] ≡ []
    → HasScheme (sbi_of c.configuration)
    → get_sbi_port c < 2 ^ 32
    → init_chf_context env c ≡ some context
    → Listens env.getenv c context
unfolding init_chf_context Started
init_chf_context-Listens env c context unset has small h =
    init_with-Started env c context c.configuration refl h unset has small
