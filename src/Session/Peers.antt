-- ===== src/Session/Peers.antt =====
-- The rating and account functions as a session meets them (internal/rating/rating.go and
-- internal/abmf/abmf.go): a request is answered, or fails. An instance is made of the two servers,
-- over a transport that loses nothing; a server that returns without an answer, or panics, lets the
-- request time out.
use chf.Base.{Option, none, some}
use chf.Diameter.{
  AccountDebitRequest, AccountDebitResponse, ServiceUsageRequest, ServiceUsageResponse, Reply,
  answered, silent, panics, Collection,
}
use chf.Account.{handle_ccr}
use chf.Rating.{handle_sur}

pub record Peers : Type 1 where
  pub State : Type 0
  pub send_service_usage : State → ServiceUsageRequest → State × Option ServiceUsageResponse
  pub send_account_debit : State → AccountDebitRequest → State × Option AccountDebitResponse

abbrev pub or_timeout {ℓ} : {A : Type ℓ} → Reply A → Option A
or_timeout (answered a) = some a
or_timeout silent = none
or_timeout panics = none

abbrev pub serve_account_debit :
    (c : Collection) → c.Db → AccountDebitRequest → c.Db × Option AccountDebitResponse
serve_account_debit c db ccr =
    let (db', reply) = handle_ccr c db (some ccr) in (db', or_timeout reply)

abbrev pub servers : Collection → Peers
servers c = record {
  State = c.Db;
  send_service_usage = λ db sur. (db, or_timeout (handle_sur c db (some sur)));
  send_account_debit = serve_account_debit c;
}
