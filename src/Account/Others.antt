-- ===== src/Account/Others.antt =====
-- What a request to the handler of pkg/abmf/abmf.go leaves alone: the accounts that it is not for.
use chf.Base.{ℕ, ◌≡◌, ◌≢◌, ◌⊎◌, refl, Option, none, some}
use chf.Base.Decimal.{Text, format_int, parse_int}
use chf.Diameter.{
  SubscriptionId, MultipleServicesCreditControl, AccountDebitRequest, ChargingData, Collection,
  Keeps,
}
use chf.Account.{
  subscriber_id, put_balance, with_quota, with_text, with_document, with_parts, handle_ccr,
}
use chf.Account.Balance.{balance, balance-put_other}

module _ (c : Collection) (k : Keeps c) where
  put_balance-other :
      (db : c.Db) (ccr : AccountDebitRequest) (ue ue' : Text) (rg rg' : ℕ)
      (r : Option (ℕ × Option MultipleServicesCreditControl))
      → (ue ≢ ue') ⊎ (rg ≢ rg')
      → balance c (put_balance c db ccr ue rg r).0 ue' rg' ≡ balance c db ue' rg'
  unfolding put_balance
  put_balance-other db ccr ue ue' rg rg' none o = refl
  put_balance-other db ccr ue ue' rg rg' (some (quota, control)) o =
      balance-put_other c db ue ue' rg rg' (format_int quota) k o

  with_quota-other :
      (db : c.Db) (ccr : AccountDebitRequest) (ue ue' : Text) (m : MultipleServicesCreditControl)
      (rg' : ℕ) (o : Option ℕ)
      → (ue ≢ ue') ⊎ (m.rating_group ≢ rg')
      → balance c (with_quota c db ccr ue m o).0 ue' rg' ≡ balance c db ue' rg'
  unfolding with_quota
  with_quota-other db ccr ue ue' m rg' none h = refl
  with_quota-other db ccr ue ue' m rg' (some quota) h =
      put_balance-other db ccr ue ue' m.rating_group rg' _ h

  with_text-other :
      (db : c.Db) (ccr : AccountDebitRequest) (ue ue' : Text) (m : MultipleServicesCreditControl)
      (rg' : ℕ) (o : Option Text)
      → (ue ≢ ue') ⊎ (m.rating_group ≢ rg')
      → balance c (with_text c db ccr ue m o).0 ue' rg' ≡ balance c db ue' rg'
  unfolding with_text
  with_text-other db ccr ue ue' m rg' none h = refl
  with_text-other db ccr ue ue' m rg' (some text) h =
      with_quota-other db ccr ue ue' m rg' (parse_int text) h

  with_document-other :
      (db : c.Db) (ccr : AccountDebitRequest) (ue ue' : Text) (m : MultipleServicesCreditControl)
      (rg' : ℕ) (o : Option ChargingData)
      → (ue ≢ ue') ⊎ (m.rating_group ≢ rg')
      → balance c (with_document c db ccr ue m o).0 ue' rg' ≡ balance c db ue' rg'
  unfolding with_document
  with_document-other db ccr ue ue' m rg' none h = refl
  with_document-other db ccr ue ue' m rg' (some d) h = with_text-other db ccr ue ue' m rg' d.quota h

  -- Whatever a request with a subscription and a credit control asks for, the accounts of other
  -- subscribers and rating groups keep their balances.
  pub handle_ccr-other :
      (db : c.Db) (ccr : AccountDebitRequest) (s : SubscriptionId)
      (m : MultipleServicesCreditControl) (ue' : Text) (rg' : ℕ)
      → ccr.subscription_id ≡ some s
      → ccr.multiple_services_credit_control ≡ some m
      → (subscriber_id s ≢ ue') ⊎ (m.rating_group ≢ rg')
      → balance c (handle_ccr c db (some ccr)).0 ue' rg' ≡ balance c db ue' rg'
  unfolding handle_ccr with_parts
  handle_ccr-other db ccr s m ue' rg' hs hm h =
      rw (hs, hm) (with_document-other db _ (subscriber_id s) ue' m rg' _ h)
