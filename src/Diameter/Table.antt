-- ===== src/Diameter/Table.antt =====
-- A collection of charging data as a function, for concrete runs: it keeps what is put into it.
use mathlib.Core.Logic.{ite, if_pos, if_neg}
use native.Mathlib.Decide.{ℕ_discrete}
use chf.Base.{ℕ, ◌≡◌, ◌≢◌, ◌⊎◌, inl, inr, refl, ap, Option, none, some}
use chf.Base.Decimal.{Text}
use chf.Diameter.{ChargingData, Collection, Keeps}

pub key_discrete : Discrete (Text × ℕ)
key_discrete = hlevel ℕ_discrete

abbrev pub with_new_quota : Text → Option ChargingData → Option ChargingData
with_new_quota quota none = none
with_new_quota quota (some d) = some (record d { quota = some quota })

abbrev Table : Type 0
Table = Text → ℕ → Option ChargingData

pub put : Table → Text → ℕ → Text → Table
put t ue rg quota ue' rg' =
    ite (key_discrete (ue, rg) (ue', rg')) (with_new_quota quota (t ue' rg')) (t ue' rg')

abbrev pub table : Collection
table = record { Db = Table; get_one = λ t. t; put_quota = put }

pub table-Keeps : Keeps table
table-Keeps = record { get-put_same = same; get-put_other = other }
  where
    same :
        (t : Table) (ue : Text) (rg : ℕ) (quota : Text) (d : ChargingData)
        → t ue rg ≡ some d
        → put t ue rg quota ue rg ≡ some (record d { quota = some quota })
    same t ue rg quota d h = unfold put in rw (if_pos _ refl, h)

    apart :
        {ue ue' : Text} {rg rg' : ℕ}
        → (ue ≢ ue') ⊎ (rg ≢ rg')
        → ¬ (◌≡◌ {A = Text × ℕ} (ue, rg) (ue', rg'))
    apart (inl n) p = n (ap (λ k. k.0) p)
    apart (inr n) p = n (ap (λ k. k.1) p)

    other :
        (t : Table) (ue ue' : Text) (rg rg' : ℕ) (quota : Text)
        → (ue ≢ ue') ⊎ (rg ≢ rg')
        → put t ue rg quota ue' rg' ≡ t ue' rg'
    other t ue ue' rg rg' quota h = unfold put in rw (if_neg _ (apart h))
