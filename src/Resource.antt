-- ===== src/Resource.antt =====
-- The charging data resource: its creation, update and release, with the subscriber pool
-- (internal/sbi/processor/converged_charging.go, internal/context/context.go,
-- internal/util/validator.go).
pub mod Store
pub mod Create
pub mod Update
pub mod Release
pub mod Recharge
pub mod Volume
pub mod Recorded
pub mod Kept
pub mod Preserved
pub mod Updated
pub mod Reach
pub mod Answers
pub mod Sample
mod Tests
use chf.Base.{ℕ, Bool, Option, List}
use chf.Base.Decimal.{Text}
use chf.Models.{MultipleUnitInformation}
use chf.Ue.{ChfUe}
use chf.Record
use chf.Record.{ChargingRecord}
use chf.Record.Convert.{LocalTime}

-- A subscriber's charging state and records: `cdr` gives the record of a session, and both it and
-- `records` hold addresses, since the code holds pointers.
pub record Subscriber : Type 0 where
  pub charging : ChfUe
  pub cdr : Text → Option ℕ
  pub records : List ℕ

-- The part of the context that the resource reads and writes, and the store of the records: the
-- addresses from `next` on are free.
pub record Chf : Type 0 where
  pub nf_id : Text
  pub url : Text
  pub local_record_sequence_number : ℕ
  pub record_sequence_number : Text → ℕ
  pub ue_pool : Text → Option Subscriber
  pub store : ℕ → ChargingRecord
  pub next : ℕ

-- What the resource uses from outside: the file system, which can refuse a write; the transfer of a
-- file to the billing domain, whose failure is only logged; BER encoding of a record and of used units;
-- SHA-256 in hexadecimal; the check of a PLMN; the clock; and the state that `init` gives a new
-- subscriber from the configuration.
pub record Outside : Type 1 where
  pub Files : Type 0
  pub write_file : Files → Text → List ℕ → Files × Bool
  pub send_cdr : Files → Text → Files
  pub marshal : ChargingRecord → Option (List ℕ)
  pub marshal_usages : List Record.MultipleUnitUsage → Option (List ℕ)
  pub digest : Text → Text
  pub is_valid_plmn : Text → Text → Bool
  pub now : LocalTime
  pub new_charging : Text → ChfUe

pub data Cause : Type 0 where
  mandatory_ie_missing context_not_found record_is_nil unnamed : Cause

-- The answers: 201 with a location, 200, 204, or a problem with its status.
pub data Answer : Type 0 where
  created : Text → ℕ → Answer
  updated : ℕ → List MultipleUnitInformation → Answer
  no_content : Answer
  problem : ℕ → Cause → Answer
