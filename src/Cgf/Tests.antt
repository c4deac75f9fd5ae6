-- ===== src/Cgf/Tests.antt =====
-- Transfers to a server whose state is a directory of files (internal/cgf/cgf.go).
use chf.Base.{
  ℕ, ◌≡◌, ◌≢◌, refl, Bool, true, false, List, [], ◌∷◌, Option, none, some, if◌then◌else◌, ◌↔◌, inl,
  inr, length,
}
use chf.Base.Decimal.{Text}
use mathlib.Core.Option.{some-injective}
use mathlib.Core.Path.{subst}
use chf.Base.Maps.{text_eq, text_eq_refl}
use chf.Record.Dump.{dump_cdr_file}
use chf.Resource.{Outside}
use chf.Resource.Store.{dump_records}
use chf.Resource.Sample.{imsi, outside, context}
use chf.Cgf.{Ftp, Sent, sent, failed, panics, build_cdr_file_name, send_cdr, Entry}
use chf.Cgf.Transfer.{Holds, IsListed, send_cdr-returns, send_cdr-delivers}
use chf.Cgf.Reports.{IsReported, send_cdr_failed, dump_records-send_cdr}

-- A directory of files, the newest first.
abbrev Directory : Type 0
Directory = List (Text × List ℕ)

find_file : Directory → Text → Option (List ℕ)
find_file [] file = none
find_file ((name, bytes) ∷ directory) file =
    let rest = find_file directory file in if text_eq name file then some bytes else rest

find_file_newest :
    (directory : Directory) (file : Text) (bytes : List ℕ)
    → find_file ((file, bytes) ∷ directory) file ≡ some bytes
unfolding find_file
find_file_newest directory file bytes = rw (text_eq_refl file) refl

abbrev names : Directory → List Entry
names [] = []
names ((name, bytes) ∷ directory) = record { name = name; size = length bytes } ∷ names directory

-- The list begins with the directory itself.
abbrev server : Bool → Ftp
server takes = record {
  Remote = Directory;
  Conn = Unit;
  dial = λ r. some tt;
  user_login = λ r c. true;
  no_op = λ r c. true;
  stor = λ r c file bytes. (if takes then (file, bytes) ∷ r else r, takes);
  list = λ r c. some (record { name = b'.' ∷ []; size = 0 } ∷ names r);
}

server-Holds : Holds (server true)
server-Holds = record {
  content = find_file;
  stor-content = λ r c file bytes h. find_file_newest r file bytes;
  stor-lists = λ r c file bytes entries h e.
      subst (IsListed file) (listed file bytes r entries e) (inr (inl refl));
}
  where
    listed :
        (file : Text) (bytes : List ℕ) (r : Directory) (entries : List Entry)
        → some (record { name = b'.' ∷ []; size = 0 } ∷ names ((file, bytes) ∷ r)) ≡ some entries
        → record { name = b'.' ∷ []; size = 0 } ∷ names ((file, bytes) ∷ r) ≡ entries
    listed file bytes r entries e = some-injective _ _ e

abbrev local : Text → Option (List ℕ)
local path = some (1 ∷ 2 ∷ [])

abbrev other : Directory
other = (b'a' ∷ [], 3 ∷ []) ∷ []

send_cdr-returns_example :
    (send_cdr (server true) (λ s. s) true local [] none (b'7' ∷ [])).2 ≢ panics
send_cdr-returns_example = send_cdr-returns (server true) (λ s. s) local true [] none (b'7' ∷ [])

abbrev delivered : Sent (server true)
delivered = send_cdr (server true) (λ s. s) true local other (some tt) (b'7' ∷ [])

send_cdr-delivers_example :
    ((delivered.2) ≡ sent)
    × (find_file (delivered.1) (build_cdr_file_name (λ s. s) (b'7' ∷ [])) ≡ some (1 ∷ 2 ∷ []))
unfolding server-Holds
send_cdr-delivers_example =
    send_cdr-delivers (server true) (λ s. s) local other tt (b'7' ∷ []) (1 ∷ 2 ∷ []) server-Holds
      refl refl refl

send_cdr_failed_example :
    ((send_cdr (server false) (λ s. s) true local other (some tt) (b'7' ∷ [])).2 ≡ failed)
    ↔ IsReported
        (server false)
        other
        tt
        (build_cdr_file_name (λ s. s) (b'7' ∷ []))
        (some (1 ∷ 2 ∷ []))
send_cdr_failed_example = send_cdr_failed (server false) (λ s. s) local other tt (b'7' ∷ []) refl

-- Files on a disk that takes every write.
abbrev disk : Outside
disk = record {
  Files = Directory;
  write_file = λ files path bytes. ((path, bytes) ∷ files, true);
  send_cdr = λ files supi. files;
  marshal = outside.marshal;
  marshal_usages = outside.marshal_usages;
  digest = outside.digest;
  is_valid_plmn = outside.is_valid_plmn;
  now = outside.now;
  new_charging = outside.new_charging;
}

dump_records-send_cdr_example :
    let files' = (dump_records disk [] context imsi []).0 in
    let (conn, r', result) =
      send_cdr (server true) disk.digest true (find_file files') other (some tt) imsi in
    (result ≡ sent)
    × (find_file r' (build_cdr_file_name disk.digest imsi) ≡ some (dump_cdr_file disk.marshal []))
unfolding server-Holds dump_records
dump_records-send_cdr_example =
    dump_records-send_cdr (server true) disk find_file [] context imsi [] other tt server-Holds
      (λ files path bytes e. find_file_newest files path bytes) refl refl refl
