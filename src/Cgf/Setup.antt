-- ===== src/Cgf/Setup.antt =====
-- The set-up of the FTP server from the configuration, and the removal of record files when it ends
-- (`OpenServer` and `Terminate` of internal/cgf/cgf.go).
use chf.Base.{ℕ, Bool, List, [], ◌∷◌, ◌++◌, Option, none, some, if◌then◌else◌}
use chf.Base.Decimal.{Text, format_int}
use chf.Config
use chf.Config.{Configuration}
use chf.Config.Getters.{text_or, number_or}

pub record Access : Type 0 where
  pub user : Text
  pub pass : Text
  pub fs : Text
  pub base_path : Text

pub record PortRange : Type 0 where
  pub start : ℕ
  pub end : ℕ

pub record FtpConfig : Type 0 where
  pub version : ℕ
  pub accesses : List Access
  pub listen_address : Text
  pub passive_transfer_port_range : PortRange

abbrev tmp : Text
tmp = b'/' ∷ b't' ∷ b'm' ∷ b'p' ∷ []

abbrev admin : Access
admin = record {
  user = b'a' ∷ b'd' ∷ b'm' ∷ b'i' ∷ b'n' ∷ [];
  pass = b'f' ∷ b'r' ∷ b'e' ∷ b'e' ∷ b'5' ∷ b'g' ∷ b'c' ∷ [];
  fs = b'o' ∷ b's' ∷ [];
  base_path = tmp;
}

abbrev with_port : Text → ℕ → Text
with_port host port = host ++ (b':' ∷ format_int port)

abbrev setup : Config.Cgf → Config.Sbi → Text × FtpConfig
setup g s = (
  with_port g.host_ipv4 g.port,
  record {
    version = 1;
    accesses = admin ∷ [];
    listen_address = with_port s.binding_ipv4 g.listen_port;
    passive_transfer_port_range = record {
      start = number_or g.start 2123;
      end = number_or g.end 2130;
    };
  },
)

abbrev setup? : Option Config.Cgf → Option Config.Sbi → Option (Text × FtpConfig)
setup? (some g) (some s) = some (setup g s)
setup? _ _ = none

-- The address that clients dial, and the configuration of the server, in `OpenServer`; it panics where
-- a part of the configuration is nil.
unfoldable pub open_server : Configuration → Option (Text × FtpConfig)
open_server k = setup? k.cgf k.sbi

-- The files that are removed: those there are of the ones that the pattern gives.
abbrev pub remove_all :
    {Files : Type 0} → (Files → Text → Bool) → (Files → Text → Files) → Files → List Text → Files
remove_all exists remove files [] = files
remove_all exists remove files (f ∷ fs) =
    remove_all exists remove (if exists files f then remove files f else files) fs

abbrev any_cdr : Text
any_cdr = b'/' ∷ b'*' ∷ b'.' ∷ b'c' ∷ b'd' ∷ b'r' ∷ []

-- The end of `Terminate`, with `filepath.Glob`, `os.Stat` and `os.Remove`.
unfoldable pub remove_cdr_files :
    {Files : Type 0}
    → (Files → Text → List Text)
    → (Files → Text → Bool)
    → (Files → Text → Files)
    → Config.Cgf
    → Files
    → Files
remove_cdr_files glob exists remove g files =
    remove_all exists remove files (glob files (text_or g.cdr_file_path tmp ++ any_cdr))
