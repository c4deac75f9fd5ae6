-- ===== src/Cgf.antt =====
-- The transfer of record files to the billing domain (internal/cgf/cgf.go): `Login`, `SendCDR` and the
-- logins of `Serve`.
pub mod Transfer
pub mod Reports
pub mod Setup
mod Tests
use chf.Base.{
  ℕ, zero, suc, ◌+◌, Bool, true, false, List, [], ◌∷◌, ◌++◌, Option, none, some, if◌then◌else◌,
}
use chf.Base.Decimal.{Text}
use chf.Base.Maps.{text_eq}

pub record Entry : Type 0 where
  pub name : Text
  pub size : ℕ

-- The FTP client: the server's state, and connections to it; each call succeeds or fails.
pub record Ftp : Type 1 where
  pub Remote : Type 0
  pub Conn : Type 0
  pub dial : Remote → Option Conn
  pub user_login : Remote → Conn → Bool
  pub no_op : Remote → Conn → Bool
  pub stor : Remote → Conn → Text → List ℕ → Remote × Bool
  pub list : Remote → Conn → Option (List Entry)

-- What a call returns, or a nil connection that is dereferenced.
pub data Result : Type 0 where
  sent : Result
  failed : Result
  panics : Result

-- "chf-" + the digest + ".cdr"
unfoldable pub build_cdr_file_name : (Text → Text) → Text → Text
build_cdr_file_name digest supi =
    (b'c' ∷ b'h' ∷ b'f' ∷ b'-' ∷ []) ++ digest supi ++ (b'.' ∷ b'c' ∷ b'd' ∷ b'r' ∷ [])

abbrev pub tmp : Text
tmp = b'/' ∷ b't' ∷ b'm' ∷ b'p' ∷ b'/' ∷ []

abbrev pub lists : Text → List Entry → Bool
lists file [] = false
lists file (e ∷ entries) = if text_eq e.name file then true else lists file entries

module _ (f : Ftp) where
  abbrev pub log_in : f.Remote → Option f.Conn → Option f.Conn → Option f.Conn × Bool
  log_in r conn none = (conn, false)
  log_in r conn (some c) = if f.user_login r c then (some c, true) else (conn, false)

  -- A new connection that is logged in.
  abbrev pub connect : f.Remote → Option f.Conn → Option f.Conn × Bool
  connect r conn = log_in r conn (f.dial r)

  -- `Login`: the connection afterwards, and whether there was no error.
  unfoldable pub login : f.Remote → Option f.Conn → Option f.Conn × Bool
  login r none = connect r none
  login r (some c) = if f.no_op r c then (some c, true) else connect r (some c)

  -- The list of the directory behind a stored file.
  abbrev pub checked : Text → Option (List Entry) → Result
  checked file none = sent
  checked file (some entries) = if lists file entries then sent else failed

  -- A refused store returns the error of the read before, which is nil.
  unfoldable pub stored : Text → f.Conn → f.Remote × Bool → f.Remote × Result
  stored file c (r, false) = (r, sent)
  stored file c (r, true) = (r, checked file (f.list r c))

  abbrev pub send_bytes : f.Remote → f.Conn → Text → Option (List ℕ) → f.Remote × Result
  send_bytes r c file none = (r, failed)
  send_bytes r c file (some bytes) = stored file c (f.stor r c file bytes)

  unfoldable pub send_file : (Text → Option (List ℕ)) → f.Remote → f.Conn → Text → f.Remote × Result
  send_file read r c file = send_bytes r c file (read (tmp ++ file))

  abbrev pub Sent : Type 0
  Sent = Option f.Conn × f.Remote × Result

  abbrev pub with_result : f.Conn → f.Remote × Result → Sent
  with_result c (r, result) = (some c, r, result)

  abbrev pub with_connection :
      (Text → Option (List ℕ)) → f.Remote → Text → Option f.Conn × Bool → Sent
  with_connection read r file (conn, false) = (conn, r, failed)
  with_connection read r file (none, true) = (none, r, panics)
  with_connection read r file (some c, true) = with_result c (send_file read r c file)

  -- The ping of a connection, with another login if it fails.
  unfoldable pub ping : (Text → Option (List ℕ)) → f.Remote → Text → Option f.Conn → Sent
  ping read r file none = (none, r, panics)
  ping read r file (some c) =
      if f.no_op r c
      then with_connection read r file (some c, true)
      else with_connection read r file (login r (some c))

  abbrev pub after_login : (Text → Option (List ℕ)) → f.Remote → Text → Option f.Conn × Bool → Sent
  after_login read r file (conn, false) = (conn, r, failed)
  after_login read r file (conn, true) = ping read r file conn

  -- `SendCDR`, with the local files that it reads.
  unfoldable pub send_cdr :
      (Text → Text) → Bool → (Text → Option (List ℕ)) → f.Remote → Option f.Conn → Text → Sent
  send_cdr digest false read r conn supi = (conn, r, sent)
  send_cdr digest true read r none supi =
      after_login read r (build_cdr_file_name digest supi) (login r none)
  send_cdr digest true read r (some c) supi = ping read r (build_cdr_file_name digest supi) (some c)

  abbrev logins : ℕ → (ℕ → f.Remote) → Option f.Conn → Option f.Conn
  logins zero at conn = conn
  logins (suc n) at conn =
      let (conn', logged_in) = login (at n) conn in
      let rest = logins n at conn' in if logged_in then conn' else rest

  -- The logins at the start of `Serve`: at most three, each at a state of the server, until one
  -- succeeds.
  unfoldable pub serve_logins : (ℕ → f.Remote) → Option f.Conn → Option f.Conn
  serve_logins at conn = logins 3 at conn
