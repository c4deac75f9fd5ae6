-- ===== src/Cgf/Transfer.antt =====
-- What `SendCDR` of internal/cgf/cgf.go delivers, and what it reports.
use chf.Base.{
  ℕ, ◌≡◌, ◌≢◌, refl, sym, ap, ◌∙◌, inl, inr, Bool, true, false, List, ◌++◌, Option, none, some,
  if◌then◌else◌, Bool-cases, [], ◌∷◌, ◌⊎◌, ◌↔◌,
}
use chf.Base.Decimal.{Text}
use chf.Base.Maps.{text_eq, text_eq→eq, text_eq_refl}
use chf.Resource.Store
use chf.Resource.Store.{records_at, dump_records}
use mathlib.Core.Path.{subst}
use chf.Cgf.{
  Entry, Ftp, Result, sent, failed, panics, build_cdr_file_name, tmp, lists, login, stored, checked,
  send_bytes, log_in, with_result, send_file, ping, with_connection, after_login, send_cdr,
}

abbrev pub IsListed : Text → List Entry → Type 0
IsListed file [] = ⊥
IsListed file (e ∷ entries) = (e.name ≡ file) ⊎ IsListed file entries

pub lists_iff :
    (file : Text) (entries : List Entry) → (lists file entries ≡ true) ↔ IsListed file entries
lists_iff file [] = (λ e. cc, λ h. absurd h)
lists_iff file (e ∷ entries) =
    let rest = lists_iff file entries in
    elim (Bool-cases (text_eq e.name file)) [
      | inl q ↦ rw q (λ h. inl (text_eq→eq e.name file q), λ h. refl)
      | inr q ↦ rw q (
        λ h. inr (rest.0 h),
        λ h. elim h [
          | inl same ↦
              let t : text_eq e.name file ≡ true =
                ap (λ t. text_eq t file) same ∙ text_eq_refl file in
              cc
          | inr more ↦ rest.1 more
        ],
      )
    ]

-- The path that the transfer reads is the path of the file.
pub read_path-written :
    (digest : Text → Text) (supi : Text)
    → tmp ++ build_cdr_file_name digest supi ≡ Store.build_cdr_file_name digest supi
unfolding build_cdr_file_name Store.build_cdr_file_name
read_path-written digest supi = refl

-- What a server keeps: a file that it takes is there, as it was sent, and in the list of its files.
pub record Holds (f : Ftp) : Type 1 where
  pub content : f.Remote → Text → Option (List ℕ)
  pub stor-content :
      (r : f.Remote) (c : f.Conn) (file : Text) (bytes : List ℕ)
      → (f.stor r c file bytes).1 ≡ true
      → content (f.stor r c file bytes).0 file ≡ some bytes
  pub stor-lists :
      (r : f.Remote) (c : f.Conn) (file : Text) (bytes : List ℕ) (entries : List Entry)
      → (f.stor r c file bytes).1 ≡ true
      → f.list (f.stor r c file bytes).0 c ≡ some entries
      → IsListed file entries

module _ (f : Ftp) where
  -- A login without an error leaves a connection.
  IsConnected : Option f.Conn × Bool → Type 0
  IsConnected (none, true) = ⊥
  IsConnected _ = Unit

  log_in-IsConnected :
      (r : f.Remote) (conn dialled : Option f.Conn) → IsConnected (log_in f r conn dialled)
  unfolding IsConnected
  log_in-IsConnected r none none = tt
  log_in-IsConnected r (some c) none = tt
  log_in-IsConnected r conn (some c) = go conn (f.user_login r c)
    where
      go :
          (conn : Option f.Conn) (b : Bool)
          → IsConnected (if b then (some c, true) else (conn, false))
      go conn true = tt
      go none false = tt
      go (some d) false = tt

  login-IsConnected : (r : f.Remote) (conn : Option f.Conn) → IsConnected (login f r conn)
  unfolding IsConnected login
  login-IsConnected r none = log_in-IsConnected r none (f.dial r)
  login-IsConnected r (some c) = elim (Bool-cases (f.no_op r c)) [
    | inl e ↦ rw e tt
    | inr e ↦ rw e (log_in-IsConnected r (some c) (f.dial r))
  ]

  -- A result that is no panic.
  abbrev IsReturned : Result → Type 0
  IsReturned panics = ⊥
  IsReturned _ = Unit

  send_file-IsReturned :
      (read : Text → Option (List ℕ)) (r : f.Remote) (c : f.Conn) (file : Text)
      → IsReturned (send_file f read r c file).1
  unfolding send_file stored
  send_file-IsReturned read r c file = bytes (read (tmp ++ file))
    where
      listed : (b : Bool) → IsReturned (if b then sent else failed)
      listed true = tt
      listed false = tt

      checks : (entries : Option (List Entry)) → IsReturned (checked f file entries)
      checks none = tt
      checks (some entries) = listed (lists file entries)

      after : (s : f.Remote × Bool) → IsReturned (stored f file c s).1
      after (r', false) = tt
      after (r', true) = checks (f.list r' c)

      bytes : (o : Option (List ℕ)) → IsReturned (send_bytes f r c file o).1
      bytes none = tt
      bytes (some b) = after (f.stor r c file b)

  with_connection-IsReturned :
      (read : Text → Option (List ℕ)) (r : f.Remote) (file : Text) (l : Option f.Conn × Bool)
      → IsConnected l
      → IsReturned (with_connection f read r file l).2
  unfolding IsConnected
  with_connection-IsReturned read r file (conn, false) h = tt
  with_connection-IsReturned read r file (none, true) h = absurd h
  with_connection-IsReturned read r file (some c, true) h = send_file-IsReturned read r c file

  ping-IsReturned :
      (read : Text → Option (List ℕ)) (r : f.Remote) (file : Text) (c : f.Conn)
      → IsReturned (ping f read r file (some c)).2
  unfolding ping IsConnected
  ping-IsReturned read r file c = elim (Bool-cases (f.no_op r c)) [
    | inl e ↦ rw e (send_file-IsReturned read r c file)
    | inr e ↦
        rw e (
          with_connection-IsReturned read r file (login f r (some c))
            (login-IsConnected r (some c)))
  ]

  after_login-IsReturned :
      (read : Text → Option (List ℕ)) (r : f.Remote) (file : Text) (l : Option f.Conn × Bool)
      → IsConnected l
      → IsReturned (after_login f read r file l).2
  unfolding IsConnected ping
  after_login-IsReturned read r file (conn, false) h = tt
  after_login-IsReturned read r file (none, true) h = absurd h
  after_login-IsReturned read r file (some c, true) h = ping-IsReturned read r file c

  returned : (x : Result) → IsReturned x → x ≢ panics
  returned x h e = subst IsReturned e h

  module _ (digest : Text → Text) (read : Text → Option (List ℕ)) where
    -- Whatever the FTP server does, the transfer of a file never uses a connection that is nil.
    pub send_cdr-returns :
        (enabled : Bool) (r : f.Remote) (conn : Option f.Conn) (supi : Text)
        → (send_cdr f digest enabled read r conn supi).2 ≢ panics
    unfolding send_cdr
    send_cdr-returns false r conn supi = returned sent tt
    send_cdr-returns true r none supi = returned _ (
        after_login-IsReturned read r (build_cdr_file_name digest supi) (login f r none)
          (login-IsConnected r none))
    send_cdr-returns true r (some c) supi =
        returned _ (ping-IsReturned read r (build_cdr_file_name digest supi) c)

    -- The transfer over a connection that is alive.
    send_cdr-alive :
        (r : f.Remote) (c : f.Conn) (supi : Text) (bytes : List ℕ)
        → f.no_op r c ≡ true
        → read (tmp ++ build_cdr_file_name digest supi) ≡ some bytes
        → send_cdr f digest true read r (some c) supi
          ≡ with_result f c (
              stored f
                (build_cdr_file_name digest supi)
                c
                (f.stor r c (build_cdr_file_name digest supi) bytes))
    unfolding send_cdr ping send_file
    send_cdr-alive r c supi bytes alive local =
        let file = build_cdr_file_name digest supi in
        rw alive (ap (λ o. with_result f c (send_bytes f r c file o)) local)

    -- Where the transfer is enabled, the connection answers a ping, the local file can be read,
    -- and the server takes it, keeps what it takes and has an entry with its name anywhere in its
    -- list, no error is returned and the server has the file with the bytes of the local one.
    pub send_cdr-delivers :
        (r : f.Remote) (c : f.Conn) (supi : Text) (bytes : List ℕ) (h : Holds f)
        → f.no_op r c ≡ true
        → read (tmp ++ build_cdr_file_name digest supi) ≡ some bytes
        → (f.stor r c (build_cdr_file_name digest supi) bytes).1 ≡ true
        → let (conn, r', result) = send_cdr f digest true read r (some c) supi in
          (result ≡ sent) × (h.content r' (build_cdr_file_name digest supi) ≡ some bytes)
    unfolding stored
    send_cdr-delivers r c supi bytes h alive local taken =
        rw (send_cdr-alive r c supi bytes alive local)
          (go (f.stor r c file bytes) refl taken (f.list (f.stor r c file bytes).0 c) refl)
      where
        file : Text
        file = build_cdr_file_name digest supi

        listed :
            (entries : Option (List Entry))
            → f.list (f.stor r c file bytes).0 c ≡ entries
            → checked f file entries ≡ sent
        listed none e = refl
        listed (some entries) e =
            rw ((lists_iff file entries).1 (h.stor-lists r c file bytes entries taken e)) refl

        go :
            (s : f.Remote × Bool)
            → f.stor r c file bytes ≡ s
            → s.1 ≡ true
            → (entries : Option (List Entry)) → f.list (f.stor r c file bytes).0 c ≡ entries
            → ((stored f file c s).1 ≡ sent) × (h.content (stored f file c s).0 file ≡ some bytes)
        go (r', false) e t entries l = cc
        go (r', true) e t entries l =
            let same : (f.stor r c file bytes).0 ≡ r' = ap (λ s. s.0) e in
            (
              ap (λ s. checked f file (f.list s c)) (sym same)
                  ∙ ap (checked f file) l
                  ∙ listed entries l,
              ap (λ s. h.content s file) (sym same) ∙ h.stor-content r c file bytes taken,
            )
