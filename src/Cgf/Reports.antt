-- ===== src/Cgf/Reports.antt =====
-- Which transfers `SendCDR` of internal/cgf/cgf.go reports as failed, and what happens to a file that
-- `dumpCdrFile` of internal/sbi/processor/cdr.go wrote.
use chf.Base.{
  ℕ, ◌≡◌, ◌↔◌, refl, ap, ◌∙◌, inl, inr, Bool, true, false, List, ◌++◌, Option, none, some,
  Bool-cases,
}
use chf.Base.Decimal.{Text}
use chf.Record.Dump.{dump_cdr_file}
use chf.Resource.{Chf, Outside}
use chf.Resource.Store.{records_at, dump_records}
use mathlib.Core.Path.{subst}
use chf.Cgf.{
  Entry, Ftp, sent, failed, build_cdr_file_name, tmp, lists, stored, checked, send_bytes, send_file,
  ping, send_cdr,
}
use chf.Cgf.Transfer.{IsListed, lists_iff, Holds, read_path-written, send_cdr-delivers}

module _ (f : Ftp) where
  abbrev pub IsUnlisted : f.Remote → f.Conn → Text → Type 0
  IsUnlisted r c file =
      (entries : List Entry) × (f.list r c ≡ some entries) × (¬ IsListed file entries)

  abbrev pub IsReported : f.Remote → f.Conn → Text → Option (List ℕ) → Type 0
  IsReported r c file none = Unit
  IsReported r c file (some bytes) =
      ((f.stor r c file bytes).1 ≡ true) × IsUnlisted ((f.stor r c file bytes).0) c file

  checked_iff :
      (r : f.Remote) (c : f.Conn) (file : Text) (o : Option (List Entry))
      → f.list r c ≡ o
      → (checked f file o ≡ failed) ↔ IsUnlisted r c file
  checked_iff r c file none e = (λ h. cc, λ h. let (entries, l, n) = h in cc)
  checked_iff r c file (some entries) e = elim (Bool-cases (lists file entries)) [
    | inl q ↦ rw q (
      λ h. cc,
      λ h.
          let (entries', l, n) = h in
          let same : entries ≡ entries' = cc in
          absurd (n (subst (IsListed file) same ((lists_iff file entries).0 q))),
    )
    | inr q ↦ rw q (λ h. (entries, e, λ m. let t = (lists_iff file entries).1 m in cc), λ h. refl)
  ]

  stored_iff :
      (c : f.Conn) (file : Text) (s : f.Remote × Bool)
      → ((stored f file c s).1 ≡ failed) ↔ ((s.1 ≡ true) × IsUnlisted (s.0) c file)
  unfolding stored
  stored_iff c file (r, false) = (λ h. cc, λ h. let t = h.0 in cc)
  stored_iff c file (r, true) =
      let (to, from) = checked_iff r c file (f.list r c) refl in
      (λ h. (refl, to h), λ h. from (h.1))

  send_bytes_iff :
      (r : f.Remote) (c : f.Conn) (file : Text) (o : Option (List ℕ))
      → ((send_bytes f r c file o).1 ≡ failed) ↔ IsReported r c file o
  send_bytes_iff r c file none = (λ h. tt, λ h. refl)
  send_bytes_iff r c file (some bytes) = stored_iff c file (f.stor r c file bytes)

  module _ (digest : Text → Text) (read : Text → Option (List ℕ)) where
    -- Where the transfer is enabled and the connection answers a ping, an error is returned
    -- exactly where the local file cannot be read, or the server takes it and then gives a list in
    -- which no entry has its name: a file that the server refuses to store, and a list that it
    -- does not give, are no errors.
    pub send_cdr_failed :
        (r : f.Remote) (c : f.Conn) (supi : Text)
        → f.no_op r c ≡ true
        → let file = build_cdr_file_name digest supi in
          ((send_cdr f digest true read r (some c) supi).2 ≡ failed)
          ↔ IsReported r c file (read (tmp ++ file))
    unfolding send_cdr ping send_file
    send_cdr_failed r c supi alive =
        let file = build_cdr_file_name digest supi in
        rw alive (send_bytes_iff r c file (read (tmp ++ file)))

module _ (f : Ftp) (o : Outside) (read : o.Files → Text → Option (List ℕ)) where
  -- Where records of a subscriber were written to their file, what is written to a file can be
  -- read from it, the connection answers a ping, and the server takes the file, keeps what it
  -- takes and lists it: the transfer for that subscriber returns no error, and the server has,
  -- under the name of the file, the bytes of the records.
  pub dump_records-send_cdr :
      (files : o.Files) (context : Chf) (supi : Text) (addresses : List ℕ) (r : f.Remote)
      (c : f.Conn) (h : Holds f)
      → ((files : o.Files) (path : Text) (bytes : List ℕ)
          → (o.write_file files path bytes).1 ≡ true
          → read (o.write_file files path bytes).0 path ≡ some bytes)
      → (dump_records o files context supi addresses).1 ≡ true
      → f.no_op r c ≡ true
      → let file = build_cdr_file_name o.digest supi in
        let bytes = dump_cdr_file o.marshal (records_at context.store addresses) in
        (f.stor r c file bytes).1 ≡ true
        → let (conn, r', result) =
            send_cdr f o.digest true
              (read (dump_records o files context supi addresses).0)
              r
              (some c)
              supi in
          (result ≡ sent) × (h.content r' file ≡ some bytes)
  unfolding dump_records
  dump_records-send_cdr files context supi addresses r c h keeps written alive taken =
      send_cdr-delivers f o.digest _ r c supi _ h alive
        (ap (read (dump_records o files context supi addresses).0) (read_path-written o.digest supi)
          ∙ keeps files _ _ written)
        taken
