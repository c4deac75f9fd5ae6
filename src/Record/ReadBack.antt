-- ===== src/Record/ReadBack.antt =====
-- The file of a subscriber's records, read back (`dumpCdrFile` of internal/sbi/processor/cdr.go with
-- cdr/cdrFile/cdrFile.go).
use chf.Base.{
  ℕ, suc, ◌+◌, ◌%◌, ◌^◌, ◌<◌, ◌≤◌, ◌≡◌, refl, sym, ap, ◌∙◌, arith, List, [], ◌∷◌, Option, some,
  length, length-append, All,
}
use chf.CdrFile.{Cdr, CdrFile}
use chf.CdrFile.Encode.{encode_file, encode_header, encode_cdr_header, encode_cdrs, put_extension}
use chf.CdrFile.Layout.{FitsTimestamp}
use chf.CdrFile.Decode.{decode_file}
use chf.CdrFile.Records
use chf.CdrFile.Records.{cdrs_size}
use chf.CdrFile.RoundTrip.{IsEncodable, decode-encode_file}
use chf.Record.{ChargingRecord}
use chf.Record.Dump.{
  no_time, dumped_records, dumped_length, dumped_file, encoded_records, dump_cdr_file,
}

-- The lengths fit the fields for them.
abbrev pub Fits : List (List ℕ) → Type 0
Fits encoded =
    All (λ bytes. length bytes < 2 ^ 16) encoded
    × (52 + cdrs_size (dumped_records encoded) < 2 ^ 32)

abbrev pub bodies : List Cdr → List (List ℕ)
bodies [] = []
bodies (c ∷ cs) = c.cdr_byte ∷ bodies cs

bodies-dumped_records : (encoded : List (List ℕ)) → bodies (dumped_records encoded) ≡ encoded
bodies-dumped_records [] = refl
bodies-dumped_records (bytes ∷ rest) = ap (◌∷◌ bytes) (bodies-dumped_records rest)

length-dumped_records : (encoded : List (List ℕ)) → length (dumped_records encoded) ≡ length encoded
length-dumped_records [] = refl
length-dumped_records (bytes ∷ rest) = ap suc (length-dumped_records rest)

length-cdrs_size : (encoded : List (List ℕ)) → length encoded ≤ cdrs_size (dumped_records encoded)
length-cdrs_size [] = omega arith
length-cdrs_size (bytes ∷ rest) = omega (arith, length-cdrs_size rest)

dumped_records-IsEncodable :
    (encoded : List (List ℕ))
    → All (λ bytes. length bytes < 2 ^ 16) encoded
    → All Records.IsEncodable (dumped_records encoded)
dumped_records-IsEncodable [] h = tt
dumped_records-IsEncodable (bytes ∷ rest) (h, hs) = (
  record {
    body_length = omega (arith, h);
    body_fits = h;
    release = omega arith;
    version = omega arith;
    format = omega arith;
    ts = omega arith;
    extension = λ _. refl;
  },
  dumped_records-IsEncodable rest hs,
)

dumped_length_sum :
    (total : ℕ) (encoded : List (List ℕ))
    → total + cdrs_size (dumped_records encoded) < 2 ^ 32
    → dumped_length total encoded ≡ total + cdrs_size (dumped_records encoded)
dumped_length_sum total [] h = omega arith
dumped_length_sum total (bytes ∷ rest) h =
    let next = (total + (length bytes % 2 ^ 32 + 4) % 2 ^ 32) % 2 ^ 32 in
    let e : next ≡ total + 4 + length bytes = omega (arith, h) in
    omega (arith, e, dumped_length_sum next rest (omega (arith, e, h)))

length-encode_cdrs :
    (encoded : List (List ℕ))
    → length (encode_cdrs (dumped_records encoded)) ≡ cdrs_size (dumped_records encoded)
unfolding encode_cdrs encode_cdr_header put_extension
length-encode_cdrs [] = refl
length-encode_cdrs (bytes ∷ rest) =
    omega (arith, length-append bytes (encode_cdrs (dumped_records rest)), length-encode_cdrs rest)

no_time-FitsTimestamp : FitsTimestamp no_time
no_time-FitsTimestamp = record {
  month = omega arith;
  date = omega arith;
  hour = omega arith;
  minute = omega arith;
  sign = omega arith;
  hours_off = omega arith;
  minutes_off = omega arith;
}

module _ (encoded : List (List ℕ)) (fits : Fits encoded) where
  dumped_file-IsEncodable : IsEncodable (dumped_file encoded)
  unfolding dumped_file
  dumped_file-IsEncodable = record {
    header = record {
      file_length_fits = omega (arith, dumped_length_sum 52 encoded fits.1, fits.1);
      header_length_fits = omega arith;
      high_release = omega arith;
      high_version = omega arith;
      low_release = omega arith;
      low_version = omega arith;
      opened = no_time-FitsTimestamp;
      appended = no_time-FitsTimestamp;
      number_fits = omega arith;
      sequence_fits = omega arith;
      address = refl;
      filter_length = refl;
      private_length = refl;
      short = omega arith;
      high_extension = λ _. refl;
      low_extension = λ _. refl;
    };
    records = dumped_records-IsEncodable encoded fits.0;
    number = omega (arith, length-dumped_records encoded, length-cdrs_size encoded, fits.1);
    both = λ e. e;
    short = omega (arith, fits.1);
  }

  length-dumped :
      length (encode_file (dumped_file encoded)) ≡ 52 + cdrs_size (dumped_records encoded)
  unfolding encode_file dumped_file encode_header put_extension
  length-dumped = omega (arith, length-encode_cdrs encoded)

-- Where the bytes of each record are fewer than 2^16 and the file is shorter than 2^32, the file
-- that is written for the records states its own length, and decoding it gives a record for each
-- of them with its encoded bytes.
pub dump_cdr_file-Reads :
    (marshal : ChargingRecord → Option (List ℕ)) (cdrs : List ChargingRecord) (spare : List ℕ)
    → Fits (encoded_records marshal cdrs)
    → (f : CdrFile) × (decode_file [] (dump_cdr_file marshal cdrs) spare ≡ some f)
      × (bodies f.cdr_list ≡ encoded_records marshal cdrs)
      × (f.hdr.file_length ≡ length (dump_cdr_file marshal cdrs))
unfolding dump_cdr_file
dump_cdr_file-Reads marshal cdrs spare fits =
    let encoded = encoded_records marshal cdrs in
    (
      dumped_file encoded,
      decode-encode_file (dumped_file encoded) [] spare (dumped_file-IsEncodable encoded fits),
      unfold dumped_file in bodies-dumped_records encoded,
      unfold dumped_file in dumped_length_sum 52 encoded fits.1 ∙ sym (length-dumped encoded fits),
    )
