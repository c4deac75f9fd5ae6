-- ===== src/CdrFile/RoundTrip.antt =====
-- Whole files: `Decoding` after `Encoding` of cdr/cdrFile/cdrFile.go.
use chf.Base.{
  ℕ, ◌+◌, ◌^◌, ◌<◌, ◌≡◌, sym, ap, ◌∙◌, arith, List, ◌++◌, some, length, length-append, All,
  append_assoc,
}
use chf.CdrFile.{CdrFileHeader, Cdr, CdrFile}
use chf.CdrFile.Encode.{encode_header, encode_cdrs, encode_file}
use chf.CdrFile.Decode.{decode_cdrs, decode_file}
use chf.CdrFile.Layout.{put_extension-append, extension_bytes, length-extension_bytes}
use chf.CdrFile.Header
use chf.CdrFile.Header.{header_size, to_extension, length-to_extension, at_extensions}
use chf.CdrFile.HeaderRead.{decode-encode_header}
use chf.CdrFile.Records
use chf.CdrFile.Records.{decode-encode_cdrs_at, cdrs_size, cdr_size}

-- A file whose parts are encodable, which states its number of records, whose low extension octet
-- follows a high one, and whose length is a uint32.
pub record IsEncodable (f : CdrFile) : Type 0 where
  pub header : Header.IsEncodable f.hdr
  pub records : All Records.IsEncodable f.cdr_list
  pub number : f.hdr.number_of_cdrs_in_file ≡ length f.cdr_list
  pub both : f.hdr.low_release_identifier ≡ 7 → f.hdr.high_release_identifier ≡ 7
  pub short : header_size f.hdr + cdrs_size f.cdr_list < 2 ^ 32

-- The written header as one part.
module _ (h : CdrFileHeader) (w : Header.IsEncodable h) where
  abbrev written_extensions : List ℕ
  written_extensions =
      extension_bytes h.high_release_identifier h.high_release_identifier_extension
      ++ extension_bytes h.low_release_identifier h.low_release_identifier_extension

  pub encode_header-append :
      (rest : List ℕ) → encode_header h rest ≡ (to_extension h ++ written_extensions) ++ rest
  encode_header-append rest =
      at_extensions h rest
      ∙ ap (◌++◌ (to_extension h)) (
          put_extension-append h.high_release_identifier h.high_release_identifier_extension _
          ∙ ap
              (◌++◌ (extension_bytes h.high_release_identifier h.high_release_identifier_extension))
              (put_extension-append h.low_release_identifier h.low_release_identifier_extension
                rest)
          ∙ sym (
              append_assoc
                (extension_bytes h.high_release_identifier h.high_release_identifier_extension)
                (extension_bytes h.low_release_identifier h.low_release_identifier_extension) rest))
      ∙ sym (append_assoc (to_extension h) written_extensions rest)

  pub length-header : length (to_extension h ++ written_extensions) ≡ header_size h
  length-header = omega (
    arith,
    length-append (to_extension h) written_extensions,
    length-append (extension_bytes h.high_release_identifier h.high_release_identifier_extension)
        (extension_bytes h.low_release_identifier h.low_release_identifier_extension),
    length-extension_bytes h.high_release_identifier h.high_release_identifier_extension,
    length-extension_bytes h.low_release_identifier h.low_release_identifier_extension,
    length-to_extension h w,
  )

-- Decoding the bytes that were written for an encodable file gives its header back, and its
-- records behind those the receiver had, whatever the read buffer holds past the end of the file.
pub decode-encode_file :
    (f : CdrFile) (before : List Cdr) (spare : List ℕ)
    → IsEncodable f
    → decode_file before (encode_file f) spare
      ≡ some (record { hdr = f.hdr; cdr_list = before ++ f.cdr_list })
unfolding decode_file encode_file
decode-encode_file f before spare w =
    rw (decode-encode_header f.hdr w.header (encode_cdrs f.cdr_list) spare w.both, records)
  where
    written : List ℕ
    written = to_extension f.hdr ++ written_extensions f.hdr w.header

    size : length written ≡ header_size f.hdr
    size = length-header f.hdr w.header

    records :
        decode_cdrs
          (encode_header f.hdr (encode_cdrs f.cdr_list))
          spare
          f.hdr.number_of_cdrs_in_file
          (header_size f.hdr)
        ≡ some f.cdr_list
    records =
        decode-encode_cdrs_at f.cdr_list written spare _ _ _
          (encode_header-append f.hdr w.header (encode_cdrs f.cdr_list)) w.number (sym size)
          w.records (omega (arith, w.short, size))
