-- ===== src/CdrFile/Records.antt =====
-- The record loop of `Decoding` reads back what `Encoding` wrote (cdr/cdrFile/cdrFile.go).
use chf.Base.{
  ℕ, ◌+◌, ◌/◌, ◌%◌, ◌^◌, ◌<◌, ◌≡◌, ◌≢◌, refl, sym, ap, ◌∙◌, bit_and, arith, List, [], ◌∷◌, ◌++◌,
  append_assoc, some, get_elem?, length, length-append, get_elem?-append, All,
}
use chf.Base.Bytes.{put_u16, uint16_bytes}
use chf.CdrFile.{CdrHeader, Cdr}
use chf.CdrFile.Encode.{identifier_octet, put_extension, encode_cdr_header, encode_cdrs}
use chf.CdrFile.Decode.{slice, read_u16, read_extension, extension_size, decode_cdr, decode_cdrs}
use chf.CdrFile.Layout.{
  octet_release, octet_version, slice_at, slice_skip, extension_bytes, put_extension-append,
  length-extension_bytes, read_extension_at,
}

-- A record whose fields fit their bits, whose length field is the length of its body, and which has
-- an extension octet only under release identifier 7.
pub record IsEncodable (c : Cdr) : Type 0 where
  pub body_length : c.hdr.cdr_length ≡ length c.cdr_byte
  pub body_fits : length c.cdr_byte < 2 ^ 16
  pub release : c.hdr.release_identifier < 8
  pub version : c.hdr.version_identifier < 32
  pub format : c.hdr.data_record_format < 8
  pub ts : c.hdr.ts_number < 32
  pub extension : c.hdr.release_identifier ≢ 7 → c.hdr.release_identifier_extension ≡ 0

-- The bytes of one record.
abbrev pub cdr_size : Cdr → ℕ
cdr_size c = 4 + extension_size c.hdr.release_identifier + length c.cdr_byte

abbrev pub cdrs_size : List Cdr → ℕ
cdrs_size [] = 0
cdrs_size (c ∷ cs) = cdr_size c + cdrs_size cs

-- `decode_cdr` from what its reads return.
decode_cdr_reads :
    (bytes spare : List ℕ) (tail next octet3 octet4 : ℕ) (c : Cdr)
    → octet3 / 2 ^ 5 ≡ c.hdr.release_identifier
    → bit_and octet3 0b11111 ≡ c.hdr.version_identifier
    → octet4 / 2 ^ 5 ≡ c.hdr.data_record_format
    → bit_and octet4 0b11111 ≡ c.hdr.ts_number
    → read_u16 bytes spare tail ((tail + 2) % 2 ^ 32) ≡ some c.hdr.cdr_length
    → get_elem? bytes ((tail + 2) % 2 ^ 32) ≡ some octet3
    → get_elem? bytes ((tail + 3) % 2 ^ 32) ≡ some octet4
    → read_extension bytes c.hdr.release_identifier ((tail + 4) % 2 ^ 32)
      ≡ some c.hdr.release_identifier_extension
    → ((tail + (4 + extension_size c.hdr.release_identifier)) % 2 ^ 32 + c.hdr.cdr_length) % 2 ^ 32
      ≡ next
    → slice bytes spare ((tail + (4 + extension_size c.hdr.release_identifier)) % 2 ^ 32) next
      ≡ some c.cdr_byte
    → decode_cdr bytes spare tail ≡ some (c, next)
unfolding decode_cdr
decode_cdr_reads bytes spare tail next octet3 octet4 c r v f t h1 h2 h3 h4 n h5 =
    rw (h1, h2, h3, r, v, f, t, h4, n, h5)

-- The octets of a record before its extension.
abbrev head_bytes : CdrHeader → List ℕ
head_bytes h = put_u16 h.cdr_length (
    identifier_octet h.release_identifier h.version_identifier
    ∷ identifier_octet h.data_record_format h.ts_number
    ∷ [])

abbrev cdr_extension : CdrHeader → List ℕ
cdr_extension h = extension_bytes h.release_identifier h.release_identifier_extension

encode_cdr_parts :
    (pre body more : List ℕ) (h : CdrHeader)
    → pre ++ encode_cdr_header h (body ++ more)
      ≡ (pre ++ (head_bytes h ++ cdr_extension h)) ++ (body ++ more)
unfolding encode_cdr_header
encode_cdr_parts pre body more h =
    rw (put_extension-append h.release_identifier h.release_identifier_extension (body ++ more))
      (sym (append_assoc pre (head_bytes h ++ cdr_extension h) (body ++ more)))

length-parts :
    (pre : List ℕ) (h : CdrHeader)
    → length (pre ++ (head_bytes h ++ cdr_extension h))
      ≡ length pre + (4 + extension_size h.release_identifier)
length-parts pre h = omega (
  arith,
  length-append pre (head_bytes h ++ cdr_extension h),
  length-extension_bytes h.release_identifier h.release_identifier_extension,
)

read_cdr_extension :
    (pre rest : List ℕ) (c : Cdr) (at : ℕ)
    → IsEncodable c
    → at ≡ length pre + 4
    → read_extension (pre ++ encode_cdr_header c.hdr rest) c.hdr.release_identifier at
      ≡ some c.hdr.release_identifier_extension
unfolding encode_cdr_header
read_cdr_extension pre rest c at w e =
    rw
      (← append_assoc pre (head_bytes c.hdr)
        (put_extension c.hdr.release_identifier c.hdr.release_identifier_extension rest))
      (read_extension_at (pre ++ head_bytes c.hdr) rest c.hdr.release_identifier
        c.hdr.release_identifier_extension at (omega (arith, length-append pre (head_bytes c.hdr)))
        w.extension)

-- One round of the loop reads the record that stands at `tail`.
decode-encode_cdr :
    (pre more spare : List ℕ) (c : Cdr)
    → IsEncodable c
    → length pre + cdr_size c < 2 ^ 32
    → decode_cdr (pre ++ encode_cdr_header c.hdr (c.cdr_byte ++ more)) spare (length pre)
      ≡ some (c, length pre + cdr_size c)
decode-encode_cdr pre more spare c w small =
    decode_cdr_reads _ spare tail (tail + cdr_size c) octet3 octet4 c
      (octet_release _ _ w.release w.version) (octet_version _ _ w.release w.version)
      (octet_release _ _ w.format w.ts) (octet_version _ _ w.format w.ts)
      (rw
        (slice_skip pre written spare tail ((tail + 2) % 2 ^ 32) 0 2 (omega arith) (omega arith)
          (omega arith))
        (unfold encode_cdr_header in ap some (uint16_bytes _ (omega arith))))
      (unfold encode_cdr_header in
        get_elem?-append pre written ((tail + 2) % 2 ^ 32) 2 (omega arith))
      (unfold encode_cdr_header in
        get_elem?-append pre written ((tail + 3) % 2 ^ 32) 3 (omega arith))
      (read_cdr_extension pre (c.cdr_byte ++ more) c _ w (omega arith)) (omega arith)
      (rw (encode_cdr_parts pre c.cdr_byte more c.hdr) (
        slice_at (pre ++ (head_bytes c.hdr ++ cdr_extension c.hdr)) c.cdr_byte more spare _
          (tail + cdr_size c) (omega (arith, length-parts pre c.hdr))
          (omega (arith, length-parts pre c.hdr))))
  where
    tail : ℕ
    tail = length pre

    octet3 : ℕ
    octet3 = identifier_octet c.hdr.release_identifier c.hdr.version_identifier

    octet4 : ℕ
    octet4 = identifier_octet c.hdr.data_record_format c.hdr.ts_number

    written : List ℕ
    written = encode_cdr_header c.hdr (c.cdr_byte ++ more)

-- What stands before the records that are still to be read.
abbrev past : List ℕ → Cdr → List ℕ
past pre c = (pre ++ (head_bytes c.hdr ++ cdr_extension c.hdr)) ++ c.cdr_byte

past-append :
    (pre more : List ℕ) (c : Cdr)
    → pre ++ encode_cdr_header c.hdr (c.cdr_byte ++ more) ≡ past pre c ++ more
past-append pre more c =
    encode_cdr_parts pre c.cdr_byte more c.hdr
    ∙ sym (append_assoc (pre ++ (head_bytes c.hdr ++ cdr_extension c.hdr)) c.cdr_byte more)

length-past : (pre : List ℕ) (c : Cdr) → length (past pre c) ≡ length pre + cdr_size c
length-past pre c = omega (
  arith,
  length-append (pre ++ (head_bytes c.hdr ++ cdr_extension c.hdr)) c.cdr_byte,
  length-parts pre c.hdr,
)

-- The loop reads all records, whatever stands before them.
pub decode-encode_cdrs :
    (cs : List Cdr) (pre spare : List ℕ)
    → All IsEncodable cs
    → length pre + cdrs_size cs < 2 ^ 32
    → decode_cdrs (pre ++ encode_cdrs cs) spare (length cs) (length pre) ≡ some cs
unfolding decode_cdrs encode_cdrs
decode-encode_cdrs [] pre spare w small = refl
decode-encode_cdrs (c ∷ cs) pre spare w small =
    let ih = decode-encode_cdrs cs (past pre c) spare w.1 (omega (arith, length-past pre c)) in
    let rest : decode_cdrs (pre ++ encode_cdr_header c.hdr (c.cdr_byte ++ encode_cdrs cs)) spare
          (length cs) (length pre + cdr_size c)
        ≡ some cs =
      rw (past-append pre (encode_cdrs cs) c, ← length-past pre c) ih in
    rw (decode-encode_cdr pre (encode_cdrs cs) spare c w.0 (omega arith), rest)

pub decode-encode_cdrs_at :
    (cs : List Cdr) (pre spare bytes : List ℕ) (count tail : ℕ)
    → bytes ≡ pre ++ encode_cdrs cs
    → count ≡ length cs
    → tail ≡ length pre
    → All IsEncodable cs
    → length pre + cdrs_size cs < 2 ^ 32
    → decode_cdrs bytes spare count tail ≡ some cs
decode-encode_cdrs_at cs pre spare bytes count tail eb ec et w small =
    rw (eb, ec, et) (decode-encode_cdrs cs pre spare w small)
