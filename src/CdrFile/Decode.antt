-- ===== src/CdrFile/Decode.antt =====
-- `CDRFile.Decoding` of cdr/cdrFile/cdrFile.go. A panic of an index or slice expression is `none`.
-- A slice expression reaches to the capacity of the slice that os.ReadFile returned, so the bytes
-- behind the content, `spare`, are part of the input; an index stops at the length.
use chf.Base.{
  ℕ, zero, suc, ◌+◌, ◌-◌, ◌/◌, ◌%◌, ◌^◌, bit_and, List, [], ◌∷◌, ◌++◌, Option, none, some, ltb,
  ◌==◌, if◌then◌else◌, ◌>>=◌, get_elem?, drop?, take?,
}
use chf.Base.Bytes.{uint16, uint32}
use chf.CdrFile.{CdrHdrTimeStamp, CdrFileHeader, Cdr, CdrFile}

-- data[a:b]
abbrev pub slice : List ℕ → List ℕ → ℕ → ℕ → Option (List ℕ)
slice bytes spare a b = if ltb b a then none else (drop? a (bytes ++ spare) >>= take? (b - a))

-- uint8((ts >> low) & mask)
unfoldable pub unpack_timestamp : ℕ → CdrHdrTimeStamp
unpack_timestamp ts = record {
  month_local = ts / 2 ^ 28 % 256;
  date_local = bit_and (ts / 2 ^ 23) 0b11111 % 256;
  hour_local = bit_and (ts / 2 ^ 18) 0b11111 % 256;
  minute_local = bit_and (ts / 2 ^ 12) 0b111111 % 256;
  sign_of_the_local_time_differential_from_utc = bit_and (ts / 2 ^ 11) 0b1 % 256;
  hour_deviation = bit_and (ts / 2 ^ 6) 0b11111 % 256;
  minute_deviation = bit_and ts 0b111111 % 256;
}

abbrev pub read_u32 : List ℕ → List ℕ → ℕ → ℕ → Option ℕ
read_u32 bytes spare a b = slice bytes spare a b >>= uint32

abbrev pub read_u16 : List ℕ → List ℕ → ℕ → ℕ → Option ℕ
read_u16 bytes spare a b = slice bytes spare a b >>= uint16

-- The extension octet is read at `at` if the release identifier is 7, and else stays 0.
unfoldable pub read_extension : List ℕ → ℕ → ℕ → Option ℕ
read_extension bytes release at = if release == 7 then get_elem? bytes at else some 0

-- `tail++` for an extension octet.
abbrev pub extension_size : ℕ → ℕ
extension_size release = if release == 7 then 1 else 0

-- The header and the offset of the first record. `xy` and `n` are uint16 in the source.
unfoldable pub decode_header : List ℕ → List ℕ → Option (CdrFileHeader × ℕ)
decode_header bytes spare = do
  ts ← read_u32 bytes spare 10 14
  last ← read_u32 bytes spare 14 18
  number ← read_u32 bytes spare 18 22
  filter_length ← read_u16 bytes spare 48 50
  let xy = (50 + filter_length) % 2 ^ 16
  private_length ← read_u16 bytes spare xy ((xy + 2) % 2 ^ 16)
  let n = (xy + 2 + private_length) % 2 ^ 16
  ip ← slice bytes spare 27 47
  file_length ← read_u32 bytes spare 0 4
  header_length ← read_u32 bytes spare 4 8
  high ← get_elem? bytes 8
  low ← get_elem? bytes 9
  sequence ← read_u32 bytes spare 22 26
  reason ← get_elem? bytes 26
  lost ← get_elem? bytes 47
  filter ← slice bytes spare 50 xy
  private ← slice bytes spare ((xy + 2) % 2 ^ 16) n
  high_extension ← read_extension bytes (high / 2 ^ 5) n
  low_extension ← read_extension bytes (low / 2 ^ 5) ((n + 1) % 2 ^ 16)
  some (
    record {
      file_length = file_length;
      header_length = header_length;
      high_release_identifier = high / 2 ^ 5;
      high_version_identifier = bit_and high 0b11111;
      low_release_identifier = low / 2 ^ 5;
      low_version_identifier = bit_and low 0b11111;
      file_opening_timestamp = unpack_timestamp ts;
      timestamp_when_last_cdr_was_appended_to_file = unpack_timestamp last;
      number_of_cdrs_in_file = number;
      file_sequence_number = sequence;
      file_closure_trigger_reason = reason;
      ip_address_of_node_that_generated_file = ip;
      lost_cdr_indicator = lost;
      length_of_cdr_routeing_filter = filter_length;
      cdr_routeing_filter = filter;
      length_of_private_extension = private_length;
      private_extension = private;
      high_release_identifier_extension = high_extension;
      low_release_identifier_extension = low_extension;
    },
    n + extension_size (high / 2 ^ 5) + extension_size (low / 2 ^ 5),
  )

-- One round of the loop over the records: the record at `tail`, a uint32, and the next `tail`.
unfoldable pub decode_cdr : List ℕ → List ℕ → ℕ → Option (Cdr × ℕ)
decode_cdr bytes spare tail = do
  cdr_length ← read_u16 bytes spare tail ((tail + 2) % 2 ^ 32)
  octet3 ← get_elem? bytes ((tail + 2) % 2 ^ 32)
  octet4 ← get_elem? bytes ((tail + 3) % 2 ^ 32)
  extension ← read_extension bytes (octet3 / 2 ^ 5) ((tail + 4) % 2 ^ 32)
  let start = (tail + (4 + extension_size (octet3 / 2 ^ 5))) % 2 ^ 32
  let next = (start + cdr_length) % 2 ^ 32
  body ← slice bytes spare start next
  some (
    record {
      hdr = record {
        cdr_length = cdr_length;
        release_identifier = octet3 / 2 ^ 5;
        version_identifier = bit_and octet3 0b11111;
        data_record_format = octet4 / 2 ^ 5;
        ts_number = bit_and octet4 0b11111;
        release_identifier_extension = extension;
      };
      cdr_byte = body;
    },
    next,
  )

unfoldable pub decode_cdrs : List ℕ → List ℕ → ℕ → ℕ → Option (List Cdr)
decode_cdrs bytes spare zero tail = some []
decode_cdrs bytes spare (suc count) tail = do
  (cdr, next) ← decode_cdr bytes spare tail
  cdrs ← decode_cdrs bytes spare count next
  some (cdr ∷ cdrs)

-- `before` is the record list of the receiver, to which the decoded records are appended.
unfoldable pub decode_file : List Cdr → List ℕ → List ℕ → Option CdrFile
decode_file before bytes spare = do
  (hdr, tail) ← decode_header bytes spare
  cdrs ← decode_cdrs bytes spare hdr.number_of_cdrs_in_file tail
  some (record { hdr = hdr; cdr_list = before ++ cdrs })
