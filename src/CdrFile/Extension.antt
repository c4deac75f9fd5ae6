-- ===== src/CdrFile/Extension.antt =====
-- The low release identifier's extension without a high one: `Encoding` of cdr/cdrFile/cdrFile.go
-- writes the octet at offset n, and `Decoding` reads the octet behind it.
use chf.Base.{
  ℕ, ap, ◌∙◌, ◌>>=◌, ◌==◌, true, ◌+◌, ◌%◌, ◌^◌, ◌≡◌, ◌≢◌, arith, List, ◌∷◌, ◌++◌, some, get_elem?,
  get_elem?-append,
}
use chf.CdrFile.{CdrFileHeader}
use chf.CdrFile.Encode.{encode_header}
use chf.CdrFile.Decode.{read_extension, decode_header}
use chf.CdrFile.Header.{
  IsEncodable, header_size, fixed_size, to_extension, length-to_extension, at_extensions,
}
use chf.CdrFile.HeaderRead.{decode_header_low}
use chf.CdrFile.Layout.{put_extension_other, put_extension_seven}

seven : (r : ℕ) → r ≡ 7 → (r == 7) ≡ true
seven r e = ground arith

module _ (h : CdrFileHeader) (w : IsEncodable h) where
  low_alone :
      (rest : List ℕ) (at : ℕ)
      → h.high_release_identifier ≢ 7
      → h.low_release_identifier ≡ 7
      → at ≡ fixed_size h + 1
      → read_extension (encode_header h rest) h.low_release_identifier at ≡ get_elem? rest 0
  unfolding read_extension
  low_alone rest at high low e =
      rw (bytes, seven h.low_release_identifier low)
        (get_elem?-append (to_extension h) (h.low_release_identifier_extension ∷ rest) at 1
          (omega (arith, length-to_extension h w)))
    where
      bytes : encode_header h rest ≡ to_extension h ++ (h.low_release_identifier_extension ∷ rest)
      bytes =
          at_extensions h rest
          ∙ ap (◌++◌ (to_extension h)) (
              put_extension_other h.high_release_identifier h.high_release_identifier_extension _
                high
              ∙ put_extension_seven h.low_release_identifier h.low_release_identifier_extension rest
                  low)

  -- For an encodable header with low release identifier 7 and a high one that is not 7, decoding
  -- the written header takes the first octet behind the header for the extension, and panics if
  -- there is none.
  pub decode-encode_low_alone :
      (rest spare : List ℕ)
      → h.high_release_identifier ≢ 7
      → h.low_release_identifier ≡ 7
      → decode_header (encode_header h rest) spare ≡ (
          get_elem? rest 0 >>= λ x.
          some (record h { low_release_identifier_extension = x }, header_size h))
  decode-encode_low_alone rest spare high low =
      decode_header_low h w rest spare _
        (low_alone rest ((fixed_size h + 1) % 2 ^ 16) high low (omega (arith, w.short)))
