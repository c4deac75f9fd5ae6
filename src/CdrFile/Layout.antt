-- ===== src/CdrFile/Layout.antt =====
-- Packed octets and words of cdr/cdrFile/cdrFile.go, and the positions that slices read.
use chf.Base.{
  ℕ, ◌+◌, ◌-◌, ◌*◌, ◌/◌, ◌%◌, ◌^◌, ◌<◌, ◌≤◌, ◌≡◌, ◌≢◌, sym, ap, inl, inr, [], Bool-cases, ◌==◌,
  if◌then◌else◌, bit_and, bit_or, arith, List, ◌∷◌, ◌++◌, append_assoc, some, le→ltb, get_elem?,
  get_elem?-append, drop?-append, take?-append, length,
}
use chf.Base.Bits.{bit_or_sum, bit_and_mask}
use chf.CdrFile.{CdrHdrTimeStamp}
use chf.CdrFile.Encode.{shl32, pack_timestamp, identifier_octet, put_extension}
use chf.CdrFile.Decode.{slice, unpack_timestamp, read_extension, extension_size}

-- What fits the fields of an octet: three bits and five bits.
pub octet_sum : (r v : ℕ) → r < 8 → v < 32 → identifier_octet r v ≡ r * 32 + v
unfolding identifier_octet
octet_sum r v hr hv = omega (arith, bit_or_sum 5 r (r * 2 ^ 5 % 256) v (omega arith) hv)

pub octet_release : (r v : ℕ) → r < 8 → v < 32 → identifier_octet r v / 2 ^ 5 ≡ r
octet_release r v hr hv = omega (arith, octet_sum r v hr hv)

pub octet_version : (r v : ℕ) → r < 8 → v < 32 → bit_and (identifier_octet r v) 0b11111 ≡ v
octet_version r v hr hv = rw (octet_sum r v hr hv, bit_and_mask 5 (r * 32 + v)) (omega arith)

pub record FitsTimestamp (t : CdrHdrTimeStamp) : Type 0 where
  pub month : t.month_local < 16
  pub date : t.date_local < 32
  pub hour : t.hour_local < 32
  pub minute : t.minute_local < 64
  pub sign : t.sign_of_the_local_time_differential_from_utc < 2
  pub hours_off : t.hour_deviation < 32
  pub minutes_off : t.minute_deviation < 64

abbrev pub timestamp_word : CdrHdrTimeStamp → ℕ
timestamp_word t =
    t.month_local * 2 ^ 28
    + t.date_local * 2 ^ 23
    + t.hour_local * 2 ^ 18
    + t.minute_local * 2 ^ 12
    + t.sign_of_the_local_time_differential_from_utc * 2 ^ 11
    + t.hour_deviation * 2 ^ 6
    + t.minute_deviation

pub pack_timestamp_sum :
    (t : CdrHdrTimeStamp) → FitsTimestamp t → pack_timestamp t ≡ timestamp_word t
unfolding pack_timestamp
pack_timestamp_sum t f =
    let a1 = bit_or (shl32 t.month_local 28) (shl32 t.date_local 23) in
    let a2 = bit_or a1 (shl32 t.hour_local 18) in
    let a3 = bit_or a2 (shl32 t.minute_local 12) in
    let a4 = bit_or a3 (shl32 t.sign_of_the_local_time_differential_from_utc 11) in
    let a5 = bit_or a4 (shl32 t.hour_deviation 6) in
    let q2 = t.month_local * 32 + t.date_local in
    let q3 = q2 * 32 + t.hour_local in
    let q4 = q3 * 64 + t.minute_local in
    let q5 = q4 * 2 + t.sign_of_the_local_time_differential_from_utc in
    let q6 = q5 * 32 + t.hour_deviation in
    let e1 : a1 ≡ q2 * 2 ^ 23 = omega (
      arith,
      bit_or_sum 28 t.month_local (shl32 t.month_local 28) (shl32 t.date_local 23) (omega arith)
          (omega arith),
    ) in
    let e2 : a2 ≡ q3 * 2 ^ 18 =
      omega (arith, bit_or_sum 23 q2 a1 (shl32 t.hour_local 18) e1 (omega arith)) in
    let e3 : a3 ≡ q4 * 2 ^ 12 =
      omega (arith, bit_or_sum 18 q3 a2 (shl32 t.minute_local 12) e2 (omega arith)) in
    let e4 : a4 ≡ q5 * 2 ^ 11 = omega (
      arith,
      bit_or_sum 12 q4 a3 (shl32 t.sign_of_the_local_time_differential_from_utc 11) e3
          (omega arith),
    ) in
    let e5 : a5 ≡ q6 * 2 ^ 6 =
      omega (arith, bit_or_sum 11 q5 a4 (shl32 t.hour_deviation 6) e4 (omega arith)) in
    omega (arith, bit_or_sum 6 q6 a5 t.minute_deviation e5 (omega arith))

pub pack_timestamp-IsU32 : (t : CdrHdrTimeStamp) → FitsTimestamp t → pack_timestamp t < 2 ^ 32
pack_timestamp-IsU32 t f = omega (arith, pack_timestamp_sum t f)

-- A timestamp whose fields fit comes back from its word.
pub unpack-pack : (t : CdrHdrTimeStamp) → FitsTimestamp t → unpack_timestamp (pack_timestamp t) ≡ t
unfolding unpack_timestamp
unpack-pack t f =
    let w = timestamp_word t in
    let e : pack_timestamp t ≡ w = pack_timestamp_sum t f in
    let month : w / 2 ^ 28 % 256 ≡ t.month_local = omega arith in
    let date : bit_and (w / 2 ^ 23) 31 % 256 ≡ t.date_local =
      omega (arith, bit_and_mask 5 (w / 2 ^ 23)) in
    let hour : bit_and (w / 2 ^ 18) 31 % 256 ≡ t.hour_local =
      omega (arith, bit_and_mask 5 (w / 2 ^ 18)) in
    let minute : bit_and (w / 2 ^ 12) 63 % 256 ≡ t.minute_local =
      omega (arith, bit_and_mask 6 (w / 2 ^ 12)) in
    let sign : bit_and (w / 2 ^ 11) 1 % 256 ≡ t.sign_of_the_local_time_differential_from_utc =
      omega (arith, bit_and_mask 1 (w / 2 ^ 11)) in
    let hours_off : bit_and (w / 2 ^ 6) 31 % 256 ≡ t.hour_deviation =
      omega (arith, bit_and_mask 5 (w / 2 ^ 6)) in
    let minutes_off : bit_and w 63 % 256 ≡ t.minute_deviation = omega (arith, bit_and_mask 6 w) in
    rw e (λ i. record {
      month_local = month i;
      date_local = date i;
      hour_local = hour i;
      minute_local = minute i;
      sign_of_the_local_time_differential_from_utc = sign i;
      hour_deviation = hours_off i;
      minute_deviation = minutes_off i;
    })

-- data[a:b] is the part that stands there.
pub slice_at :
    (xs ys zs spare : List ℕ) (a b : ℕ)
    → a ≡ length xs
    → b ≡ a + length ys
    → slice (xs ++ (ys ++ zs)) spare a b ≡ some ys
slice_at xs ys zs spare a b ha hb =
    rw
      (
        le→ltb b a (omega arith),
        append_assoc xs (ys ++ zs) spare,
        drop?-append xs ((ys ++ zs) ++ spare) a 0 (omega arith),
        append_assoc ys zs spare,
      )
      (take?-append ys (zs ++ spare) (b - a) (omega arith))

pub get_at :
    (xs : List ℕ) (y : ℕ) (zs : List ℕ) (i : ℕ)
    → i ≡ length xs
    → get_elem? (xs ++ (y ∷ zs)) i ≡ some y
get_at xs y zs i h = get_elem?-append xs (y ∷ zs) i 0 (omega arith)

-- A slice and an index behind a first part.
pub slice_skip :
    (xs ys spare : List ℕ) (a b i j : ℕ)
    → a ≡ length xs + i
    → b ≡ length xs + j
    → i ≤ j
    → slice (xs ++ ys) spare a b ≡ slice ys spare i j
slice_skip xs ys spare a b i j ha hb h =
    let d : b - a ≡ j - i = omega arith in
    rw (
      le→ltb b a (omega arith),
      le→ltb j i h,
      append_assoc xs ys spare,
      drop?-append xs (ys ++ spare) a i ha,
      d,
    )

-- An extension octet as a part of its own.
abbrev pub extension_bytes : ℕ → ℕ → List ℕ
extension_bytes release ext = if release == 7 then ext ∷ [] else []

pub put_extension-append :
    (release ext : ℕ) (rest : List ℕ)
    → put_extension release ext rest ≡ extension_bytes release ext ++ rest
unfolding put_extension
put_extension-append release ext rest = ground arith

pub put_extension_seven :
    (release ext : ℕ) (rest : List ℕ) → release ≡ 7 → put_extension release ext rest ≡ ext ∷ rest
unfolding put_extension
put_extension_seven release ext rest e = ground arith

pub put_extension_other :
    (release ext : ℕ) (rest : List ℕ) → release ≢ 7 → put_extension release ext rest ≡ rest
unfolding put_extension
put_extension_other release ext rest e = ground arith

pub length-extension_bytes :
    (release ext : ℕ) → length (extension_bytes release ext) ≡ extension_size release
length-extension_bytes release ext = ground arith

-- The octet that was written comes back, where there is one.
pub read_extension_at :
    (xs rest : List ℕ) (release ext at : ℕ)
    → at ≡ length xs
    → (release ≢ 7 → ext ≡ 0)
    → read_extension (xs ++ put_extension release ext rest) release at ≡ some ext
unfolding read_extension put_extension
read_extension_at xs rest release ext at h z = elim (Bool-cases (release == 7)) [
  | inl e ↦ rw e (get_at xs ext rest at h)
  | inr e ↦ rw e (ap some (sym (z (λ q. ground arith))))
]
