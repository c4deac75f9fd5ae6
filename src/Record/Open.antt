-- ===== src/Record/Open.antt =====
-- Opening a record (`OpenCDR` of internal/sbi/processor/cdr.go).
use chf.Base.{ℕ, ◌==◌, Bool, List, [], ◌∷◌, Option, none, some, drop?, if◌then◌else◌, ◌>>=◌}
use chf.Base.Decimal.{Text}
use chf.Base.Maps.{text_eq}
use chf.Models
use chf.Models.{NfIdentification, PduSessionInformation, Snssai, ChargingDataRequest}
use chf.Session.Messages.{supi_type}
use chf.Record.{NetworkFunctionInformation, SubscriptionId, PduSessionChargingInformation}
use chf.Record.Convert.{sign_extend, plmn_id_to_cdr}

-- An empty text is an absent field.
abbrev pub text_option : Text → Option Text
text_option [] = none
text_option (c ∷ s) = some (c ∷ s)

abbrev subscription : ℕ → Text → Option SubscriptionId
subscription type id = some (record { subscription_id_type = type; subscription_id_data = id })

-- The subscriber of a record: END_USER_IMSI is 1, END_USER_NAI is 3. `none` outside is a slice out
-- of range.
unfoldable pub record_subscriber : Text → Option (Option SubscriptionId)
record_subscriber supi =
    let kind = supi_type supi in
    if text_eq kind (b'i' ∷ b'm' ∷ b's' ∷ b'i' ∷ [])
    then (drop? 5 supi >>= λ id. some (subscription 1 id))
    else if text_eq kind (b'n' ∷ b'a' ∷ b'i' ∷ [])
    then (drop? 4 supi >>= λ id. some (subscription 3 id))
    else if text_eq kind (b'g' ∷ b'c' ∷ b'i' ∷ [])
    then (drop? 4 supi >>= λ id. some (subscription 3 id))
    else if text_eq kind (b'g' ∷ b'l' ∷ b'i' ∷ [])
    then (drop? 4 supi >>= λ id. some (subscription 3 id))
    else some none

-- The values of the functionalities; a name that is not known leaves the zero value, which is CHF.
unfoldable pub functionality : Text → ℕ
functionality s =
    if text_eq s (b'S' ∷ b'M' ∷ b'F' ∷ [])
    then 1
    else if text_eq s (b'A' ∷ b'M' ∷ b'F' ∷ [])
    then 2
    else if text_eq s (b'S' ∷ b'M' ∷ b'S' ∷ b'F' ∷ [])
    then 3
    else if text_eq s (b'P' ∷ b'G' ∷ b'W' ∷ b'_' ∷ b'C' ∷ b'_' ∷ b'S' ∷ b'M' ∷ b'F' ∷ [])
    then 9
    else if text_eq s (b'N' ∷ b'E' ∷ b'F' ∷ [])
    then 8
    else if text_eq s (b'S' ∷ b'G' ∷ b'W' ∷ [])
    then 4
    else if text_eq s (b'I' ∷ b'_' ∷ b'S' ∷ b'M' ∷ b'F' ∷ [])
    then 5
    else if text_eq s (b'e' ∷ b'P' ∷ b'D' ∷ b'G' ∷ [])
    then 6
    else if text_eq s (b'C' ∷ b'E' ∷ b'F' ∷ [])
    then 7
    else if text_eq s
        (b'M' ∷ b'n' ∷ b'S' ∷ b'_' ∷ b'P' ∷ b'r' ∷ b'o' ∷ b'd' ∷ b'u' ∷ b'c' ∷ b'e' ∷ b'r' ∷ [])
    then 10
    else 0

-- What opening a record comes to; `failed` is the error that the caller answers with a bad request.
pub data Opened (A : Type 0) : Type 0 where
  opened : A → Opened A
  failed : Opened A
  panics : Opened A

abbrev with_plmn : NfIdentification → Option (List ℕ) → NetworkFunctionInformation
with_plmn nf plmn = record {
  network_functionality = functionality nf.node_functionality;
  network_function_name = text_option nf.nf_name;
  network_function_ipv4_address = text_option nf.nf_ipv4_address;
  network_function_ipv6_address = text_option nf.nf_ipv6_address;
  network_function_fqdn = text_option nf.nf_fqdn;
  network_function_plmn_identifier = plmn;
}

abbrev plmn_converted :
    NfIdentification → Option (Option (List ℕ)) → Opened NetworkFunctionInformation
plmn_converted nf none = panics
plmn_converted nf (some none) = failed
plmn_converted nf (some (some plmn)) = opened (with_plmn nf (some plmn))

unfoldable pub consumer_information :
    (Text → Text → Bool) → Option NfIdentification → Opened NetworkFunctionInformation
consumer_information is_valid none = failed
consumer_information is_valid (some nf) = elim nf.nf_plmn_id [
  | none ↦ opened (with_plmn nf none)
  | some id ↦ plmn_converted nf (plmn_id_to_cdr is_valid id)
]

-- The parts of a PDU session that have to be there, in the order in which the code asks for them.
unfoldable pub pdu_information :
    ℕ → Option PduSessionInformation → Opened PduSessionChargingInformation
pdu_information charging_id none = failed
pdu_information charging_id (some info) =
    if info.pdu_session_id == 0 then failed else elim (text_option info.dnn_id) [
      | none ↦ failed
      | some dnn ↦ elim info.network_slicing_info [
        | none ↦ failed
        | some none ↦ failed
        | some (some snssai) ↦ opened (record {
          pdu_session_charging_id = sign_extend charging_id;
          pdu_session_id = sign_extend info.pdu_session_id;
          network_slice_instance_id = record snssai { sst = sign_extend snssai.sst };
          data_network_name_identifier = dnn;
        })
      ]
    ]

unfoldable pub pdu_charging :
    Option Models.PduSessionChargingInformation → Opened (Option PduSessionChargingInformation)
pdu_charging none = opened none
pdu_charging (some pdu) = elim (pdu_information pdu.charging_id pdu.pdu_session_information) [
  | opened info ↦ opened (some info)
  | failed ↦ failed
  | panics ↦ panics
]
