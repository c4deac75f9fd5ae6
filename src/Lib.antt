-- ===== src/Lib.antt =====
-- The converged charging function (CHF): charging sessions, the rating function, the account balance
-- management function, and the files of charging data records.
--
-- A session request reports used units and asks for new ones per rating group. The session
-- (internal/sbi/processor/converged_charging.go) prices the units with the rating function
-- (pkg/rf/rating.go), and reserves money at the account function (pkg/abmf/abmf.go), over Diameter
-- (ccs_diameter/datatype, internal/rating/rating.go, internal/abmf/abmf.go). Records of what was used
-- go into files (cdr/cdrFile/cdrFile.go), BER encoded (cdr/asn), which are transferred to the billing
-- domain (internal/cgf/cgf.go). Requests come in over HTTP (internal/sbi), and the function registers at
-- the NRF (internal/sbi/consumer).
--
--   Base       numbers, lists, texts, machine words, Go maps and strconv's decimal integers
--   Diameter   the messages of both functions (ccs_diameter/datatype) and the collection of charging
--              data, a parameter; Diameter/Table has an instance
--   Account    `handleCCR` of pkg/abmf/abmf.go as handle_ccr; Account/Balance: what it does to balances,
--              Others: what it leaves alone; Ledger and Refines: the ledger that it implements
--   Rating     `buildTaffif` and `handleSUR` of pkg/rf/rating.go; Rating/Price: prices and allowed units
--   Models     the messages of the charging service, as far as the code reads or writes them
--   Ue         `ChfUe` of internal/context/ue_context.go
--   Session    `sessionChargingReservation` and `getUnitCost`: Scan (used units), Messages (requests),
--              Reserve and Debit (the two cases), Loop (the loop over rating groups), Peers (the clients
--              in internal/rating and internal/abmf); Money, Settle, Counted and Usage:
--              where the money goes; Elsewhere and Untouched: what a request leaves alone
--   CdrFile    Encode and Decode: the three `Encoding` methods and `Decoding` of
--              cdr/cdrFile/cdrFile.go, over the bytes of the file; Layout, Records, Header,
--              HeaderRead, RoundTrip, Extension: what decoding makes of encoded files
--   Record     charging data records (cdr/cdrType): Convert (cdr/cdrConvert/sbiToCdr.go), Open, Lifecycle
--              and Dump (`OpenCDR`, `UpdateCDR`, `CloseCDR` and `dumpCdrFile` of
--              internal/sbi/processor/cdr.go); Digits and ReadBack: what can be read back
--   Resource   `ChargingDataCreate`, `ChargingDataUpdate` and `ChargingDataRelease`, with the subscriber
--              pool of internal/context/context.go and a store for the records, which the code shares
--              by pointers: Create, Update, Release, and Recharge (`NotifyRecharge`); Volume and
--              Recorded: what the records hold; Kept, Preserved, Updated and Reach: histories of
--              operations; Answers: the statuses of problems; Sample: concrete data
--   Sbi        the handlers of internal/sbi/api_convergedcharging.go and the check of the token; Served:
--              how a request is served, described apart from the handlers; Histories: lists of requests;
--              Statuses: 401 and 500; Routes and Router: the routes of the server
--   Asn        Params (`parseFieldParameters` of cdr/asn/common.go), Digits, Tag, Marshal and Unmarshal
--              (`makeField` of cdr/asn/ber_marshal.go, `parseTagAndLength`, `parseInt64` and
--              `ParseField` of cdr/asn/ber_unmarshal.go) over the Go values and types that reflection
--              shows; Positional, Integers, IntegerRoundTrip, TagRead, TagRoundTrip: numbers, tags and
--              lengths that are written and read; Framing and Element: what a field is encoded to;
--              Split and Sequence: the loops over elements; Readable, Encodable, ReadParts and ReadBack:
--              values that are read as they were encoded
--   Cgf        `Login`, `SendCDR` and the logins of `Serve` of internal/cgf/cgf.go; Setup: the configuration
--              of the FTP server, and the removal of files; Transfer and Reports: what is delivered
--              and reported
--   Nrf        internal/sbi/consumer/nrf_service.go and nrf_heartbeat.go; Requests: discovery, update and
--              deregistration; Registration: when it ends
--   Config     the types of pkg/factory/config.go: Getters, Setters (with those of pkg/service/init.go),
--              Validate; Accepted: which configurations are valid
--   Context    `InitChfContext` and `AddNfServices` of internal/context/chf_context_init.go; Advertised:
--              what is registered, and where the server listens
--   Service    the goroutines of pkg/service/init.go and internal/sbi/server.go as steps; Order: the order
--              of requests to the NRF
--
-- Integers of w bits are patterns below 2^w, and wrap around where the source's do; an int64 is its two's
-- complement pattern. A panic is the `none` of a definition, or the constructor `panics` of Reply.
-- The library of the router answers a panic of a handler with 500; the state it leaves is not modelled.
-- Fuel: a decimal number of 64 bits has at most 20 digits. Decoding recurses on the number of records.
-- A number of 64 bits has at most 10 digits of seven bits and 8 octets, which bounds the loops of cdr/asn;
-- `ParseField` has as much fuel for the elements of a value as the value has bytes, and each takes a byte.
-- The read buffer of a file is its bytes and spare capacity, which a slice expression can reach.
--
-- Parameters: the collection in MongoDB (Collection, with the law of a write in Keeps); the float
-- product behind a volume threshold (a field of ChfUe); and what a resource uses from outside
-- (Outside): files and their transfer, SHA-256, the clock, the check of a PLMN, and the BER
-- encoding of a record, since what reflection makes of the Go types in cdr/cdrType is not modelled; Asn
-- has the encoder. The FTP client (Ftp, with the laws of a store in Holds), the JSON of a request, the
-- check of a token (Web) and what the NRF answers are parameters or inputs, too. The Diameter clients
-- lose no message: a request is
-- answered, or the server does not answer and the request fails; an answer that arrives after the
-- timeout is not modelled. The validation library of the configuration, the environment, the NRF's
-- token server and UUIDs are parameters. Not modelled: the command line and the reading of YAML, the
-- libraries' servers and routers, and the dictionary of AVPs. Logging, metrics and network access are
-- left out, and so are the locks: each operation runs alone, and goroutines take turns in Service.
pub mod Base
pub mod CdrFile
pub mod Diameter
pub mod Account
pub mod Rating
pub mod Models
pub mod Ue
pub mod Session
pub mod Record
pub mod Resource
pub mod Asn
pub mod Sbi
pub mod Cgf
pub mod Nrf
pub mod Config
pub mod Context
pub mod Service
