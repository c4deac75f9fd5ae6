-- ===== src/Resource/Store.antt =====
-- The subscriber pool, the store of records and the files (internal/context/context.go,
-- internal/sbi/processor/cdr.go).
use chf.Base.{ℕ, suc, ◌≡◌, refl, Bool, true, false, List, [], ◌∷◌, ◌++◌, some, if◌then◌else◌}
use chf.Base.Decimal.{Text}
use chf.Base.Maps.{update, text_eq}
use chf.Record.{ChargingRecord}
use chf.Record.Dump.{dump_cdr_file}
use chf.Resource.{Subscriber, Chf, Outside}

unfoldable pub update_text : {V : Type 0} → (Text → V) → Text → V → Text → V
update_text f k v j = if text_eq k j then v else f j

module _ {V : Type 0} (f : Text → V) (k j : Text) (v : V) where
  pub update_text_hit : text_eq k j ≡ true → update_text f k v j ≡ v
  unfolding update_text
  update_text_hit e = rw e refl

  pub update_text_miss : text_eq k j ≡ false → update_text f k v j ≡ f j
  unfolding update_text
  update_text_miss e = rw e refl

-- `UePool.Store`, on a subscriber that changed.
unfoldable pub put_ue : Chf → Text → Subscriber → Chf
put_ue context supi ue = record context { ue_pool = update_text context.ue_pool supi (some ue) }

-- A write through the pointer to a record.
unfoldable pub set_record : Chf → ℕ → ChargingRecord → Chf
set_record context a cdr = record context { store = update context.store a cdr }

-- A new record at a free address.
unfoldable pub add_record : Chf → ChargingRecord → Chf
add_record context cdr = record context {
  store = update context.store context.next cdr;
  next = suc context.next;
}

abbrev pub records_at : (ℕ → ChargingRecord) → List ℕ → List ChargingRecord
records_at store [] = []
records_at store (a ∷ as') = store a ∷ records_at store as'

-- `buildCdrFileName`
unfoldable pub build_cdr_file_name : (Text → Text) → Text → Text
build_cdr_file_name digest supi =
    (b'/' ∷ b't' ∷ b'm' ∷ b'p' ∷ b'/' ∷ b'c' ∷ b'h' ∷ b'f' ∷ b'-' ∷ [])
    ++ digest supi
    ++ (b'.' ∷ b'c' ∷ b'd' ∷ b'r' ∷ [])

-- `dumpCdrFile` on the records at some addresses; false where the write fails.
unfoldable pub dump_records : (o : Outside) → o.Files → Chf → Text → List ℕ → o.Files × Bool
dump_records o files context supi addresses =
    o.write_file files (build_cdr_file_name o.digest supi)
      (dump_cdr_file o.marshal (records_at context.store addresses))
