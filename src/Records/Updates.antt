-- ===== src/Records/Updates.antt =====
-- What `update_record` of src/routes.rs leaves of a record.
use mathlib.Core.Option
use aardbin.Prelude.{
  Bool, Bytes, Option, Text, false, if◌then◌else◌, none, refl, some, text_eq, true, ℕ, ◌+◌, ◌≡◌,
}
use aardbin.Http.{Response}
use aardbin.App.{Env, World, db_call, head_fault, ok, writing}
use aardbin.Crypto.{encrypt}
use aardbin.Form.{ParsedRecordForm}
use aardbin.Records.{insert_uploads, update_parsed}
use aardbin.Db
use aardbin.Db.{AttachmentRow, RecordRow, Tables, get_record, is_some}
use aardbin.Db.Rows.{overwrite}

-- A write that no fault hits.
pub writing_works {ℓ} :
    {A : Type ℓ} (f : Tables → A × Tables) (w : World)
    → head_fault w.faults.db ≡ false
    → ((db_call (writing f) w).0 ≡ some (f w.tables).0)
      × ((db_call (writing f) w).1.tables ≡ (f w.tables).1)
      × ((db_call (writing f) w).1.sent ≡ w.sent)
unfolding db_call
writing_works f w h = (rw (h, db_call) refl, rw (h, db_call) refl, rw (h, db_call) refl)

pub writing_fails {ℓ} :
    {A : Type ℓ} (f : Tables → A × Tables) (w : World)
    → head_fault w.faults.db ≡ true
    → ((db_call (writing f) w).0 ≡ none)
      × ((db_call (writing f) w).1.tables ≡ w.tables)
      × ((db_call (writing f) w).1.sent ≡ w.sent)
unfolding db_call
writing_fails f w h = (rw (h, db_call) refl, rw (h, db_call) refl, rw (h, db_call) refl)

-- `row` is what was read before the form arrived, `present` what is there when it has arrived.
module _ (e : Env) (row present : RecordRow) (id : Text) (now : ℕ) (form : ParsedRecordForm)
    (w : World) (there : get_record id w.tables ≡ some present) where
  abbrev pub new_blob : Bytes
  new_blob = encrypt e.cipher e.cfg.crypto_key (e.nonce w.drawn) form.title form.content

  abbrev pub written : Option Bool × World
  written = db_call (writing (Db.update_record id new_blob now)) (record w { drawn = w.drawn + 1 })

  abbrev pub uploads_in : Bool × World
  uploads_in = insert_uploads id form.uploads now written.1

  abbrev pub outcome : Response × World
  outcome = update_parsed e row id now (ok form, w)

  -- what a failure at an attachment leaves of the records
  abbrev pub taken_back : Text → Option RecordRow
  taken_back j =
      if text_eq id j
      then Option.map (overwrite row.blob row.updated_at) (get_record j w.tables)
      else get_record j w.tables
