-- ===== src/Records/Created.antt =====
-- `create_record` of src/routes.rs from the form to the record, its attachments and their files.
use aardbin.Prelude.{Option, Text, [], ap, arith, length, none, refl, some, sym, ℕ, ◌+◌, ◌∙◌, ◌≡◌}
use aardbin.Http.{Headers, err_response, internal}
use aardbin.App.{Env, Result, World, err, ok}
use aardbin.Crypto.Laws.{CipherLaws}
use aardbin.Form.{Multipart, ParsedRecordForm, parse_record_form}
use aardbin.Form.States.{IsFresh, IsStored}
use aardbin.Form.Atomic.{parse_record_form_atomic}
use aardbin.Records.{answer, content_length, create_record, save_new, save_parsed, saved}
use aardbin.Records.Saved.{IsSaved, save_new-IsSaved}

module _ (e : Env) (now : ℕ) where
  -- Only a save that succeeds is answered so.
  saved_only :
      (o : Option Text) → answer e internal (λ id. saved) o ≡ saved → (id : Text) × (o ≡ some id)
  unfolding internal err_response
  saved_only none h = absurd (ground (arith, ap (λ r. r.status) h))
  saved_only (some id) h = (id, refl)

  save_parsed_ok :
      (f : ParsedRecordForm) (r : Result ParsedRecordForm × World)
      → r.0 ≡ ok f
      → save_parsed e internal (λ id. saved) now r
        ≡ (answer e internal (λ id. saved) (save_new e f now r.1).0, (save_new e f now r.1).1)
  unfolding save_parsed
  save_parsed_ok f (err resp, v) h = absurd (ground (arith, h))
  save_parsed_ok f (ok g, v) h =
      let same : g ≡ f = ground (arith, h) in
      ap (λ x. (answer e internal (λ id. saved) (save_new e x now v).0, (save_new e x now v).1))
        same

  -- If the names that are yet to be drawn are free, no removal of a file fails, the cipher opens
  -- what it seals and nonces have twelve bytes, then a form that is parsed and answered with
  -- success has its files stored, each under a name that was free, and its record saved, readable
  -- as it was parsed, with an attachment row for each file.
  pub create_record-IsSaved :
      (form : Multipart) (hs : Headers) (w : World) (f : ParsedRecordForm)
      → IsFresh e w
      → w.faults.unlink ≡ []
      → CipherLaws e.cipher
      → ((i : ℕ) → length (e.nonce i) ≡ 12)
      → (parse_record_form e form (content_length hs) w).0 ≡ ok f
      → (create_record e form hs now w).0 ≡ saved
      → IsStored w (parse_record_form e form (content_length hs) w).1 f.uploads
        × ((id : Text) × IsSaved e f now
              (parse_record_form e form (content_length hs) w).1
              id
              (create_record e form hs now w).1)
  unfolding create_record
  create_record-IsSaved form hs w f fresh quiet laws twelve parsed done =
      let r = parse_record_form e form (content_length hs) w in
      let same = save_parsed_ok f r parsed in
      let (id, given) = saved_only (save_new e f now r.1).0 (sym (ap (λ x. x.0) same) ∙ done) in
      (
        (parse_record_form_atomic e w form (content_length hs) fresh quiet).1 f parsed,
        (id, rw same (save_new-IsSaved e f now r.1 id laws (twelve (r.1.drawn + 1)) given)),
      )
