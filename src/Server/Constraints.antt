-- ===== src/Server/Constraints.antt =====
-- What any sequence of requests does to the tables: statements of src/db.rs in turn, and so the
-- schema's constraints hold.
use aardbin.Prelude.{
  List, Option, Option-cases, Text, arith, codes, inl, inr, none, refl, some, ℕ, ◌≡◌,
}
use aardbin.App.{Env, World, db_call, delete_file, delete_files, reading, send_event, writing}
use aardbin.Db
use aardbin.Db.{AttachmentRow, RecordRow, Tables, is_some}
use aardbin.Db.Steps
use aardbin.Db.Steps.{Step, Reach, here, next, Reach-IsConsistent}
use aardbin.I18n.{Lang}
use aardbin.Login.{checked_login, detect_lang, key_matches, post_login}
use aardbin.Records.{content_length, create_record, record_not_found, saved, update_record}
use aardbin.Records.Removal.{
  bare_ok, delete_attachment, delete_record, deleted, relisted, removed, touched,
}
use aardbin.Api.{
  api_auth, api_create_record, api_delete_record, api_verdict, checked_token, with_auth,
}
use aardbin.Ratelimit.{IpAddr, Verdict, allowed, check, locked}
use aardbin.Http.{Headers, Response, delete, header_text, internal}
use aardbin.Form.Untouched.{delete_file_rest}
use aardbin.Server.{
  Traffic, api_create, api_delete, create, delete, detach, login, quiet, serve, update,
}
use aardbin.Server.Statements.{
  Reach-eq, Reach-trans, SameRest-Serves, Serves, delete_call-Serves, delete_files-Serves,
  if-Serves, parsed_form-Serves, reading-Serves, send_event-Serves, update_found-Serves,
  writing-Serves,
}
use aardbin.Db.Integrity.{IsConsistent}

pub deleted-Serves :
    (done absent failed : Response) (r : Option (Option (List Text)) × World)
    → Serves r.1 (deleted done absent failed r).1
unfolding deleted
deleted-Serves done absent failed (none, w) = here
deleted-Serves done absent failed (some none, w) = here
deleted-Serves done absent failed (some (some ids), w) =
    Reach-trans (delete_files-Serves ids w) (send_event-Serves (delete_files ids w))

module _ (e : Env) where
  relisted-Serves :
      (lang : Lang) (r : Option (List AttachmentRow) × World) → Serves r.1 (relisted e lang r).1
  unfolding relisted
  relisted-Serves lang (none, w) = here
  relisted-Serves lang (some attachments, w) = here

  touched-Serves :
      (lang : Lang) (record_id : Text) (r : Option (Unit {0}) × World)
      → Serves r.1 (touched e lang record_id r).1
  unfolding touched
  touched-Serves lang record_id (none, w) = here
  touched-Serves lang record_id (some done, w) =
      let listed = db_call (reading (Db.list_attachments record_id)) (send_event w) in
      Reach-trans (send_event-Serves w) (
        Reach-trans (reading-Serves (Db.list_attachments record_id) (send_event w))
          (relisted-Serves lang listed))

  pub removed-Serves :
      (lang : Lang) (record_id id : Text) (now : ℕ) (r : Option (Option AttachmentRow) × World)
      → Serves r.1 (removed e lang record_id id now r).1
  unfolding removed
  removed-Serves lang record_id id now (none, w) = here
  removed-Serves lang record_id id now (some none, w) = here
  removed-Serves lang record_id id now (some (some row), w) =
      let touching : Tables → Unit {0} × Tables = λ t. (tt, Db.touch_record record_id now t) in
      Reach-trans (SameRest-Serves (delete_file_rest id w)) (
        Reach-trans (writing-Serves touching (delete_file id w) (Steps.touched record_id now refl))
          (touched-Serves lang record_id (db_call (writing touching) (delete_file id w))))

  checked_login-Serves :
      (ip : IpAddr) (failed_at now : ℕ) (hs : Headers) (key : Text) (w : World) (v : Verdict)
      → Serves w (checked_login e ip failed_at now hs key w v).1
  unfolding checked_login
  checked_login-Serves ip failed_at now hs key w (locked r) = here
  checked_login-Serves ip failed_at now hs key w allowed =
      if-Serves w (key_matches e key) _ _ here here

  checked_token-tables :
      (ip : IpAddr) (failed_at : ℕ) (header : Option Text) (w : World)
      → (checked_token e ip failed_at header w).1.tables ≡ w.tables
  unfolding checked_token
  checked_token-tables ip failed_at none w = refl
  checked_token-tables ip failed_at (some header) w = ground arith

  api_verdict-Serves :
      (ip : IpAddr) (failed_at : ℕ) (header : Option Text) (w : World) (v : Verdict)
      → Serves w (api_verdict e ip failed_at header w v).1
  unfolding api_verdict
  api_verdict-Serves ip failed_at header w (locked r) = here
  api_verdict-Serves ip failed_at header w allowed =
      Reach-eq here (checked_token-tables ip failed_at header w)

  checked-Serves :
      (ip : IpAddr) (checked_at failed_at : ℕ) (hs : Headers) (w : World)
      → Serves w (api_auth e ip checked_at failed_at hs w).1
  unfolding api_auth
  checked-Serves ip checked_at failed_at hs w =
      let checked = check ip checked_at w.failures in
      let w' : World = record w { failures = checked.1 } in
      api_verdict-Serves ip failed_at (header_text (codes "authorization") hs) w' checked.0

  with_auth-Serves :
      (ip : IpAddr) (checked_at failed_at : ℕ) (hs : Headers) (handler : World → Response × World)
      (w : World)
      → ((v : World) → Serves v (handler v).1)
      → Serves w (with_auth e ip checked_at failed_at hs handler w).1
  unfolding with_auth
  with_auth-Serves ip checked_at failed_at hs handler w sound =
      let seen = checked-Serves ip checked_at failed_at hs w in
      elim (Option-cases (api_auth e ip checked_at failed_at hs w).0) [
        | inl passed ↦
            rw (with_auth, passed)
              (Reach-trans seen (sound (api_auth e ip checked_at failed_at hs w).1))
        | inr (resp, rejected) ↦ rw (with_auth, rejected) seen
      ]

  -- Whatever requests come, in whatever order, whatever they hold, and whatever calls on the
  -- database or on files fail, the tables change by the statements of src/db.rs alone.
  pub serve-Reach : (traffic : Traffic) (w : World) → Reach w.tables (serve e traffic w).tables
  unfolding serve post_login create_record update_record delete_record delete_attachment
      api_create_record api_delete_record
  serve-Reach quiet w = here
  serve-Reach (login ip checked_at failed_at now hs key rest) w =
      let checked = check ip checked_at w.failures in
      let w' : World = record w { failures = checked.1 } in
      let one : Serves w (checked_login e ip failed_at now hs key w' checked.0).1 =
        checked_login-Serves ip failed_at now hs key w' checked.0 in
      Reach-trans one (serve-Reach rest (post_login e ip checked_at failed_at now hs key w).1)
  serve-Reach (create form hs now rest) w =
      Reach-trans (parsed_form-Serves e internal (λ id. saved) form (content_length hs) now w)
        (serve-Reach rest (create_record e form hs now w).1)
  serve-Reach (update id form hs now during rest) w =
      let row = db_call (reading (Db.get_record id)) w in
      Reach-trans
        (Reach-trans (reading-Serves (Db.get_record id) w)
          (update_found-Serves e (serve e during) id form hs now row (serve-Reach during)))
        (serve-Reach rest (update_record e (serve e during) id form hs now w).1)
  serve-Reach (delete id rest) w =
      let gone = db_call (writing (Db.delete_record id)) w in
      Reach-trans
        (Reach-trans (delete_call-Serves id w)
          (deleted-Serves bare_ok record_not_found internal gone))
        (serve-Reach rest (delete_record id w).1)
  serve-Reach (detach hs record_id id now rest) w =
      let gone = db_call (writing (Db.delete_attachment record_id id)) w in
      Reach-trans
        (Reach-trans
          (writing-Serves (Db.delete_attachment record_id id) w (Steps.detached record_id id refl))
          (removed-Serves (detect_lang hs) record_id id now gone))
        (serve-Reach rest (delete_attachment e hs record_id id now w).1)
  serve-Reach (api_create ip checked_at failed_at form hs now rest) w =
      Reach-trans
        (with_auth-Serves ip checked_at failed_at hs (api_create_record e form hs now) w
          (λ v. parsed_form-Serves e _ _ form (content_length hs) now v))
        (serve-Reach rest
          (with_auth e ip checked_at failed_at hs (api_create_record e form hs now) w).1)
  serve-Reach (api_delete ip checked_at failed_at hs id rest) w =
      Reach-trans
        (with_auth-Serves ip checked_at failed_at hs (api_delete_record e id) w (λ v.
          Reach-trans (delete_call-Serves id v)
            (deleted-Serves _ _ _ (db_call (writing (Db.delete_record id)) v))))
        (serve-Reach rest (with_auth e ip checked_at failed_at hs (api_delete_record e id) w).1)

  -- From consistent tables, any requests, in any order and with any failures, lead to tables in which
  -- the ids of records and of attachments are distinct and every attachment has its record.
  pub serve-IsConsistent :
      (traffic : Traffic) (w : World)
      → IsConsistent w.tables
      → IsConsistent (serve e traffic w).tables
  serve-IsConsistent traffic w good = Reach-IsConsistent (serve-Reach traffic w) good
