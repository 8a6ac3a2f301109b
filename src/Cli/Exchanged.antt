-- ===== src/Cli/Exchanged.antt =====
-- The requests of src/cli/src/main.rs and their answers by the server of src/main.rs.
use aardbin.Prelude.{
  Bool-cases, Bytes, List, Option-cases, Text, [], ap, arith, as_bytes, codes, if◌then◌else◌, inl,
  inr, none, refl, some, ◌++◌, ◌==◌, ◌∙◌, ◌∷◌, ◌≡◌, ◌≢◌,
}
use aardbin.Http.{Method}
use aardbin.App.{Env, World}
use aardbin.Api
use aardbin.Router.Table.{app}
use aardbin.Views
use aardbin.Views.{created_json, record_json}
use aardbin.Cli.Host.{
  ApiRecord, Host, HttpResponse, Part, Payload, Process, continue, done, exchange, failed, println,
  transport, ◌>>=◌,
}
use aardbin.Cli.Client.{Client, bail_error, build, execute, json, send}
use aardbin.Cli.Commands.{
  body_content, cmd_get, cmd_paste, is_success, post_form, print_record, read_parts, record_url,
  report_created,
}
use aardbin.Cli.Retry.{send_with_retry-IsSent}
use aardbin.Cli.Makes.{asked, built}
use aardbin.Cli.Wire.{Link, Wire, arrived, seen, text_parts}

module _ (e : Env) (wire : Wire) (c : Client) where
  abbrev pub after_exchange : Method → Text → Payload → Process World → Process World
  after_exchange method url payload p = record p {
    server = (app e (arrived wire c method url payload) p.server).1;
    sent = asked c method url payload ∷ p.sent;
  }

  abbrev pub answer_of : Method → Text → Payload → Process World → HttpResponse
  answer_of method url payload p = wire.reply (app e (arrived wire c method url payload) p.server).0

module _ (e : Env) (h : Host World) (wire : Wire) (c : Client) (link : Link e h wire c) where
  exchange_lem :
      (method : Method) (url : Text) (payload : Payload) (p : Process World)
      → exchange h (asked c method url payload) p ≡ (
        done (answer_of e wire c method url payload p),
        after_exchange e wire c method url payload p,
      )
  unfolding exchange
  exchange_lem method url payload p =
      let req = asked c method url payload in
      ap
        (λ x. elim x.0 [
          | none ↦ (failed transport, record p { server = x.1; sent = req ∷ p.sent })
          | some resp ↦ (done resp, record p { server = x.1; sent = req ∷ p.sent })
        ])
        (link.served req p.server)

  send_lem :
      (method : Method) (url : Text) (p : Process World)
      → send h c method url p ≡ (
        done (answer_of e wire c method url Payload.empty p),
        after_exchange e wire c method url Payload.empty p,
      )
  unfolding send build execute
  send_lem method url p = rw (link.urls url, build) (exchange_lem method url Payload.empty p)

  post_lem :
      (parts : List Part) (p : Process World)
      → post_form h c parts p ≡ (
        done (
            answer_of e wire c Method.post
              (c.base_url ++ codes "/api/records")
              (Payload.multipart parts)
              p),
        after_exchange e wire c Method.post
            (c.base_url ++ codes "/api/records")
            (Payload.multipart parts)
            p,
      )
  unfolding post_form build execute
  post_lem parts p =
      let url = c.base_url ++ codes "/api/records" in
      let payload = Payload.multipart parts in
      let once =
        (send_with_retry-IsSent h c (built Method.post url payload) p).1
          (link.streamed _ parts refl) in
      rw (link.urls url, build) (once ∙ exchange_lem Method.post url payload p)

  got_lem :
      (resp : HttpResponse) (bytes : Bytes) (r : ApiRecord) (p : Process World)
      → resp.status ≡ 200
      → resp.body ≡ some bytes
      → h.read_record bytes ≡ some r
      → (if is_success resp
            then (do found ← json h h.read_record resp; print_record found)
            else bail_error h (codes "request failed") resp)
          p
        ≡ print_record r p
  unfolding json
  got_lem resp bytes r p status body read = rw (status, body, json, read) refl

  -- Where the API shows a record, `get` prints it.
  pub get_lem :
      (id : Text) (r : Views.ApiRecord) (p : Process World)
      → (app e (arrived wire c Method.get (record_url c id) Payload.empty) p.server).0
        ≡ Api.json e 200 (record_json r)
      → cmd_get h c id p
        ≡ print_record
            (seen r)
            (after_exchange e wire c Method.get (record_url c id) Payload.empty p)
  unfolding cmd_get
  get_lem id r p shown =
      let resp = answer_of e wire c Method.get (record_url c id) Payload.empty p in
      let same : resp ≡ wire.reply (Api.json e 200 (record_json r)) = ap wire.reply shown in
      ap
        (λ x. continue x (λ resp.
          if is_success resp
          then (do found ← json h h.read_record resp; print_record found)
          else bail_error h (codes "request failed") resp))
        (send_lem Method.get (record_url c id) p)
      ∙ got_lem resp (as_bytes (e.to_json (record_json r))) (seen r)
          (after_exchange e wire c Method.get (record_url c id) Payload.empty p)
          (ap (λ x. x.status) same ∙ link.status _) (ap (λ x. x.body) same ∙ link.body _)
          (link.read r)

  -- Where the API answers 201, the name of the record is printed.
  pub created_lem :
      (resp : HttpResponse) (id : Text) (p : Process World)
      → resp ≡ wire.reply (Api.json e 201 (created_json id))
      → report_created h (λ i. i) resp p ≡ println id p
  unfolding report_created json
  created_lem resp id p same =
      let status : resp.status ≡ 201 = ap (λ x. x.status) same ∙ link.status _ in
      let body : resp.body ≡ some (as_bytes (e.to_json (created_json id))) =
        ap (λ x. x.body) same ∙ link.body _ in
      rw (status, body, json, link.created id) refl

  pub paste_lem :
      (title content : Text) (p : Process World)
      → cmd_paste h c (some title) (some content) [] p
        ≡ report_created h
            (λ i. i)
            (answer_of e wire c Method.post
              (c.base_url ++ codes "/api/records")
              (Payload.multipart (text_parts title content))
              p)
            (after_exchange e wire c Method.post
              (c.base_url ++ codes "/api/records")
              (Payload.multipart (text_parts title content))
              p)
  unfolding cmd_paste body_content read_parts
  paste_lem title content p =
      ap (λ x. continue x (λ resp. report_created h (λ i. i) resp))
        (post_lem (text_parts title content) p)

  bail_lem :
      (otherwise : Text) (resp : HttpResponse) (p : Process World)
      → (bail_error h {T = Unit {0}} otherwise resp p).0 ≢ done tt
  unfolding bail_error
  bail_lem otherwise resp p = elim (Option-cases resp.body) [
    | inl broken ↦ rw (broken, bail_error) (λ e. cc)
    | inr (bytes, came) ↦ elim (Option-cases (h.read_error bytes)) [
      | inl odd ↦ rw (came, odd, bail_error) (λ e. cc)
      | inr (error, read) ↦ rw (came, read, bail_error) (λ e. cc)
    ]
  ]

  -- The client reports success for the status 201 alone.
  pub done_lem :
      (resp : HttpResponse) (p : Process World)
      → (report_created h (λ i. i) resp p).0 ≡ done tt
      → resp.status ≡ 201
  unfolding report_created
  done_lem resp p ended = elim (Bool-cases (resp.status == 201)) [
    | inl good ↦ ground (arith, good)
    | inr bad ↦ absurd (
        bail_lem (codes "HTTP " ++ h.show_status resp.status) resp p
          (rw (bad, report_created) at ended))
  ]
