-- ===== src/Cli/Muted.antt =====
-- Steps of src/cli/src/main.rs that leave the standard output and the files alone, and steps that do
-- not fail.
use aardbin.Prelude.{
  Bytes, List, Option, Option-cases, Text, [], inl, inr, none, refl, some, suc, zero, ℕ, ◌+◌, ◌==◌,
  ◌∷◌,
}
use aardbin.Http.{Method}
use aardbin.Cli.Host.{
  ApiAttachmentMeta, ApiRecord, ApiRecordSummary, Host, HttpRequest, HttpResponse, Part, Payload,
  bad_body, bad_url, eprint, exchange, fuel_spent, io, pure, sleep, write_stdout,
}
use aardbin.Cli.Client.{
  Client, back_off, bail_error, build, execute, is_final, json, send, send_loop, send_with_retry,
}
use aardbin.Cli.Commands.{
  body_content, post_form, print_attachment_lines, print_attachments, print_record, print_summaries,
  read_part, read_parts, report_created,
}
use aardbin.Cli.Output.{
  IsClean, IsClean-end, IsClean-if, IsClean-of_IsMute, IsMute, IsMute-bind, IsMute-fail, IsMute-if,
  IsMute-or_fail, IsMute-pure, IsTotal, IsTotal-bind,
}

module _ {S : Type 0} where
  pub IsTotal-write_stdout : (bytes : Bytes) → IsTotal {S = S} (write_stdout bytes)
  unfolding write_stdout
  IsTotal-write_stdout bytes = record { at = λ p why. cc }

  pub IsTotal-eprint : (line : Text) → IsTotal {S = S} (eprint line)
  unfolding eprint
  IsTotal-eprint line = record { at = λ p why. cc }

  pub IsTotal-pure : IsTotal {S = S} (pure tt)
  IsTotal-pure = record { at = λ p why. cc }

  pub IsMute-eprint : (line : Text) → IsMute {S = S} (eprint line)
  unfolding eprint
  IsMute-eprint line = record { at = λ p. record { stdout = refl; written = refl } }

  pub IsMute-sleep : (seconds : ℕ) → IsMute {S = S} (sleep seconds)
  unfolding sleep
  IsMute-sleep seconds = record { at = λ p. record { stdout = refl; written = refl } }

  pub IsTotal-print_summaries : (rs : List ApiRecordSummary) → IsTotal {S = S} (print_summaries rs)
  unfolding print_summaries
  IsTotal-print_summaries [] = IsTotal-pure
  IsTotal-print_summaries (r ∷ rs) =
      IsTotal-bind _ (IsTotal-write_stdout _) (λ done. IsTotal-print_summaries rs)

  pub IsTotal-print_attachment_lines :
      (rs : List ApiAttachmentMeta) → IsTotal {S = S} (print_attachment_lines rs)
  unfolding print_attachment_lines
  IsTotal-print_attachment_lines [] = IsTotal-pure
  IsTotal-print_attachment_lines (a ∷ rest) =
      IsTotal-bind _ (IsTotal-write_stdout _) (λ done. IsTotal-print_attachment_lines rest)

  pub IsTotal-print_attachments :
      (rs : List ApiAttachmentMeta) → IsTotal {S = S} (print_attachments rs)
  unfolding print_attachments
  IsTotal-print_attachments [] = IsTotal-pure
  IsTotal-print_attachments (a ∷ rest) =
      IsTotal-bind _ (IsTotal-write_stdout _) (λ done. IsTotal-print_attachment_lines (a ∷ rest))

  pub IsTotal-print_record : (r : ApiRecord) → IsTotal {S = S} (print_record r)
  unfolding print_record
  IsTotal-print_record r = IsTotal-bind _ (IsTotal-write_stdout _) (λ a.
      IsTotal-bind _ (IsTotal-write_stdout _) (λ b.
        IsTotal-bind _ (IsTotal-print_attachments r.attachments)
          (λ c. IsTotal-bind _ (IsTotal-write_stdout _) (λ d. IsTotal-write_stdout _))))

module _ {S : Type 0} (h : Host S) where
  pub IsMute-exchange : (req : HttpRequest) → IsMute (exchange h req)
  unfolding exchange
  IsMute-exchange req = record {
    at = λ p. elim (Option-cases (h.execute req p.server).0) [
      | inl lost ↦ rw (lost, exchange) (record { stdout = refl; written = refl })
      | inr (resp, came) ↦ rw (came, exchange) (record { stdout = refl; written = refl })
    ];
  }

  pub IsMute-back_off : (attempts : ℕ) (resp : HttpResponse) → IsMute (back_off h attempts resp)
  unfolding back_off
  IsMute-back_off attempts resp = IsMute-bind _ (IsMute-eprint _) (λ done. IsMute-sleep _)

  pub IsMute-send_loop :
      (c : Client) (fuel attempts : ℕ) (req : HttpRequest)
      → IsMute (send_loop h c fuel attempts req)
  unfolding send_loop execute
  IsMute-send_loop c zero attempts req = IsMute-fail fuel_spent
  IsMute-send_loop c (suc fuel) attempts req =
      IsMute-if (h.try_clone req)
        (IsMute-bind _ (IsMute-exchange _) (λ resp.
          IsMute-if (is_final attempts resp) (IsMute-pure resp) (
            IsMute-bind _ (IsMute-back_off attempts resp)
              (λ done. IsMute-send_loop c fuel (attempts + 1) req))))
        (IsMute-exchange _)

  pub IsMute-build :
      (method : Method) (url : Text) (payload : Payload) → IsMute (build h method url payload)
  unfolding build
  IsMute-build method url payload = IsMute-if (h.url_ok url) (IsMute-pure _) (IsMute-fail bad_url)

  pub IsMute-send : (c : Client) (method : Method) (url : Text) → IsMute (send h c method url)
  unfolding send execute
  IsMute-send c method url =
      IsMute-bind _ (IsMute-build method url Payload.empty) (λ req. IsMute-exchange _)

  pub IsMute-post_form : (c : Client) (parts : List Part) → IsMute (post_form h c parts)
  unfolding post_form send_with_retry
  IsMute-post_form c parts = IsMute-bind _ (IsMute-build _ _ _) (λ req. IsMute-send_loop c 4 0 req)

  pub IsMute-json :
      {T : Type 0} (read : Bytes → Option T) (resp : HttpResponse) → IsMute (json h read resp)
  unfolding json
  IsMute-json read resp = elim (Option-cases resp.body) [
    | inl broken ↦ rw (broken, json) (IsMute-fail bad_body)
    | inr (bytes, came) ↦ rw (came, json) (IsMute-or_fail bad_body (read bytes))
  ]

  pub IsMute-bail_error :
      {T : Type 0} (otherwise : Text) (resp : HttpResponse)
      → IsMute (bail_error h {T = T} otherwise resp)
  unfolding bail_error
  IsMute-bail_error otherwise resp = elim (Option-cases resp.body) [
    | inl broken ↦ rw (broken, bail_error) (IsMute-fail _)
    | inr (bytes, came) ↦ elim (Option-cases (h.read_error bytes)) [
      | inl odd ↦ rw (came, odd, bail_error) (IsMute-fail _)
      | inr (error, read) ↦ rw (came, read, bail_error) (IsMute-fail _)
    ]
  ]

  pub IsMute-read_part : (path : Text) → IsMute (read_part h path)
  unfolding read_part
  IsMute-read_part path =
      IsMute-bind _ (IsMute-or_fail io (h.read_file path)) (λ bytes. IsMute-pure _)

  pub IsMute-read_parts : (paths : List Text) → IsMute (read_parts h paths)
  unfolding read_parts
  IsMute-read_parts [] = IsMute-pure []
  IsMute-read_parts (path ∷ paths) =
      IsMute-bind _ (IsMute-read_part path)
        (λ part. IsMute-bind _ (IsMute-read_parts paths) (λ parts. IsMute-pure _))

  pub IsMute-body_content : (content : Option Text) → IsMute (body_content h content)
  unfolding body_content
  IsMute-body_content (some content) = IsMute-pure content
  IsMute-body_content none = IsMute-or_fail io h.stdin_text

  pub IsClean-bail_error :
      (otherwise : Text) (resp : HttpResponse)
      → IsClean {A = Unit {0}} (bail_error h otherwise resp)
  IsClean-bail_error otherwise resp = IsClean-of_IsMute (IsMute-bail_error otherwise resp)

  pub IsClean-report_created :
      (line : Text → Text) (resp : HttpResponse) → IsClean (report_created h line resp)
  unfolding report_created
  IsClean-report_created line resp =
      IsClean-if (resp.status == 201)
        (IsClean-end _ (IsClean-of_IsMute (IsMute-json h.read_created resp))
          (λ id. IsTotal-write_stdout _))
        (IsClean-bail_error _ resp)
