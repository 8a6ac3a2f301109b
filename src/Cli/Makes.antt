-- ===== src/Cli/Makes.antt =====
-- The requests that the parts of a command of src/cli/src/main.rs send.
use aardbin.Prelude.{
  Bool-cases, Bytes, List, Option, Option-cases, Text, [], arith, as_bytes, codes, false, inl, inr,
  none, not, refl, some, ℕ, ◌++◌, ◌==◌, ◌∷◌, ◌≡◌, ◌≢◌,
}
use aardbin.Http.{Method}
use aardbin.Cli.Host.{
  Action, ApiAttachmentMeta, ApiRecord, ApiRecordSummary, Failure, Host, HttpRequest, HttpResponse,
  Part, Payload, bad_body, eprint, fuel_spent, io, or_fail, write_all, write_file, write_stdout,
  ◌>>=◌,
}
use aardbin.Cli.Client.{Client, bail_error, build, execute, json, send, send_with_retry}
use aardbin.Cli.Retry.{execute_lem, send_with_retry-IsSent, signed}
use aardbin.Cli.Commands.{
  body_content, post_form, print_attachment_lines, print_attachments, print_record, print_summaries,
  read_part, read_parts, report_created, save_bytes,
}
use aardbin.Cli.Requests.{Does-none, Makes, Makes-bind, Makes-fail, Makes-if, Makes-pure}

-- a request with the headers of the client
abbrev pub asked : Client → Method → Text → Payload → HttpRequest
asked c method url payload = record {
  method = method;
  url = url;
  headers = c.default_headers;
  payload = payload;
}

-- a request as `build` gives it
abbrev pub built : Method → Text → Payload → HttpRequest
built method url payload = record { method = method; url = url; headers = []; payload = payload }

module _ {S : Type 0} (h : Host S) where
  -- A request with a multipart body cannot be cloned: the body is a stream.
  abbrev pub IsStreamed : Type 0
  IsStreamed =
      (req : HttpRequest) (parts : List Part)
      → req.payload ≡ Payload.multipart parts
      → h.try_clone req ≡ false

  module _ (P : HttpRequest → Type 0) where
    module _ {A : Type 0} where
      pub Makes-or_fail :
          {why : Failure} → why ≢ fuel_spent → (o : Option A) → Makes h P 0 (or_fail why o)
      Makes-or_fail ne none = Makes-fail h ne
      Makes-or_fail ne (some a) = Makes-pure h a

      pub Makes-json :
          (read : Bytes → Option A) (resp : HttpResponse) → Makes h P 0 (json h read resp)
      unfolding json
      Makes-json read resp = elim (Option-cases resp.body) [
        | inl broken ↦ rw (broken, json) (Makes-fail h cc)
        | inr (bytes, came) ↦ rw (came, json) (Makes-or_fail {why = bad_body} (cc) (read bytes))
      ]

      pub Makes-bail_error :
          (otherwise : Text) (resp : HttpResponse)
          → Makes h P 0 (bail_error h {T = A} otherwise resp)
      unfolding bail_error
      Makes-bail_error otherwise resp = elim (Option-cases resp.body) [
        | inl broken ↦ rw (broken, bail_error) (Makes-fail h cc)
        | inr (bytes, came) ↦ elim (Option-cases (h.read_error bytes)) [
          | inl odd ↦ rw (came, odd, bail_error) (Makes-fail h cc)
          | inr (error, read) ↦ rw (came, read, bail_error) (Makes-fail h cc)
        ]
      ]

    pub Makes-write_stdout : (bytes : Bytes) → Makes h P 0 (write_stdout bytes)
    unfolding write_stdout
    Makes-write_stdout bytes = record { does = λ p. Does-none h refl refl refl; ends = λ p. cc }

    pub Makes-eprint : (line : Text) → Makes h P 0 (eprint line)
    unfolding eprint
    Makes-eprint line = record { does = λ p. Does-none h refl refl refl; ends = λ p. cc }

    pub Makes-write_file : (path : Text) (bytes : Bytes) → Makes h P 0 (write_file h path bytes)
    unfolding write_file
    Makes-write_file path bytes = record {
      does = λ p. elim (Bool-cases (h.can_create path)) [
        | inr not ↦ rw (not, write_file) (Does-none h refl refl refl)
        | inl can ↦ elim (Option-cases (h.write_stops path)) [
          | inl whole ↦ rw (can, whole, write_file) (Does-none h refl refl refl)
          | inr (n, cut) ↦ rw (can, cut, write_file) (Does-none h refl refl refl)
        ]
      ];
      ends = λ p. ground arith;
    }

    pub Makes-write_all : (bytes : Bytes) → Makes h P 0 (write_all h bytes)
    unfolding write_all
    Makes-write_all bytes = record {
      does = λ p. elim (Option-cases (h.stdout_stops bytes)) [
        | inl whole ↦ rw (whole, write_all) (Does-none h refl refl refl)
        | inr (n, cut) ↦ rw (cut, write_all) (Does-none h refl refl refl)
      ];
      ends = λ p. ground arith;
    }

    module _ (c : Client) where
      pub Makes-execute : (req : HttpRequest) → P (signed c req) → Makes h P 1 (execute h c req)
      Makes-execute req ok = record {
        does = λ p.
            let (out, sent, server, slept) = execute_lem h c req p in
            record {
              new = signed c req ∷ [];
              few = omega arith;
              each = (ok, tt);
              sent = sent;
              server = server;
              slept = slept;
            };
        ends = λ p e. ground (
          arith,
          e,
          (execute_lem h c req p).0,
          Option-cases (h.execute (signed c req) p.server).0,
        );
      }

      pub Makes-build :
          {B : Type 0} {n : ℕ} (method : Method) (url : Text) (payload : Payload)
          (f : HttpRequest → Action S B)
          → Makes h P n (f (built method url payload))
          → Makes h P n (build h method url payload >>= f)
      unfolding build
      Makes-build method url payload f hm = record {
        does = λ p. elim (Bool-cases (h.url_ok url)) [
          | inl good ↦ rw (good, build) (hm.does p)
          | inr bad ↦ rw (bad, build) (Does-none h refl refl refl)
        ];
        ends = λ p. elim (Bool-cases (h.url_ok url)) [
          | inl good ↦ rw (good, build) (hm.ends p)
          | inr bad ↦ rw (bad, build) (λ e. cc)
        ];
      }

      pub Makes-send :
          (method : Method) (url : Text)
          → P (asked c method url Payload.empty)
          → Makes h P 1 (send h c method url)
      unfolding send
      Makes-send method url fits =
          Makes-build method url Payload.empty (execute h c)
            (Makes-execute (built method url Payload.empty) fits)

      pub Makes-post_form :
          IsStreamed
          → (parts : List Part)
          → P (asked c Method.post (c.base_url ++ codes "/api/records") (Payload.multipart parts))
          → Makes h P 1 (post_form h c parts)
      unfolding post_form
      Makes-post_form streamed parts fits =
          let req =
            built Method.post (c.base_url ++ codes "/api/records") (Payload.multipart parts) in
          Makes-build Method.post (c.base_url ++ codes "/api/records") (Payload.multipart parts)
            (send_with_retry h c)
            (record {
              does = λ p.
                  rw ((send_with_retry-IsSent h c req p).1 (streamed req parts refl))
                    ((Makes-execute req fits).does p);
              ends = λ p.
                  rw ((send_with_retry-IsSent h c req p).1 (streamed req parts refl))
                    ((Makes-execute req fits).ends p);
            })

    pub Makes-read_part : (path : Text) → Makes h P 0 (read_part h path)
    unfolding read_part
    Makes-read_part path =
        Makes-bind h (Makes-or_fail {why = io} (cc) (h.read_file path)) (λ bytes. Makes-pure h _)

    pub Makes-read_parts : (paths : List Text) → Makes h P 0 (read_parts h paths)
    unfolding read_parts
    Makes-read_parts [] = Makes-pure h []
    Makes-read_parts (path ∷ paths) =
        Makes-bind h (Makes-read_part path)
          (λ part. Makes-bind h (Makes-read_parts paths) (λ parts. Makes-pure h _))

    pub Makes-body_content : (content : Option Text) → Makes h P 0 (body_content h content)
    unfolding body_content
    Makes-body_content (some content) = Makes-pure h content
    Makes-body_content none = Makes-or_fail {why = io} (cc) h.stdin_text

    pub Makes-report_created :
        (line : Text → Text) (resp : HttpResponse) → Makes h P 0 (report_created h line resp)
    unfolding report_created
    Makes-report_created line resp =
        Makes-if h (resp.status == 201)
          (Makes-bind h (Makes-json h.read_created resp)
            (λ id. Makes-write_stdout (as_bytes (line id ++ b'\n' ∷ []))))
          (Makes-bail_error (codes "HTTP " ++ h.show_status resp.status) resp)

    pub Makes-print_summaries : (rs : List ApiRecordSummary) → Makes h P 0 (print_summaries rs)
    unfolding print_summaries
    Makes-print_summaries [] = Makes-pure h tt
    Makes-print_summaries (r ∷ rs) =
        Makes-bind h (Makes-write_stdout _) (λ done. Makes-print_summaries rs)

    pub Makes-print_attachment_lines :
        (rs : List ApiAttachmentMeta) → Makes h P 0 (print_attachment_lines rs)
    unfolding print_attachment_lines
    Makes-print_attachment_lines [] = Makes-pure h tt
    Makes-print_attachment_lines (a ∷ rest) =
        Makes-bind h (Makes-write_stdout _) (λ done. Makes-print_attachment_lines rest)

    pub Makes-print_attachments : (rs : List ApiAttachmentMeta) → Makes h P 0 (print_attachments rs)
    unfolding print_attachments
    Makes-print_attachments [] = Makes-pure h tt
    Makes-print_attachments (a ∷ rest) =
        Makes-bind h (Makes-write_stdout _) (λ done. Makes-print_attachment_lines (a ∷ rest))

    pub Makes-print_record : (r : ApiRecord) → Makes h P 0 (print_record r)
    unfolding print_record
    Makes-print_record r = Makes-bind h (Makes-write_stdout _) (λ a.
        Makes-bind h (Makes-write_stdout _) (λ b.
          Makes-bind h (Makes-print_attachments r.attachments)
            (λ c. Makes-bind h (Makes-write_stdout _) (λ d. Makes-write_stdout _))))

    pub Makes-save_bytes :
        (output : Option Text) (bytes : Bytes) → Makes h P 0 (save_bytes h output bytes)
    unfolding save_bytes
    Makes-save_bytes (some path) bytes =
        Makes-bind h (Makes-write_file path bytes) (λ done. Makes-write_stdout _)
    Makes-save_bytes none bytes = Makes-write_all bytes
