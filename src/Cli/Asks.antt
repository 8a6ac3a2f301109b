-- ===== src/Cli/Asks.antt =====
-- The requests that a whole command of src/cli/src/main.rs sends.
use aardbin.Prelude.{List, Text, arith, codes, inl, inr, refl, some, ℕ, ◌++◌, ◌≡◌, ◌≢◌, ◌⊎◌}
use aardbin.Http.{Method}
use aardbin.Cli.Host.{Host, HttpRequest, Part, Payload, Process, failed, fuel_spent}
use aardbin.Cli.Settings.{Cmd}
use aardbin.Cli.Client.{Client}
use aardbin.Cli.Commands.{
  cmd_delete, cmd_download, cmd_get, cmd_list, cmd_paste, cmd_upload, command, created_line,
  is_success, list_url, record_url,
}
use aardbin.Cli.Requests.{Does, Makes, Makes-bind, Makes-if, Makes-weaken}
use aardbin.Cli.Makes.{
  IsStreamed, Makes-bail_error, Makes-body_content, Makes-eprint, Makes-json, Makes-post_form,
  Makes-print_record, Makes-print_summaries, Makes-read_part, Makes-read_parts,
  Makes-report_created, Makes-save_bytes, Makes-send, Makes-write_stdout,
}

-- A request with the client's headers and no body, or with a body.
abbrev IsBare : Client → Method → Text → HttpRequest → Type 0
IsBare c method url req =
    (req.method ≡ method)
    × (req.url ≡ url)
    × (req.headers ≡ c.default_headers)
    × (req.payload ≡ Payload.empty)

abbrev IsForm : Client → HttpRequest → Type 0
IsForm c req =
    (req.method ≡ Method.post)
    × (req.url ≡ c.base_url ++ codes "/api/records")
    × (req.headers ≡ c.default_headers)
    × ((parts : List Part) × (req.payload ≡ Payload.multipart parts))

module _ {S : Type 0} (h : Host S) where
  -- What a command may ask of the server.
  abbrev pub Allowed : Client → Cmd → HttpRequest → Type 0
  Allowed c (Cmd.paste title content files) req = IsForm c req
  Allowed c (Cmd.list page page_size) req = IsBare c Method.get (list_url c page page_size) req
  Allowed c (Cmd.get id) req = IsBare c Method.get (record_url c id) req
  Allowed c (Cmd.delete id) req = IsBare c Method.delete (record_url c id) req
  Allowed c (Cmd.upload id path) req = IsBare c Method.get (record_url c id) req ⊎ IsForm c req
  Allowed c (Cmd.download id output) req =
      IsBare c Method.get (c.base_url ++ (codes "/api/attachments/" ++ id)) req

  abbrev pub most : Cmd → ℕ
  most (Cmd.upload id path) = 2
  most _ = 1

  command-Makes :
      IsStreamed h → (c : Client) (cmd : Cmd) → Makes h (Allowed c cmd) (most cmd) (command h c cmd)
  unfolding command cmd_paste cmd_list cmd_get cmd_delete cmd_upload cmd_download
  command-Makes streamed c (Cmd.paste title content files) =
      Makes-bind h (Makes-body_content h _ content) (λ body.
        Makes-bind h (Makes-read_parts h _ files) (λ parts.
          Makes-bind h (Makes-post_form h _ c streamed _ (refl, refl, refl, (_, refl)))
            (λ resp. Makes-report_created h _ (λ id. id) resp)))
  command-Makes streamed c (Cmd.list page page_size) =
      Makes-bind h (Makes-send h _ c Method.get _ (refl, refl, refl, refl)) (λ resp.
        Makes-if h (is_success resp)
          (Makes-bind h (Makes-json h _ h.read_list resp) (λ found.
            Makes-bind h (Makes-print_summaries h _ found.records) (λ printed. Makes-eprint h _ _)))
          (Makes-bail_error h _ _ resp))
  command-Makes streamed c (Cmd.get id) =
      Makes-bind h (Makes-send h _ c Method.get _ (refl, refl, refl, refl)) (λ resp.
        Makes-if h (is_success resp)
          (Makes-bind h (Makes-json h _ h.read_record resp) (λ found. Makes-print_record h _ found))
          (Makes-bail_error h _ _ resp))
  command-Makes streamed c (Cmd.delete id) =
      Makes-bind h (Makes-send h _ c Method.delete _ (refl, refl, refl, refl)) (λ resp.
        Makes-if h (is_success resp) (Makes-write_stdout h _ _) (Makes-bail_error h _ _ resp))
  command-Makes streamed c (Cmd.upload id path) =
      Makes-bind h (Makes-send h _ c Method.get _ (inl (refl, refl, refl, refl))) (λ resp.
        Makes-if h (is_success resp)
          (Makes-bind h (Makes-json h _ h.read_record resp) (λ found.
            Makes-bind h (Makes-read_part h _ path) (λ part.
              Makes-bind h (Makes-post_form h _ c streamed _ (inr (refl, refl, refl, (_, refl))))
                (λ created. Makes-report_created h _ created_line created))))
          (Makes-weaken h (omega arith) (Makes-bail_error h _ _ resp)))
  command-Makes streamed c (Cmd.download id output) =
      Makes-bind h (Makes-send h _ c Method.get _ (refl, refl, refl, refl)) (λ resp.
        Makes-if h (is_success resp)
          (Makes-bind h (Makes-json h _ some resp) (λ bytes. Makes-save_bytes h _ output bytes))
          (Makes-bail_error h _ _ resp))

-- Where a multipart request cannot be cloned, no command waits or sends a request again. The
-- requests that it sends, at most two for an upload and at most one for any other command, carry
-- the client's headers, go to the paths of the API, and are those of the command: only `delete`
-- deletes, and that record alone; `paste` and `upload` create by a form; all else reads. The server
-- has answered these requests and no other, and the loop of `send_with_retry` has come to its end.
pub command-Does :
    {S : Type 0} (h : Host S)
    → IsStreamed h
    → (c : Client) (cmd : Cmd) (p : Process S)
    → Does h (Allowed h c cmd) (most h cmd) p (command h c cmd p).1
      × ((command h c cmd p).0 ≢ failed fuel_spent)
command-Does h streamed c cmd p = let m = command-Makes h streamed c cmd in (m.does p, m.ends p)
