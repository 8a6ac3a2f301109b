-- ===== src/Cli/Silence.antt =====
-- What a command of src/cli/src/main.rs has printed and written when it fails.
use mathlib.Core.Path.{subst}
use aardbin.Prelude.{
  Bool-cases, Bytes, Option, Option-cases, Text, ap, arith, codes, if◌then◌else◌, inl, inr, none,
  refl, some, take, ℕ, ◌++◌, ◌∙◌, ◌∷◌, ◌≡◌, ◌⊎◌,
}
use aardbin.Http.{Method}
use aardbin.Cli.Host.{
  Action, Failure, Host, HttpResponse, Outcome, Process, continue, done, failed, write_all,
  write_file, write_stdout, ◌>>=◌,
}
use aardbin.Cli.Settings.{Cmd}
use aardbin.Cli.Client.{Client, bail_error, json, send}
use aardbin.Cli.Commands.{
  cmd_delete, cmd_download, cmd_get, cmd_list, cmd_paste, cmd_upload, command, created_line,
  is_success, save_bytes,
}
use aardbin.Cli.Output.{
  IsClean, IsClean-bind, IsClean-if, IsClean-of_IsTotal, IsSilent, IsSilent-trans, IsTotal-bind,
  silent,
}
use aardbin.Cli.Muted.{
  IsTotal-write_stdout, IsTotal-eprint, IsTotal-print_summaries, IsTotal-print_record, IsMute-send,
  IsMute-post_form, IsMute-json, IsMute-bail_error, IsMute-read_part, IsMute-read_parts,
  IsMute-body_content, IsClean-bail_error, IsClean-report_created,
}

module _ {S : Type 0} (h : Host S) where
  -- What a failing write leaves: the beginning of the bytes, where they were to go.
  abbrev pub IsPart : Option Text → Bytes → Process S → Process S → Type 0
  IsPart none bytes q q' =
      (n : ℕ) × (q'.stdout ≡ q.stdout ++ take n bytes) × (q'.written ≡ q.written)
  IsPart (some path) bytes q q' =
      (n : ℕ) × (q'.stdout ≡ q.stdout) × (q'.written ≡ (path, take n bytes) ∷ q.written)

  save_bytes_lem :
      (output : Option Text) (bytes : Bytes) (q : Process S) (why : Failure)
      → (save_bytes h output bytes q).0 ≡ failed why
      → IsSilent q (save_bytes h output bytes q).1
        ⊎ IsPart output bytes q (save_bytes h output bytes q).1
  unfolding save_bytes write_file write_all write_stdout
  save_bytes_lem none bytes q why e = elim (Option-cases (h.stdout_stops bytes)) [
    | inl whole ↦ absurd (ground (arith, e, whole))
    | inr (n, short) ↦ rw (short, write_all) (inr (n, refl, refl))
  ]
  save_bytes_lem (some path) bytes q why e = elim (Bool-cases (h.can_create path)) [
    | inr shut ↦ rw (shut, write_file) (inl (silent q))
    | inl can ↦ elim (Option-cases (h.write_stops path)) [
      | inl whole ↦ absurd (ground (arith, e, can, whole))
      | inr (n, short) ↦ rw (can, short, write_file) (inr (n, refl, refl))
    ]
  ]

  -- A download that is cut short, of the bytes that the server has answered with.
  pub record IsCutShort (c : Client) (cmd : Cmd) (p p' : Process S) : Type 0 where
    pub id : Text
    pub output : Option Text
    pub asked : cmd ≡ Cmd.download id output
    pub resp : HttpResponse
    pub bytes : Bytes
    pub came :
        (send h c Method.get (c.base_url ++ (codes "/api/attachments/" ++ id)) p).0 ≡ done resp
    pub body : resp.body ≡ some bytes
    pub part : IsPart output bytes p p'

  command-IsClean :
      (c : Client) (cmd : Cmd)
      → ((id : Text) (output : Option Text) → ¬ (cmd ≡ Cmd.download id output))
      → IsClean (command h c cmd)
  unfolding command cmd_paste cmd_list cmd_get cmd_delete cmd_upload
  command-IsClean c (Cmd.paste title content files) never =
      IsClean-bind _ (IsMute-body_content h content) (λ body.
        IsClean-bind _ (IsMute-read_parts h files) (λ parts.
          IsClean-bind _ (IsMute-post_form h c _)
            (λ resp. IsClean-report_created h (λ id. id) resp)))
  command-IsClean c (Cmd.list page page_size) never = IsClean-bind _ (IsMute-send h c _ _) (λ resp.
      IsClean-if (is_success resp)
        (IsClean-bind _ (IsMute-json h h.read_list resp) (λ found.
          IsClean-of_IsTotal
            (IsTotal-bind _ (IsTotal-print_summaries found.records) (λ printed. IsTotal-eprint _))))
        (IsClean-bail_error h _ resp))
  command-IsClean c (Cmd.get id) never = IsClean-bind _ (IsMute-send h c _ _) (λ resp.
      IsClean-if (is_success resp)
        (IsClean-bind _ (IsMute-json h h.read_record resp)
          (λ found. IsClean-of_IsTotal (IsTotal-print_record found)))
        (IsClean-bail_error h _ resp))
  command-IsClean c (Cmd.delete id) never = IsClean-bind _ (IsMute-send h c _ _) (λ resp.
      IsClean-if (is_success resp) (IsClean-of_IsTotal (IsTotal-write_stdout _))
        (IsClean-bail_error h _ resp))
  command-IsClean c (Cmd.upload id path) never = IsClean-bind _ (IsMute-send h c _ _) (λ resp.
      IsClean-if (is_success resp)
        (IsClean-bind _ (IsMute-json h h.read_record resp) (λ found.
          IsClean-bind _ (IsMute-read_part h path) (λ part.
            IsClean-bind _ (IsMute-post_form h c _)
              (λ created. IsClean-report_created h created_line created))))
        (IsClean-bail_error h _ resp))
  command-IsClean c (Cmd.download id output) never = absurd (never id output refl)

  IsPart-from :
      (output : Option Text) (bytes : Bytes) (p q r : Process S)
      → IsSilent p q
      → IsPart output bytes q r
      → IsPart output bytes p r
  IsPart-from none bytes p q r quiet (n, out, files) =
      (n, out ∙ ap (λ o. o ++ take n bytes) quiet.stdout, files ∙ quiet.written)
  IsPart-from (some path) bytes p q r quiet (n, out, files) =
      (n, out ∙ quiet.stdout, files ∙ ap (λ f. (path, take n bytes) ∷ f) quiet.written)

  -- what `cmd_download` does with the response
  abbrev then_save : Option Text → HttpResponse → Action S (Unit {0})
  then_save output resp =
      if is_success resp
      then (json h some resp >>= λ bytes. save_bytes h output bytes)
      else bail_error h (codes "attachment not found") resp

  then_save_lem :
      (output : Option Text) (resp : HttpResponse) (q : Process S) (why : Failure)
      → (then_save output resp q).0 ≡ failed why
      → IsSilent q (then_save output resp q).1
        ⊎ ((bytes : Bytes) × (resp.body ≡ some bytes)
            × IsPart output bytes q (then_save output resp q).1)
  unfolding json
  then_save_lem output resp q why e = elim (Bool-cases (is_success resp)) [
    | inr bad ↦ rw bad (inl ((IsMute-bail_error h (codes "attachment not found") resp).at q))
    | inl good ↦ elim (Option-cases resp.body) [
      | inl broken ↦ rw (good, broken) (inl (silent q))
      | inr (bytes, came) ↦ elim (save_bytes_lem output bytes q why (rw (good, came) at e)) [
        | inl quiet ↦ rw (good, came) (inl quiet)
        | inr part ↦ rw (good, came) (inr (bytes, refl, part))
      ]
    ]
  ]

  download_lem :
      (c : Client) (id : Text) (output : Option Text) (p : Process S) (why : Failure)
      → (cmd_download h c id output p).0 ≡ failed why
      → IsSilent p (cmd_download h c id output p).1
        ⊎ IsCutShort c (Cmd.download id output) p (cmd_download h c id output p).1
  unfolding cmd_download
  download_lem c id output p why e =
      let url = c.base_url ++ (codes "/api/attachments/" ++ id) in
      sent (send h c Method.get url p) refl e
    where
      sent :
          (r : Outcome HttpResponse × Process S)
          → send h c Method.get (c.base_url ++ (codes "/api/attachments/" ++ id)) p ≡ r
          → (continue r (then_save output)).0 ≡ failed why
          → IsSilent p (continue r (then_save output)).1
            ⊎ IsCutShort c (Cmd.download id output) p (continue r (then_save output)).1
      sent (failed no_answer, q) came e' =
          inl (subst (λ x. IsSilent p x.1) came ((IsMute-send h c _ _).at p))
      sent (done resp, q) came e' =
          let quiet : IsSilent p q =
            subst (λ x. IsSilent p x.1) came
              ((IsMute-send h c Method.get (c.base_url ++ (codes "/api/attachments/" ++ id))).at
                p) in
          elim (then_save_lem output resp q why e') [
            | inl still ↦ inl (IsSilent-trans quiet still)
            | inr (bytes, body, part) ↦ inr (record {
              id = id;
              output = output;
              asked = refl;
              resp = resp;
              bytes = bytes;
              came = ap (λ x. x.0) came;
              body = body;
              part = IsPart-from output bytes p q _ quiet part;
            })
          ]

-- A command that fails, for whatever reason, has printed nothing to the standard output and has
-- written no file, however many requests it had sent by then, with one exception: a `download` whose
-- own writing fails may leave the beginning of the attachment that the server has answered with, in
-- the file or on the standard output, and no more. The lines of `println!` are taken to be printed.
pub command-IsSilent :
    {S : Type 0} (h : Host S) (c : Client) (cmd : Cmd) (p : Process S) (why : Failure)
    → (command h c cmd p).0 ≡ failed why
    → IsSilent p (command h c cmd p).1 ⊎ IsCutShort h c cmd p (command h c cmd p).1
unfolding command
command-IsSilent h c (Cmd.paste title content files) p why e =
    inl ((command-IsClean h c (Cmd.paste title content files) (λ id out k. cc k)).at p why e)
command-IsSilent h c (Cmd.list page page_size) p why e =
    inl ((command-IsClean h c (Cmd.list page page_size) (λ id out k. cc k)).at p why e)
command-IsSilent h c (Cmd.get id) p why e =
    inl ((command-IsClean h c (Cmd.get id) (λ i out k. cc k)).at p why e)
command-IsSilent h c (Cmd.delete id) p why e =
    inl ((command-IsClean h c (Cmd.delete id) (λ i out k. cc k)).at p why e)
command-IsSilent h c (Cmd.upload id path) p why e =
    inl ((command-IsClean h c (Cmd.upload id path) (λ i out k. cc k)).at p why e)
command-IsSilent h c (Cmd.download id output) p why e = download_lem h c id output p why e
