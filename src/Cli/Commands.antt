-- ===== src/Cli/Commands.antt =====
-- The commands of src/cli/src/main.rs and its `main`.
use aardbin.Prelude.{
  Bool, Bytes, List, Option, Text, [], codes, if◌then◌else◌, keep, length, leb, ltb, none, not,
  some, split, text_eq, ℤ, pos, negsuc, ◌&&◌, ◌++◌, ◌+◌, ◌==◌, ◌∷◌,
}
use aardbin.Prelude.Decimal.{show_u64}
use aardbin.Http.{Method}
use aardbin.Cli.Host.{
  Action, ApiAttachmentMeta, ApiRecord, ApiRecordSummary, Host, HttpResponse, Part, Payload,
  eprintln, file, io, or_fail, println, pure, text, write_all, write_file, ◌>>=◌, ◌>>◌,
}
use aardbin.Cli.Settings.{Cli, Cmd, resolve_key, resolve_url}
use aardbin.Cli.Client.{Client, bail_error, build, json, new, send, send_with_retry}

-- `Display` of an `i64`
unfoldable pub show_i64 : ℤ → Text
show_i64 (pos n) = show_u64 n
show_i64 (negsuc n) = b'-' ∷ show_u64 (n + 1)

-- the components of a path that are names, or `..`
abbrev pub is_component : Text → Bool
is_component part = not (text_eq part []) && not (text_eq part (codes "."))

abbrev pub last_of : Text → List Text → Text
last_of found [] = found
last_of found (part ∷ parts) = last_of part parts

-- `file_name().unwrap_or_default()`
unfoldable pub file_name : Text → Text
file_name path =
    let last = last_of [] (keep is_component (split b'/' path)) in
    if text_eq last (codes "..") then [] else last

-- `is_success`
abbrev pub is_success : HttpResponse → Bool
is_success resp = leb 200 resp.status && ltb resp.status 300

abbrev pub or_default : Option Text → Text
or_default none = []
or_default (some s) = s

unfoldable pub list_url : Client → ℤ → Option ℤ → Text
list_url c page none = c.base_url ++ (codes "/api/records?page=" ++ show_i64 page)
list_url c page (some page_size) =
    c.base_url
    ++ (codes "/api/records?page="
        ++ (show_i64 page ++ (codes "&page_size=" ++ show_i64 page_size)))

unfoldable pub summary_line : ApiRecordSummary → Text
summary_line r =
    r.id
    ++ (codes "  "
        ++ ((if r.untitled then codes "(untitled)" else r.title)
            ++ ((if ltb 0 r.attachment_count
                  then codes " 📎×" ++ show_u64 r.attachment_count
                  else [])
                ++ (codes "  " ++ r.snippet))))

abbrev pub record_url : Client → Text → Text
record_url c id = c.base_url ++ (codes "/api/records/" ++ id)

unfoldable pub attachment_line : ApiAttachmentMeta → Text
attachment_line a =
    codes "  "
    ++ (a.id
        ++ (codes " (" ++ (show_i64 a.size_bytes ++ (codes " bytes) — " ++ a.original_filename))))

abbrev pub created_line : Text → Text
created_line id =
    codes "Created new record "
    ++ (id ++ codes " with attachment (API does not support adding to existing record)")

module _ {S : Type 0} where
  unfoldable pub print_summaries : List ApiRecordSummary → Action S (Unit {0})
  unfolding summary_line
  print_summaries [] = pure tt
  print_summaries (r ∷ rs) = do println (summary_line r); print_summaries rs

  unfoldable pub print_attachment_lines : List ApiAttachmentMeta → Action S (Unit {0})
  unfolding attachment_line
  print_attachment_lines [] = pure tt
  print_attachment_lines (a ∷ rest) = do println (attachment_line a); print_attachment_lines rest

  unfoldable pub print_attachments : List ApiAttachmentMeta → Action S (Unit {0})
  unfolding print_attachment_lines
  print_attachments [] = pure tt
  print_attachments (a ∷ rest) = do
    println (codes "Attachments:")
    print_attachment_lines (a ∷ rest)

  unfoldable pub print_record : ApiRecord → Action S (Unit {0})
  unfolding print_attachments
  print_record r = do
    println (if r.untitled then codes "(untitled)" else codes "Title: " ++ r.title)
    println (codes "Updated: " ++ show_i64 r.updated_at)
    print_attachments r.attachments
    println (codes "---")
    println r.content

module _ {S : Type 0} (h : Host S) where
  unfoldable pub read_part : Text → Action S Part
  read_part path = do
    bytes ← or_fail io (h.read_file path)
    pure (file (codes "files") (file_name path) bytes)

  unfoldable pub read_parts : List Text → Action S (List Part)
  unfolding read_part
  read_parts [] = pure []
  read_parts (path ∷ paths) = do
    part ← read_part path
    parts ← read_parts paths
    pure (part ∷ parts)

  unfoldable pub body_content : Option Text → Action S Text
  body_content (some content) = pure content
  body_content none = or_fail io h.stdin_text

  -- the end of `cmd_paste` and of `cmd_upload`
  unfoldable pub report_created : (Text → Text) → HttpResponse → Action S (Unit {0})
  unfolding json bail_error
  report_created line resp =
      if resp.status == 201
      then (do id ← json h h.read_created resp; println (line id))
      else bail_error h (codes "HTTP " ++ h.show_status resp.status) resp

  unfoldable pub post_form : Client → List Part → Action S HttpResponse
  unfolding build send_with_retry
  post_form c parts = do
    req ← build h Method.post (c.base_url ++ codes "/api/records") (Payload.multipart parts)
    send_with_retry h c req

  unfoldable pub cmd_paste : Client → Option Text → Option Text → List Text → Action S (Unit {0})
  unfolding body_content read_parts post_form report_created
  cmd_paste c title content files = do
    body ← body_content content
    parts ← read_parts files
    resp ←
        post_form c (text (codes "title") (or_default title) ∷ text (codes "content") body ∷ parts)
    report_created (λ id. id) resp

  unfoldable pub cmd_list : Client → ℤ → Option ℤ → Action S (Unit {0})
  unfolding list_url send json bail_error print_summaries
  cmd_list c page page_size = do
    resp ← send h c Method.get (list_url c page page_size)
    if is_success resp
        then (do
          found ← json h h.read_list resp
          print_summaries found.records
          eprintln (
              codes "Page "
              ++ (show_i64 found.page
                  ++ (codes "/"
                      ++ (show_i64 found.total_pages
                          ++ (codes " · " ++ (show_i64 found.total ++ codes " records")))))))
        else bail_error h (codes "request failed") resp

  unfoldable pub cmd_get : Client → Text → Action S (Unit {0})
  unfolding send json bail_error print_record
  cmd_get c id = do
    resp ← send h c Method.get (record_url c id)
    if is_success resp
        then (do found ← json h h.read_record resp; print_record found)
        else bail_error h (codes "request failed") resp

  unfoldable pub cmd_delete : Client → Text → Action S (Unit {0})
  unfolding send bail_error
  cmd_delete c id = do
    resp ← send h c Method.delete (record_url c id)
    if is_success resp
        then println (codes "Deleted " ++ id)
        else bail_error h (codes "request failed") resp

  unfoldable pub cmd_upload : Client → Text → Text → Action S (Unit {0})
  unfolding send json bail_error read_part post_form report_created
  cmd_upload c record_id path = do
    resp ← send h c Method.get (record_url c record_id)
    if is_success resp
        then (do
          found ← json h h.read_record resp
          part ← read_part path
          created ←
              post_form c (
                text (codes "title") found.title ∷ text (codes "content") found.content ∷ part ∷ [])
          report_created created_line created)
        else bail_error h (codes "record not found") resp

  unfoldable pub save_bytes : Option Text → Bytes → Action S (Unit {0})
  save_bytes (some path) bytes = do
    write_file h path bytes
    println (codes "Saved " ++ (show_u64 (length bytes) ++ (codes " bytes to " ++ path)))
  save_bytes none bytes = write_all h bytes

  unfoldable pub cmd_download : Client → Text → Option Text → Action S (Unit {0})
  unfolding send json bail_error save_bytes
  cmd_download c id output = do
    resp ← send h c Method.get (c.base_url ++ (codes "/api/attachments/" ++ id))
    if is_success resp
        then (do bytes ← json h some resp; save_bytes output bytes)
        else bail_error h (codes "attachment not found") resp

  unfoldable pub command : Client → Cmd → Action S (Unit {0})
  unfolding cmd_paste cmd_list cmd_get cmd_delete cmd_upload cmd_download
  command c (Cmd.paste title content files) = cmd_paste c title content files
  command c (Cmd.list page page_size) = cmd_list c page page_size
  command c (Cmd.get id) = cmd_get c id
  command c (Cmd.delete id) = cmd_delete c id
  command c (Cmd.upload record_id path) = cmd_upload c record_id path
  command c (Cmd.download id output) = cmd_download c id output

  -- `main`, after `Cli::parse`
  unfoldable pub main : Cli → Action S (Unit {0})
  unfolding resolve_url resolve_key new command
  main cli = do
    access_key ← resolve_key h cli.key
    c ← new h (resolve_url h cli.url) access_key
    command c cli.cmd
