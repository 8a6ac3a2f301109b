-- ===== src/Form/Fields.antt =====
-- `parse_record_form` of src/routes.rs on a form that its page sends: a title, a content and files.
use mathlib.Core.Path.{subst, sym}
use aardbin.Prelude.{
  Bool-cases, List, Option, Text, [], ap, append-nil, append_assoc, arith, codes, inl, inr, ltb,
  none, refl, some, trim, ℕ, ◌++◌, ◌+◌, ◌∙◌, ◌∷◌, ◌≡◌,
}
use aardbin.Render.{truncate_chars}
use aardbin.App.{Env, Result, Result-cases, World, begin_upload, err, finalize_upload, ok}
use aardbin.Config.{max_attachments_per_record}
use aardbin.Form.{
  Multipart, ParsedRecordForm, parse_record_form, start, Part, PendingUpload, Progress, field,
  file_field, finish_file, finished, give_up, malformed, named_file, parse_field, parse_fields,
  store_file, text_field, text_value, uploaded,
}
use aardbin.Form.Texts.{text_arrived}

-- Fields named `files`, with or without a file, and then the end or an error.
abbrev pub AllFiles : Multipart → Type 0
AllFiles finished = Unit
AllFiles malformed = Unit
AllFiles (field part more) = (part.name ≡ some (codes "files")) × AllFiles more

-- A field without a file name, or with an empty one, has no file.
abbrev pub named : Option Text → List Text
named none = []
named (some []) = []
named (some (c ∷ name)) = (c ∷ name) ∷ []

abbrev pub file_names : Multipart → List Text
file_names finished = []
file_names malformed = []
file_names (field part more) = named part.file_name ++ file_names more

abbrev pub upload_names : List PendingUpload → List Text
upload_names [] = []
upload_names (u ∷ us) = u.original_filename ∷ upload_names us

abbrev pub page_form : Text → Text → Multipart → Multipart
page_form title content files =
    field (text_arrived (codes "title") title)
      (field (text_arrived (codes "content") content) files)

upload_names-append :
    (us : List PendingUpload) (u : PendingUpload)
    → upload_names (us ++ u ∷ []) ≡ upload_names us ++ u.original_filename ∷ []
upload_names-append [] u = refl
upload_names-append (v ∷ us) u = ap (λ ns. v.original_filename ∷ ns) (upload_names-append us u)

-- The files have been added to what there was, and the texts are as they were.
record Adds (names : List Text) (p q : Progress) : Type 0 where
  title : q.title ≡ p.title
  content : q.content ≡ p.content
  uploads : upload_names q.uploads ≡ upload_names p.uploads ++ names

Adds-trans : {a b : List Text} {p q r : Progress} → Adds a p q → Adds b q r → Adds (a ++ b) p r
Adds-trans {a = a} {b = b} {p = p} x y = record {
  title = y.title ∙ x.title;
  content = y.content ∙ x.content;
  uploads = y.uploads ∙ ap (λ l. l ++ b) x.uploads ∙ append_assoc (upload_names p.uploads) a b;
}

module _ (e : Env) where
  finish_file-Adds :
      (id filename : Text) (declared : Option Text) (p q : Progress) (r : Result (ℕ × ℕ) × World)
      → (finish_file e id filename declared p r).0 ≡ ok q
      → Adds (filename ∷ []) p q
  unfolding finish_file give_up
  finish_file-Adds id filename declared p q (err resp, w) h = absurd (cc h)
  finish_file-Adds id filename declared p q (ok (size, total), w) h =
      elim (Bool-cases (finalize_upload id w).0) [
        | inr bad ↦ absurd (ground (arith, h, bad))
        | inl good ↦
            let same : uploaded e id filename declared size total p ≡ q = ground (arith, h, good) in
            subst (Adds (filename ∷ []) p) same
              (record { title = refl; content = refl; uploads = upload_names-append p.uploads _ })
      ]

  store_file-Adds :
      (filename : Text) (part : Part) (p q : Progress) (r : Option Text × World)
      → (store_file e filename part p r).0 ≡ ok q
      → Adds (filename ∷ []) p q
  unfolding store_file give_up
  store_file-Adds filename part p q (none, w) h = absurd (cc h)
  store_file-Adds filename part p q (some id, w) h =
      finish_file-Adds id filename part.content_type p q _ h

  no_file : (p q : Progress) (w : World) → p ≡ q → Adds [] p q
  no_file p q w same =
      subst (Adds [] p) same (record {
        title = refl;
        content = refl;
        uploads = sym (append-nil (upload_names p.uploads));
      })

  named_file-Adds :
      (name : Option Text) (part : Part) (p q : Progress) (w : World)
      → (named_file e name part p w).0 ≡ ok q
      → Adds (named name) p q
  unfolding named_file give_up
  named_file-Adds none part p q w h = no_file p q w (cc h)
  named_file-Adds (some []) part p q w h = no_file p q w (cc h)
  named_file-Adds (some (c ∷ name)) part p q w h =
      elim (Bool-cases (ltb max_attachments_per_record (p.attachment_count + 1))) [
        | inl many ↦ absurd (ground (arith, h, many))
        | inr few ↦
            store_file-Adds (c ∷ name) part p q (begin_upload e w) (rw (few, named_file) at h)
      ]

  parse_field-Adds :
      (part : Part) (p q : Progress) (w : World)
      → part.name ≡ some (codes "files")
      → (parse_field e part p w).0 ≡ ok q
      → Adds (named part.file_name) p q
  unfolding parse_field file_field
  parse_field-Adds part p q w name h =
      named_file-Adds part.file_name part p q w (ground (arith, h, name))

  -- what the fields make of the progress so far
  pub record Reads (p : Progress) (names : List Text) (f : ParsedRecordForm) : Type 0 where
    pub title : f.title ≡ p.title
    pub content : f.content ≡ p.content
    pub uploads : upload_names f.uploads ≡ upload_names p.uploads ++ names

  parse_fields-Reads :
      (files : Multipart) (p : Progress) (w : World) (f : ParsedRecordForm)
      → AllFiles files
      → (parse_fields e files p w).0 ≡ ok f
      → Reads p (file_names files) f
  unfolding parse_fields give_up
  parse_fields-Reads finished p w f all h =
      subst (Reads p []) (cc h) (record {
        title = refl;
        content = refl;
        uploads = sym (append-nil (upload_names p.uploads));
      })
  parse_fields-Reads malformed p w f all h = absurd (cc h)
  parse_fields-Reads (field part more) p w f (name, all) h =
      elim (Result-cases (parse_field e part p w).0) [
        | inr (resp, bad) ↦ absurd (ground (arith, h, bad))
        | inl (q, good) ↦
            let one = parse_field-Adds part p q w name good in
            let rest_read =
              parse_fields-Reads more q (parse_field e part p w).1 f all
                (rw (good, parse_fields) at h) in
            record {
              title = rest_read.title ∙ one.title;
              content = rest_read.content ∙ one.content;
              uploads =
                  rest_read.uploads
                  ∙ ap (λ l. l ++ file_names more) one.uploads
                  ∙ append_assoc (upload_names p.uploads) (named part.file_name) (file_names more);
            }
      ]

  -- A form of a title, a content and files that is accepted has that title, trimmed and cut, that
  -- content, and an upload of the name of each file, in their order.
  pub record IsRead (title content : Text) (files : Multipart) (f : ParsedRecordForm) : Type 0 where
    pub title_read : f.title ≡ truncate_chars (trim title) 200
    pub content_read : f.content ≡ content
    pub names_read : upload_names f.uploads ≡ file_names files

  titled :
      (title : Text) (p q : Progress) (w : World)
      → (parse_field e (text_arrived (codes "title") title) p w).0 ≡ ok q
      → (q.title ≡ truncate_chars (trim title) 200) × (q.uploads ≡ p.uploads)
  unfolding parse_field text_field text_value give_up
  titled title p q w h = ground (arith, h)

  filled :
      (content : Text) (p q : Progress) (w : World)
      → (parse_field e (text_arrived (codes "content") content) p w).0 ≡ ok q
      → (q.title ≡ p.title) × (q.content ≡ content) × (q.uploads ≡ p.uploads)
  unfolding parse_field text_field text_value give_up
  filled content p q w h = ground (arith, h)

  page_fields :
      (title content : Text) (files : Multipart) (w : World) (f : ParsedRecordForm)
      → AllFiles files
      → (parse_fields e (page_form title content files) start w).0 ≡ ok f
      → IsRead title content files f
  unfolding parse_fields
  page_fields title content files w f all h =
      let head = parse_field e (text_arrived (codes "title") title) start w in
      elim (Result-cases head.0) [
        | inr (resp, bad) ↦ absurd (ground (arith, h, bad))
        | inl (p, good) ↦
            let h' = rw (good, parse_fields) at h in
            let next = parse_field e (text_arrived (codes "content") content) p head.1 in
            elim (Result-cases next.0) [
              | inr (resp, bad) ↦ absurd (ground (arith, h', bad))
              | inl (q, fine) ↦
                  let (title_in, none_yet) = titled title start p w good in
                  let (title_kept, content_in, none_more) = filled content p q head.1 fine in
                  let r = parse_fields-Reads files q next.1 f all (rw (fine, parse_fields) at h') in
                  record {
                    title_read = r.title ∙ title_kept ∙ title_in;
                    content_read = r.content ∙ content_in;
                    names_read =
                        r.uploads
                        ∙ ap (λ us. upload_names us ++ file_names files) (none_more ∙ none_yet);
                  }
            ]
      ]

  pub page_form-IsRead :
      (title content : Text) (files : Multipart) (announced : Option ℕ) (w : World)
      (f : ParsedRecordForm)
      → AllFiles files
      → (parse_record_form e (page_form title content files) announced w).0 ≡ ok f
      → IsRead title content files f
  unfolding parse_record_form
  page_form-IsRead title content files none w f all h = page_fields title content files w f all h
  page_form-IsRead title content files (some n) w f all h =
      elim (Bool-cases (ltb e.cfg.max_request_bytes n)) [
        | inl over ↦ absurd (ground (arith, h, over))
        | inr within ↦ page_fields title content files w f all (rw within at h)
      ]
