-- ===== src/Form/Untouched.antt =====
-- `parse_record_form` of src/routes.rs works on the disk alone, whatever fails.
use aardbin.Prelude.{
  Bool, Bytes, List, Option, Text, [], arith, false, if◌then◌else◌, inl, inr, length, none, some,
  true, ℕ, ◌+◌, ◌∷◌,
}
use aardbin.App.{
  Env, Result, Result-cases, World, abort_upload, begin_upload, delete_file, err, finalize_upload,
  ok, write_chunk,
}
use aardbin.App.Effects.{
  SameRest, SameRest-refl, SameRest-trans, begin_upload_lem, finalize_upload_lem,
}
use aardbin.Form.{
  Multipart, Part, PendingUpload, Progress, cleanup_uploads, field, file_field, finish_file,
  finished, give_up, invalid_field, malformed, named_file, other_field, parse_field, parse_fields,
  parse_record_form, receive, start, store_file, text_field, text_value, upload_failed,
}

SameRest-if {ℓ} :
    {A : Type ℓ} (w : World) (b : Bool) (m n : A × World)
    → SameRest w m.1
    → SameRest w n.1
    → SameRest w (if b then m else n).1
SameRest-if w true m n hm hn = hm
SameRest-if w false m n hm hn = hn

pub delete_file_rest : (id : Text) (w : World) → SameRest w (delete_file id w)
unfolding delete_file
delete_file_rest id w = ground arith

abort_upload_rest : (id : Text) (w : World) → SameRest w (abort_upload id w)
unfolding abort_upload
abort_upload_rest id w = ground arith

pub cleanup_uploads_rest : (us : List PendingUpload) (w : World) → SameRest w (cleanup_uploads us w)
unfolding cleanup_uploads
cleanup_uploads_rest [] w = SameRest-refl w
cleanup_uploads_rest (u ∷ us) w =
    SameRest-trans (delete_file_rest u.id w) (cleanup_uploads_rest us (delete_file u.id w))

write_chunk_rest : (id : Text) (chunk : Bytes) (w : World) → SameRest w (write_chunk id chunk w).1
unfolding write_chunk
write_chunk_rest id chunk w = ground arith

begin_upload_rest : (e : Env) (w : World) → SameRest w (begin_upload e w).1
begin_upload_rest e w = (begin_upload_lem e w).0

finalize_upload_rest : (id : Text) (w : World) → SameRest w (finalize_upload id w).1
finalize_upload_rest id w = (finalize_upload_lem id w).0

module _ (e : Env) where
  receive_rest :
      (id filename : Text) (size total : ℕ) (chunks : List Bytes) (broken : Bool) (w : World)
      → SameRest w (receive e id filename size total chunks broken w).1
  unfolding receive
  receive_rest id filename size total [] broken w =
      SameRest-if w broken (err upload_failed, w) (ok (size, total), w) (SameRest-refl w)
        (SameRest-refl w)
  receive_rest id filename size total (chunk ∷ chunks) broken w =
      let wrote = write_chunk_rest id chunk w in
      let more =
        receive_rest id filename (size + length chunk) (total + length chunk) chunks broken
          (write_chunk id chunk w).1 in
      ground (arith, wrote, more)

  finish_file_rest :
      (id filename : Text) (declared : Option Text) (p : Progress) (r : Result (ℕ × ℕ)) (w : World)
      → SameRest w (finish_file e id filename declared p (r, w)).1
  unfolding finish_file give_up
  finish_file_rest id filename declared p (err resp) w =
      SameRest-trans (abort_upload_rest id w) (cleanup_uploads_rest p.uploads (abort_upload id w))
  finish_file_rest id filename declared p (ok (size, total)) w =
      let moved = finalize_upload_rest id w in
      let undone =
        SameRest-trans (abort_upload_rest id (finalize_upload id w).1)
          (cleanup_uploads_rest p.uploads (abort_upload id (finalize_upload id w).1)) in
      ground (arith, moved, undone)

  store_file_rest :
      (filename : Text) (part : Part) (p : Progress) (begun : Option Text × World)
      → SameRest begun.1 (store_file e filename part p begun).1
  unfolding store_file give_up
  store_file_rest filename part p (none, w) = cleanup_uploads_rest p.uploads w
  store_file_rest filename part p (some id, w) =
      let received = receive e id filename 0 p.total_bytes part.chunks part.broken w in
      SameRest-trans (receive_rest id filename 0 p.total_bytes part.chunks part.broken w)
        (finish_file_rest id filename part.content_type p received.0 received.1)

  named_file_rest :
      (name : Option Text) (part : Part) (p : Progress) (w : World)
      → SameRest w (named_file e name part p w).1
  unfolding named_file give_up
  named_file_rest none part p w = SameRest-refl w
  named_file_rest (some []) part p w = SameRest-refl w
  named_file_rest (some (c ∷ filename)) part p w =
      let begun = begin_upload_rest e w in
      let stored = store_file_rest (c ∷ filename) part p (begin_upload e w) in
      ground (arith, cleanup_uploads_rest p.uploads w, begun, stored)

  text_field_rest :
      (is_title : Bool) (part : Part) (p : Progress) (w : World)
      → SameRest w (text_field e is_title part p w).1
  unfolding text_field text_value give_up
  text_field_rest is_title part p w = text_rest part.text
    where
      text_rest :
          (given : Option Text)
          → SameRest w
              (elim given as (λ _. Result Progress × World) [
                | none ↦ give_up p.uploads invalid_field w
                | some text ↦ text_value e is_title text p w
              ]).1
      text_rest none = cleanup_uploads_rest p.uploads w
      text_rest (some text) = ground (arith, cleanup_uploads_rest p.uploads w)

  parse_field_rest :
      (part : Part) (p : Progress) (w : World) → SameRest w (parse_field e part p w).1
  unfolding parse_field file_field other_field
  parse_field_rest part p w = ground (
    arith,
    text_field_rest true part p w,
    text_field_rest false part p w,
    named_file_rest part.file_name part p w,
  )

  parse_fields_rest :
      (form : Multipart) (p : Progress) (w : World) → SameRest w (parse_fields e form p w).1
  unfolding parse_fields give_up
  parse_fields_rest finished p w = SameRest-refl w
  parse_fields_rest malformed p w = cleanup_uploads_rest p.uploads w
  parse_fields_rest (field part rest) p w =
      let one = parse_field_rest part p w in
      elim (Result-cases (parse_field e part p w).0) [
        | inl (q, good) ↦
            rw (parse_fields, good)
              (SameRest-trans one (parse_fields_rest rest q (parse_field e part p w).1))
        | inr (resp, bad) ↦ rw (parse_fields, bad) one
      ]

  -- Whatever the form holds and whatever fails, reading it touches no table, sends no event and
  -- leaves the limiter alone.
  pub parse_record_form-SameRest :
      (form : Multipart) (content_length : Option ℕ) (w : World)
      → SameRest w (parse_record_form e form content_length w).1
  unfolding parse_record_form
  parse_record_form-SameRest form none w = parse_fields_rest form start w
  parse_record_form-SameRest form (some len) w = ground (arith, parse_fields_rest form start w)
