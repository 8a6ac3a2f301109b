-- ===== src/Form/Tests.antt =====
-- Two forms of src/routes.rs, one accepted and one refused, and the theorems at them.
use aardbin.Prelude.{[], as_bytes, codes, none, refl, some, utf8_char, ◌∷◌, ◌≡◌}
use aardbin.Prelude.Dict.{find, put, remove}
use aardbin.Files.{append_tmp, create_tmp, guess_mime, rename_tmp}
use aardbin.Render.{truncate_chars}
use aardbin.App.{begin_upload, err, finalize_upload, write_chunk}
use aardbin.Form.{
  file_field, file_too_large, finish_file, give_up, named_file, parse_field, parse_fields,
  parse_record_form, receive, store_file, text_field, text_value,
}
use aardbin.Form.States.{IsRestored}
use aardbin.Form.Atomic.{parse_record_form_atomic}
use aardbin.Fixtures.{large_form, server, small_form, store, store-IsFresh}

stores_bytes :
    find (1000 ∷ []) (parse_record_form server small_form none store).1.disk.stored
    ≡ some (1 ∷ 2 ∷ 3 ∷ [])
unfolding parse_record_form parse_fields parse_field text_field text_value file_field named_file
    store_file finish_file receive begin_upload write_chunk finalize_upload truncate_chars as_bytes
    utf8_char guess_mime find put remove create_tmp append_tmp rename_tmp
stores_bytes = refl

refuses :
    (parse_record_form server large_form none store).0 ≡ err (file_too_large (codes "f.bin") 10)
unfolding parse_record_form parse_fields parse_field text_field text_value file_field named_file
    store_file finish_file receive begin_upload write_chunk finalize_upload truncate_chars as_bytes
    utf8_char give_up
refuses = refl

parse_record_form_atomic_example :
    IsRestored store (parse_record_form server large_form none store).1
parse_record_form_atomic_example =
    (parse_record_form_atomic server store large_form none store-IsFresh refl).0
      (file_too_large (codes "f.bin") 10) refuses
