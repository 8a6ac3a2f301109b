-- ===== src/Form/Texts.antt =====
-- `parse_record_form` of src/routes.rs on a form of two texts.
use aardbin.Prelude.{
  Option, Text, [], ap, arith, as_bytes, codes, false, length, ltb, none, some, trim, true, ℕ, ◌+◌,
  ◌∙◌, ◌≡◌, ◌≤◌,
}
use aardbin.Render.{truncate_chars}
use aardbin.App.{Env, World, err, ok}
use aardbin.Form.{
  Multipart, ParsedRecordForm, Part, Progress, field, finished, parse_field, parse_fields,
  parse_record_form, start, text_field, text_value,
}

-- a part with a name and a text, and no file name
abbrev pub text_arrived : Text → Text → Part
text_arrived name value = record {
  name = some name;
  file_name = none;
  content_type = none;
  text = some value;
  chunks = [];
  broken = false;
}

abbrev pub text_form : Text → Text → Multipart
text_form title content =
    field (text_arrived (codes "title") title)
      (field (text_arrived (codes "content") content) finished)

module _ (e : Env) where
  -- The limits that the form has to keep.
  pub record Fits (title content : Text) (length_header : Option ℕ) : Type 0 where
    pub whole : length (as_bytes title) + length (as_bytes content) ≤ e.cfg.max_request_bytes
    pub text : length (as_bytes content) ≤ e.cfg.max_content_bytes
    pub announced : (n : ℕ) → length_header ≡ some n → n ≤ e.cfg.max_request_bytes

  abbrev pub parsed : Text → Text → ParsedRecordForm
  parsed title content = record {
    title = truncate_chars (trim title) 200;
    content = content;
    uploads = [];
  }

  abbrev titled : Text → Progress
  titled title = record start {
    title = truncate_chars (trim title) 200;
    total_bytes = 0 + length (as_bytes title);
  }

  abbrev filled : Text → Text → Progress
  filled title content = record (titled title) {
    content = content;
    total_bytes = 0 + length (as_bytes title) + length (as_bytes content);
  }

  title_lem :
      (title : Text) (w : World)
      → length (as_bytes title) ≤ e.cfg.max_request_bytes
      → text_value e true title start w ≡ (ok (titled title), w)
  unfolding text_value
  title_lem title w le = ground arith

  content_lem :
      (title content : Text) (w : World)
      → length (as_bytes title) + length (as_bytes content) ≤ e.cfg.max_request_bytes
      → length (as_bytes content) ≤ e.cfg.max_content_bytes
      → text_value e false content (titled title) w ≡ (ok (filled title content), w)
  unfolding text_value
  content_lem title content w whole small = ground arith

  -- a field that is read, and the rest of the form
  next_lem :
      (part : Part) (more : Multipart) (p q : Progress) (w : World)
      → parse_field e part p w ≡ (ok q, w)
      → parse_fields e (field part more) p w ≡ parse_fields e more q w
  unfolding parse_fields
  next_lem part more p q w h =
      ap (λ r. elim r.0 [ err resp ↦ (err resp, r.1) | ok p' ↦ parse_fields e more p' r.1 ]) h

  fields_lem :
      (title content : Text) (w : World)
      → length (as_bytes title) + length (as_bytes content) ≤ e.cfg.max_request_bytes
      → length (as_bytes content) ≤ e.cfg.max_content_bytes
      → parse_fields e (text_form title content) start w ≡ (ok (parsed title content), w)
  unfolding parse_fields parse_field text_field
  fields_lem title content w whole small =
      next_lem (text_arrived (codes "title") title)
        (field (text_arrived (codes "content") content) finished) start (titled title) w
        (title_lem title w (omega (arith, whole)))
      ∙ next_lem (text_arrived (codes "content") content) finished (titled title)
          (filled title content) w (content_lem title content w whole small)

  pub parse_record_form_texts :
      (title content : Text) (announced : Option ℕ) (w : World)
      → Fits title content announced
      → parse_record_form e (text_form title content) announced w ≡ (ok (parsed title content), w)
  unfolding parse_record_form
  parse_record_form_texts title content none w fits =
      fields_lem title content w fits.whole fits.text
  parse_record_form_texts title content (some n) w fits =
      let inside : ltb e.cfg.max_request_bytes n ≡ false = ground (arith, fits.announced n) in
      rw inside (fields_lem title content w fits.whole fits.text)
