-- ===== src/Form/Atomic.antt =====
-- What `parse_record_form` of src/routes.rs leaves behind: on an error nothing, on success the
-- uploads, each under its own fresh name.
use mathlib.Core.Path.{subst}
use mathlib.Core.Bool.{false≢true}
use aardbin.Prelude.{
  Bool, Bool-cases, Option, Option-cases, Text, [], arith, as_bytes, codes, false, inl, inr, length,
  ltb, none, not, refl, some, text_eq, true, ℕ, ◌&&◌, ◌+◌, ◌∷◌, ◌≡◌,
}
use aardbin.Config.{max_attachments_per_record}
use aardbin.App.{Env, Result, World, Result-cases, err, ok}
use aardbin.Form.{
  Multipart, ParsedRecordForm, Part, Progress, cleanup_uploads, drained, field, file_field,
  finished, give_up, malformed, name_of, named_file, other_field, parse_field, parse_fields,
  parse_record_form, start, text_field, text_value,
}
use aardbin.Form.States.{IsFresh, IsRestored, IsStored, Outcome, Tracks}
use aardbin.Form.Tracks.{give_up-IsRestored}
use aardbin.Http.{Response}
use aardbin.App.Effects.{SameRest-refl}
use aardbin.Form.Receiving.{store-Outcome}

module _ (e : Env) (w : World) (fresh : IsFresh e w) where
  text_value-Outcome :
      (is_title : Bool) (text : Text) (p : Progress) (w' : World)
      → Tracks w w' p.uploads
      → Outcome w (text_value e is_title text p w')
  text_value-Outcome is_title text p w' t =
      let back = give_up-IsRestored w p.uploads w' t in
      elim (Bool-cases (ltb e.cfg.max_request_bytes (p.total_bytes + length (as_bytes text)))) [
        | inl long ↦ unfold text_value give_up in rw long back
        | inr fits ↦
            elim (Bool-cases
              (not is_title && ltb e.cfg.max_content_bytes (length (as_bytes text)))) [
                | inl long ↦ unfold text_value give_up in rw (fits, long) back
                | inr short ↦ unfold text_value in rw (fits, short) t
              ]
      ]

  text_field-Outcome :
      (is_title : Bool) (part : Part) (p : Progress) (w' : World)
      → Tracks w w' p.uploads
      → Outcome w (text_field e is_title part p w')
  text_field-Outcome is_title part p w' t = elim (Option-cases part.text) [
    | inl none_given ↦
        unfold text_field in rw none_given (unfold give_up in give_up-IsRestored w p.uploads w' t)
    | inr (text, given) ↦ unfold text_field in rw given (text_value-Outcome is_title text p w' t)
  ]

  named_file-Outcome :
      (name : Option Text) (part : Part) (p : Progress) (w' : World)
      → Tracks w w' p.uploads
      → Outcome w (named_file e name part p w')
  named_file-Outcome none part p w' t = unfold named_file in t
  named_file-Outcome (some []) part p w' t = unfold named_file in t
  named_file-Outcome (some (c ∷ filename)) part p w' t =
      elim (Bool-cases (ltb max_attachments_per_record (p.attachment_count + 1))) [
        | inl full ↦ unfold named_file give_up in rw full (give_up-IsRestored w p.uploads w' t)
        | inr room ↦
            unfold named_file in rw room (store-Outcome e w fresh (c ∷ filename) part p w' t)
      ]

  drained-Tracks :
      (text : Option Text) (p : Progress) (w' : World)
      → Tracks w w' p.uploads
      → Tracks w w' (drained e text p).uploads
  unfolding drained
  drained-Tracks none p w' t = t
  drained-Tracks (some text) p w' t = t

  parse_field-Outcome :
      (part : Part) (p : Progress) (w' : World)
      → Tracks w w' p.uploads
      → Outcome w (parse_field e part p w')
  parse_field-Outcome part p w' t =
      let name = name_of e part in
      elim (Bool-cases (text_eq name (codes "title"))) [
        | inl h ↦ unfold parse_field in rw h (text_field-Outcome true part p w' t)
        | inr a ↦ elim (Bool-cases (text_eq name (codes "content"))) [
          | inl h ↦ unfold parse_field in rw (a, h) (text_field-Outcome false part p w' t)
          | inr b ↦ elim (Bool-cases (text_eq name (codes "files"))) [
            | inl h ↦
                unfold parse_field file_field in
                rw (a, b, h) (named_file-Outcome part.file_name part p w' t)
            | inr c ↦
                unfold parse_field other_field in rw (a, b, c) (drained-Tracks part.text p w' t)
          ]
        ]
      ]

  abbrev pub FormOutcome : Result ParsedRecordForm × World → Type 0
  FormOutcome (ok f, w') = Tracks w w' f.uploads
  FormOutcome (err resp, w') = IsRestored w w'

  Outcome-ok :
      (q : Progress) (r : Result Progress × World)
      → Outcome w r
      → r.0 ≡ ok q
      → Tracks w r.1 q.uploads
  Outcome-ok q (ok q', v) o h =
      subst (λ x. Tracks w v x.uploads) {x = q'} {y = q} (ground (arith, h)) o
  Outcome-ok q (err resp, v) o h = absurd (ground (arith, h))

  Outcome-err :
      (resp : Response) (r : Result Progress × World)
      → Outcome w r
      → r.0 ≡ err resp
      → IsRestored w r.1
  Outcome-err resp (ok q, v) o h = absurd (ground (arith, h))
  Outcome-err resp (err resp', v) o h = o

  parse_fields-Outcome :
      (form : Multipart) (p : Progress) (w' : World)
      → Tracks w w' p.uploads
      → FormOutcome (parse_fields e form p w')
  unfolding parse_fields
  parse_fields-Outcome finished p w' t = unfold parse_fields in t
  parse_fields-Outcome malformed p w' t =
      unfold parse_fields give_up in give_up-IsRestored w p.uploads w' t
  parse_fields-Outcome (field part rest) p w' t =
      let o = parse_field-Outcome part p w' t in
      elim (Result-cases (parse_field e part p w').0) [
        | inl (q, good) ↦
            rw (parse_fields, good)
              (parse_fields-Outcome rest q (parse_field e part p w').1
                (Outcome-ok q (parse_field e part p w') o good))
        | inr (resp, bad) ↦
            rw (parse_fields, bad) (Outcome-err resp (parse_field e part p w') o bad)
      ]

  start-Tracks : w.faults.unlink ≡ [] → Tracks w w []
  start-Tracks none_fail = record {
    saved = record {
      rest = SameRest-refl w;
      tmp_same = λ k. refl;
      stored_same = λ k h. refl;
      were_free = λ k h. absurd (false≢true h);
      are_there = λ k h. absurd (false≢true h);
    };
    unlink = none_fail;
    forward = omega arith;
  }

  pub parse_record_form-Outcome :
      (form : Multipart) (content_length : Option ℕ)
      → w.faults.unlink ≡ []
      → FormOutcome (parse_record_form e form content_length w)
  unfolding cleanup_uploads
  parse_record_form-Outcome form none none_fail =
      unfold parse_record_form in parse_fields-Outcome form start w (start-Tracks none_fail)
  parse_record_form-Outcome form (some len) none_fail =
      elim (Bool-cases (ltb e.cfg.max_request_bytes len)) [
        | inl long ↦
            unfold parse_record_form in rw long (give_up-IsRestored w [] w (start-Tracks none_fail))
        | inr fits ↦
            unfold parse_record_form in
            rw fits (parse_fields-Outcome form start w (start-Tracks none_fail))
      ]

FormOutcome-parts :
    (e : Env) (w : World) (fresh : IsFresh e w) (r : Result ParsedRecordForm × World)
    → FormOutcome e w fresh r
    → ((resp : Response) → r.0 ≡ err resp → IsRestored w r.1)
      × ((f : ParsedRecordForm) → r.0 ≡ ok f → IsStored w r.1 f.uploads)
FormOutcome-parts e w fresh (ok f, w') o = (
  λ resp h. absurd (ground (arith, h)),
  λ g h. subst (λ x. IsStored w w' x.uploads) {x = f} {y = g} (ground (arith, h)) o.saved,
)
FormOutcome-parts e w fresh (err resp, w') o = (λ r h. o, λ f h. absurd (ground (arith, h)))

-- If the names that are yet to be drawn are free and no removal of a file fails, a form that is
-- refused, at whatever field and for whatever reason, leaves every file as it was; a form that is
-- accepted leaves no temp file of its own and stores each upload under a name that was free, and
-- changes no other file. In both cases the tables, the limiter and the events are untouched.
pub parse_record_form_atomic :
    (e : Env) (w : World) (form : Multipart) (content_length : Option ℕ)
    → IsFresh e w
    → w.faults.unlink ≡ []
    → ((resp : Response)
        → (parse_record_form e form content_length w).0 ≡ err resp
        → IsRestored w (parse_record_form e form content_length w).1)
      × ((f : ParsedRecordForm)
          → (parse_record_form e form content_length w).0 ≡ ok f
          → IsStored w (parse_record_form e form content_length w).1 f.uploads)
parse_record_form_atomic e w form content_length fresh none_fail =
    FormOutcome-parts e w fresh (parse_record_form e form content_length w)
      (parse_record_form-Outcome e w fresh form content_length none_fail)
