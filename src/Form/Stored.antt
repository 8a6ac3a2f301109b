-- ===== src/Form/Stored.antt =====
-- The fields of a form of a title, a content and files, as `parse_record_form` of src/routes.rs
-- stores them one by one.
use mathlib.Core.Path.{subst}
use aardbin.Prelude.{
  ◌≤◌, codes, Bool-cases, Bytes, List, Option, Text, [], all, ap, append-nil, append_assoc, arith,
  codes, false, inl, inr, ltb, none, refl, some, sym, text_eq, ℕ, ◌++◌, ◌+◌, ◌∙◌, ◌∷◌, ◌≡◌, ◌≤◌,
}
use aardbin.Prelude.Dict.{find}
use aardbin.App.{Env, Result, Result-cases, World, begin_upload, ok}
use aardbin.App.Effects.{begin_upload_lem}
use aardbin.Config.{max_attachments_per_record}
use aardbin.Form.{
  Multipart, ParsedRecordForm, Part, PendingUpload, Progress, field, file_field, finished, give_up,
  malformed, named_file, other_field, parse_field, parse_fields, parse_record_form, start,
  store_file, text_field, text_value,
}
use aardbin.Form.States.{IsFresh, at_same}
use aardbin.Form.Texts.{text_arrived}
use aardbin.Form.Fields.{AllFiles, page_form}
use aardbin.Form.Filling.{Takes, store_file-Takes}
use aardbin.Form.Contents.{
  AreStored, AreStored-gains, AreStored-snoc, file_contents, joined, named_bytes,
}

module _ (e : Env) where
  -- The uploads so far are stored, and the names that are yet to be drawn are free.
  pub record Holds (us : List PendingUpload) (fs : List (Text × Bytes)) (w : World) : Type 0 where
    pub fresh : IsFresh e w
    pub stored : AreStored us fs w

  module _ (distinct : (i j : ℕ) → e.uuid i ≡ e.uuid j → i ≡ j) where
    Takes-Holds :
        (name : Text) (b : Bytes) (p q : Progress) (fs : List (Text × Bytes)) (w w' : World)
        → Takes e name b p q w w'
        → Holds p.uploads fs w
        → Holds q.uploads (fs ++ (name, b) ∷ []) w'
    Takes-Holds name b p q fs w w' t holds =
        let other : (i : ℕ) → w'.drawn ≤ i → text_eq t.taken.id (e.uuid i) ≡ false = λ i late.
          elim (Bool-cases (text_eq t.taken.id (e.uuid i))) [
            | inr ne ↦ ne
            | inl same ↦
                let again =
                  distinct w.drawn i (
                    sym t.own_id ∙ at_same (λ j. t.taken.id ≡ j) t.taken.id (e.uuid i) same refl) in
                absurd (omega (arith, again, late, t.gains.drawn))
          ] in
        let free : find t.taken.id w.disk.stored ≡ none =
          ap (λ j. find j w.disk.stored) t.own_id ∙ holds.fresh.not_stored w.drawn (omega arith) in
        record {
          fresh = record {
            not_tmp = λ i late.
                t.gains.tmp_other (e.uuid i) (other i late)
                ∙ holds.fresh.not_tmp i (omega (arith, late, t.gains.drawn));
            not_stored = λ i late.
                t.gains.stored_other (e.uuid i) (other i late)
                ∙ holds.fresh.not_stored i (omega (arith, late, t.gains.drawn));
          };
          stored =
              subst (λ us. AreStored us (fs ++ (name, b) ∷ []) w') (sym t.uploads)
                (subst (λ n. AreStored (p.uploads ++ t.taken ∷ []) (fs ++ (n, b) ∷ []) w')
                  t.own_name
                  (AreStored-snoc p.uploads fs t.taken b w'
                    (AreStored-gains p.uploads fs t.taken.id b w w' free t.gains holds.stored)
                    t.gains.there));
        }

    named_file-Holds :
        (name : Option Text) (part : Part) (p q : Progress) (fs : List (Text × Bytes)) (w : World)
        → (named_file e name part p w).0 ≡ ok q
        → Holds p.uploads fs w
        → Holds q.uploads
            (fs ++ named_bytes name (joined part.chunks))
            (named_file e name part p w).1
    unfolding named_file give_up
    named_file-Holds none part p q fs w h holds =
        let same : p ≡ q = cc h in
        subst (λ (x : Progress). Holds x.uploads (fs ++ []) w) same
          (subst (λ gs. Holds p.uploads gs w) (sym (append-nil fs)) holds)
    named_file-Holds (some []) part p q fs w h holds =
        let same : p ≡ q = cc h in
        subst (λ (x : Progress). Holds x.uploads (fs ++ []) w) same
          (subst (λ gs. Holds p.uploads gs w) (sym (append-nil fs)) holds)
    named_file-Holds (some (c ∷ name)) part p q fs w h holds =
        elim (Bool-cases (ltb max_attachments_per_record (p.attachment_count + 1))) [
          | inl many ↦ absurd (ground (arith, h, many))
          | inr few ↦
              let (_, _, next, _, begun) = begin_upload_lem e w in
              rw few (
                Takes-Holds (c ∷ name) (joined part.chunks) p q fs w
                  (store_file e (c ∷ name) part p (begin_upload e w)).1
                  (store_file-Takes e (c ∷ name) part p q w (begin_upload e w) next begun
                    (rw (few, named_file) at h))
                  holds)
        ]

    files_field :
        (part : Part) (p : Progress) (w : World)
        → part.name ≡ some (codes "files")
        → parse_field e part p w ≡ named_file e part.file_name part p w
    unfolding parse_field file_field
    files_field part p w name = ground (arith, name)

    parse_field-Holds :
        (part : Part) (p q : Progress) (fs : List (Text × Bytes)) (w : World)
        → part.name ≡ some (codes "files")
        → (parse_field e part p w).0 ≡ ok q
        → Holds p.uploads fs w
        → Holds q.uploads
            (fs ++ named_bytes part.file_name (joined part.chunks))
            (parse_field e part p w).1
    parse_field-Holds part p q fs w name h holds =
        let same = files_field part p w name in
        subst
          (λ (r : Result Progress × World).
            Holds q.uploads (fs ++ named_bytes part.file_name (joined part.chunks)) r.1)
          (sym same)
          (named_file-Holds part.file_name part p q fs w (ap (λ r. r.0) (sym same) ∙ h) holds)

    parse_fields-Holds :
        (files : Multipart) (p : Progress) (fs : List (Text × Bytes)) (w : World)
        (f : ParsedRecordForm)
        → AllFiles files
        → (parse_fields e files p w).0 ≡ ok f
        → Holds p.uploads fs w
        → Holds f.uploads (fs ++ file_contents files) (parse_fields e files p w).1
    unfolding parse_fields give_up
    parse_fields-Holds finished p fs w f all h holds =
        let same : record { title = p.title; content = p.content; uploads = p.uploads } ≡ f =
          cc h in
        subst (λ (x : ParsedRecordForm). Holds x.uploads (fs ++ []) w) same
          (subst (λ gs. Holds p.uploads gs w) (sym (append-nil fs)) holds)
    parse_fields-Holds malformed p fs w f all h holds = absurd (cc h)
    parse_fields-Holds (field part more) p fs w f (name, all) h holds =
        elim (Result-cases (parse_field e part p w).0) [
          | inr (resp, bad) ↦ absurd (ground (arith, h, bad))
          | inl (q, good) ↦
              let next = parse_field e part p w in
              let one = named_bytes part.file_name (joined part.chunks) in
              rw (good, parse_fields)
                (subst (λ gs. Holds f.uploads gs (parse_fields e more q next.1).1)
                  (append_assoc fs one (file_contents more))
                  (parse_fields-Holds more q (fs ++ one) next.1 f all (rw (good, parse_fields) at h)
                    (parse_field-Holds part p q fs w name good holds)))
        ]

    -- A text stores nothing.
    text_keeps :
        (name : Text) (text : Text) (p q : Progress) (w : World)
        → (parse_field e (text_arrived name text) p w).0 ≡ ok q
        → text_eq name (codes "files") ≡ false
        → ((parse_field e (text_arrived name text) p w).1 ≡ w) × (q.uploads ≡ p.uploads)
    unfolding parse_field text_field text_value other_field give_up
    text_keeps name text p q w h other = ground (arith, h, other)

    text_first-Holds :
        (name text : Text) (more : Multipart) (fs gs : List (Text × Bytes)) (f : ParsedRecordForm)
        (p : Progress) (w : World)
        → text_eq name (codes "files") ≡ false
        → ((q : Progress) (v : World)
            → (parse_fields e more q v).0 ≡ ok f
            → Holds q.uploads fs v
            → Holds f.uploads gs (parse_fields e more q v).1)
        → (parse_fields e (field (text_arrived name text) more) p w).0 ≡ ok f
        → Holds p.uploads fs w
        → Holds f.uploads gs (parse_fields e (field (text_arrived name text) more) p w).1
    unfolding parse_fields
    text_first-Holds name text more fs gs f p w other later h holds =
        let first = parse_field e (text_arrived name text) p w in
        elim (Result-cases first.0) [
          | inr (resp, bad) ↦ absurd (ground (arith, h, bad))
          | inl (q, good) ↦
              let (same, uploads) = text_keeps name text p q w good other in
              rw (good, parse_fields)
                (later q first.1 (rw (good, parse_fields) at h) (
                  subst (λ v. Holds q.uploads fs v) (sym same)
                    (subst (λ us. Holds us fs w) (sym uploads) holds)))
        ]

    page_fields-Holds :
        (title content : Text) (files : Multipart) (w : World) (f : ParsedRecordForm)
        → IsFresh e w
        → AllFiles files
        → (parse_fields e (page_form title content files) start w).0 ≡ ok f
        → Holds f.uploads
            (file_contents files)
            (parse_fields e (page_form title content files) start w).1
    page_fields-Holds title content files w f fresh all h =
        text_first-Holds (codes "title") title
          (field (text_arrived (codes "content") content) files) [] (file_contents files) f start w
          refl
          (λ q v.
            text_first-Holds (codes "content") content files [] (file_contents files) f q v refl
              (λ p u read holds. parse_fields-Holds files p [] u f all read holds))
          h (record { fresh = fresh; stored = tt })

    -- If a form of a title, a content and files is accepted, then each file is stored with all the
    -- bytes that arrived for it.
    pub page_form-Holds :
        (title content : Text) (files : Multipart) (announced : Option ℕ) (w : World)
        (f : ParsedRecordForm)
        → IsFresh e w
        → AllFiles files
        → (parse_record_form e (page_form title content files) announced w).0 ≡ ok f
        → AreStored f.uploads
            (file_contents files)
            (parse_record_form e (page_form title content files) announced w).1
    unfolding parse_record_form
    page_form-Holds title content files none w f fresh all h =
        (page_fields-Holds title content files w f fresh all h).stored
    page_form-Holds title content files (some n) w f fresh all h =
        elim (Bool-cases (ltb e.cfg.max_request_bytes n)) [
          | inl over ↦ absurd (ground (arith, h, over))
          | inr within ↦
              rw within
                (page_fields-Holds title content files w f fresh all (rw within at h)).stored
        ]
