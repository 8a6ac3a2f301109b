-- ===== src/Form/Tracks.antt =====
-- How each step of `parse_record_form` of src/routes.rs on the files moves between the states of a
-- form.
use aardbin.Prelude.{
  Bool-cases, Bytes, List, Text, [], ap, arith, false, inl, inr, none, one_of, some, sym, text_eq,
  text_eq_refl, text_eq_sym, true, ◌++◌, ◌∙◌, ◌∷◌, ◌≡◌,
}
use aardbin.Prelude.Dict.{find, find-put}
use aardbin.App.{Env, World, abort_upload, begin_upload, finalize_upload, write_chunk}
use aardbin.Files.{create_tmp, rename_tmp}
use aardbin.App.Effects.{
  SameRest-trans, abort_upload_lem, begin_upload_lem, delete_files_lem, finalize_upload_lem,
  rename_tmp-ne, rename_tmp_self, write_chunk-IsQuiet, write_chunk-open, write_chunk-tmp,
}
use aardbin.Form.{PendingUpload, cleanup_uploads}
use aardbin.Form.States.{
  upload_ids, one_of-append, cleanup_uploads-eq, IsRestored, Tracks, Receives, at_same,
}

module _ (w : World) where
  -- Removing the uploads so far restores every file.
  pub give_up-IsRestored :
      (us : List PendingUpload) (w' : World) → Tracks w w' us → IsRestored w (cleanup_uploads us w')
  give_up-IsRestored us w' t =
      let (rest, unlink, tmp, stored) = delete_files_lem (upload_ids us) w' t.unlink in
      rw (cleanup_uploads-eq us w') (record {
        rest = SameRest-trans t.saved.rest rest;
        tmp_same = λ k. ap (λ d. find k d) tmp ∙ t.saved.tmp_same k;
        stored_same = λ k. elim (Bool-cases (one_of k (upload_ids us))) [
          | inl new ↦ stored k ∙ rw new (sym (t.saved.were_free k new))
          | inr old ↦ stored k ∙ rw old (t.saved.stored_same k old)
        ];
      })

  pub abort-Tracks :
      (id : Text) (us : List PendingUpload) (w' : World)
      → find id w.disk.tmp ≡ none
      → Receives w id us w'
      → Tracks w (abort_upload id w') us
  abort-Tracks id us w' free r =
      let (quiet, tmp) = abort_upload_lem id w' r.unlink in
      record {
        saved = record {
          rest = SameRest-trans r.rest quiet.rest;
          tmp_same = λ k. elim (Bool-cases (text_eq id k)) [
            | inl same ↦
                tmp k ∙ rw same (sym (at_same (λ j. find j w.disk.tmp ≡ none) id k same free))
            | inr ne ↦ tmp k ∙ rw ne (r.tmp_other k ne)
          ];
          stored_same = λ k old. ap (λ d. find k d) quiet.stored ∙ r.stored_same k old;
          were_free = r.were_free;
          are_there = λ k new.
              let (content, there) = r.are_there k new in
              (content, ap (λ d. find k d) quiet.stored ∙ there);
        };
        unlink = quiet.unlink ∙ r.unlink;
        forward = omega (arith, quiet.drawn, r.forward);
      }

  pub finish-Tracks :
      (u : PendingUpload) (us : List PendingUpload) (w' : World)
      → find u.id w.disk.tmp ≡ none
      → find u.id w.disk.stored ≡ none
      → Receives w u.id us w'
      → (finalize_upload u.id w').0 ≡ true
      → Tracks w (finalize_upload u.id w').1 (us ++ u ∷ [])
  finish-Tracks u us w' free unused r done =
      let (rest, unlink, drawn, _, moved) = finalize_upload_lem u.id w' in
      let disk = moved done in
      let (content, opened) = r.tmp_open in
      let (gone, there) = rename_tmp_self u.id w'.disk content opened in
      record {
        saved = record {
          rest = SameRest-trans r.rest rest;
          tmp_same = λ k. ap (λ d. find k d.tmp) disk ∙ elim (Bool-cases (text_eq u.id k)) [
            | inl same ↦
                at_same (λ j. find j (rename_tmp u.id w'.disk).tmp ≡ find j w.disk.tmp) u.id k same
                  (gone ∙ sym free)
            | inr ne ↦ (rename_tmp-ne u.id w'.disk k ne).0 ∙ r.tmp_other k ne
          ];
          stored_same = λ k old.
              let ne : text_eq u.id k ≡ false =
                ground (arith, one_of-append k us u, text_eq_sym u.id k) in
              ap (λ d. find k d.stored) disk
              ∙ (rename_tmp-ne u.id w'.disk k ne).1
              ∙ r.stored_same k (ground (arith, one_of-append k us u));
          were_free = λ k new. elim (Bool-cases (text_eq u.id k)) [
            | inl same ↦ at_same (λ j. find j w.disk.stored ≡ none) u.id k same unused
            | inr ne ↦ r.were_free k (ground (arith, one_of-append k us u, text_eq_sym u.id k))
          ];
          are_there = λ k new. elim (Bool-cases (text_eq u.id k)) [
            | inl same ↦ (
              content,
              ap (λ d. find k d.stored) disk
                  ∙ at_same (λ j. find j (rename_tmp u.id w'.disk).stored ≡ some content) u.id k
                      same there,
            )
            | inr ne ↦
                let (held, found) =
                  r.are_there k (ground (arith, one_of-append k us u, text_eq_sym u.id k)) in
                (held, ap (λ d. find k d.stored) disk ∙ (rename_tmp-ne u.id w'.disk k ne).1 ∙ found)
          ];
        };
        unlink = unlink ∙ r.unlink;
        forward = omega (arith, drawn, r.forward);
      }

  pub unfinished-Receives :
      (id : Text) (us : List PendingUpload) (w' : World)
      → Receives w id us w'
      → (finalize_upload id w').0 ≡ false
      → Receives w id us (finalize_upload id w').1
  unfinished-Receives id us w' r failed =
      let (rest, unlink, drawn, kept, _) = finalize_upload_lem id w' in
      let disk = kept failed in
      record {
        rest = SameRest-trans r.rest rest;
        unlink = unlink ∙ r.unlink;
        forward = omega (arith, drawn, r.forward);
        tmp_other = λ k ne. ap (λ d. find k d.tmp) disk ∙ r.tmp_other k ne;
        tmp_open = (r.tmp_open.0, ap (λ d. find id d.tmp) disk ∙ r.tmp_open.1);
        stored_same = λ k old. ap (λ d. find k d.stored) disk ∙ r.stored_same k old;
        were_free = r.were_free;
        are_there = λ k new.
            ((r.are_there k new).0, ap (λ d. find k d.stored) disk ∙ (r.are_there k new).1);
      }

  pub write-Receives :
      (id : Text) (us : List PendingUpload) (chunk : Bytes) (w' : World)
      → Receives w id us w'
      → Receives w id us (write_chunk id chunk w').1
  write-Receives id us chunk w' r =
      let quiet = write_chunk-IsQuiet id w' chunk in
      let (content, opened, _) = write_chunk-open id w' chunk r.tmp_open.0 r.tmp_open.1 in
      record {
        rest = SameRest-trans r.rest quiet.rest;
        unlink = quiet.unlink ∙ r.unlink;
        forward = omega (arith, quiet.drawn, r.forward);
        tmp_other = λ k ne. write_chunk-tmp id w' chunk k ne ∙ r.tmp_other k ne;
        tmp_open = (content, opened);
        stored_same = λ k old. ap (λ d. find k d) quiet.stored ∙ r.stored_same k old;
        were_free = r.were_free;
        are_there = λ k new.
            ((r.are_there k new).0, ap (λ d. find k d) quiet.stored ∙ (r.are_there k new).1);
      }

  pub begin-Receives :
      (e : Env) (id : Text) (us : List PendingUpload) (w' : World)
      → Tracks w w' us
      → (begin_upload e w').0 ≡ some id
      → Receives w id us (begin_upload e w').1
  begin-Receives e id us w' t begun =
      let (rest, unlink, drawn, _, made) = begin_upload_lem e w' in
      let disk = (made id begun).1 in
      record {
        rest = SameRest-trans t.saved.rest rest;
        unlink = unlink ∙ t.unlink;
        forward = omega (arith, drawn, t.forward);
        tmp_other = λ k ne.
            ap (λ d. find k d.tmp) disk
            ∙ (unfold create_tmp in find-put id k [] w'.disk.tmp ∙ rw ne (t.saved.tmp_same k));
        tmp_open = (
          [],
          ap (λ d. find id d.tmp) disk
              ∙ (unfold create_tmp in find-put id id [] w'.disk.tmp ∙ rw (text_eq_refl id)),
        );
        stored_same = λ k old.
            ap (λ d. find k d.stored) disk ∙ (unfold create_tmp in t.saved.stored_same k old);
        were_free = t.saved.were_free;
        are_there = λ k new. (
          (t.saved.are_there k new).0,
          ap (λ d. find k d.stored) disk ∙ (unfold create_tmp in (t.saved.are_there k new).1),
        );
      }

  pub unbegun-Tracks :
      (e : Env) (us : List PendingUpload) (w' : World)
      → Tracks w w' us
      → (begin_upload e w').0 ≡ none
      → Tracks w (begin_upload e w').1 us
  unbegun-Tracks e us w' t failed =
      let (rest, unlink, drawn, kept, _) = begin_upload_lem e w' in
      let disk = kept failed in
      record {
        saved = record {
          rest = SameRest-trans t.saved.rest rest;
          tmp_same = λ k. ap (λ d. find k d.tmp) disk ∙ t.saved.tmp_same k;
          stored_same = λ k old. ap (λ d. find k d.stored) disk ∙ t.saved.stored_same k old;
          were_free = t.saved.were_free;
          are_there = λ k new. (
            (t.saved.are_there k new).0,
            ap (λ d. find k d.stored) disk ∙ (t.saved.are_there k new).1,
          );
        };
        unlink = unlink ∙ t.unlink;
        forward = omega (arith, drawn, t.forward);
      }
