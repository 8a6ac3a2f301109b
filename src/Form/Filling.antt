-- ===== src/Form/Filling.antt =====
-- One file field of `parse_record_form` of src/routes.rs: what its temp file holds, and where it goes.
use aardbin.Prelude.{
  Bool, Bool-cases, Bytes, List, Option, Text, [], ap, append-nil, append_assoc, arith, false, inl,
  inr, length, ltb, none, refl, some, sym, text_eq, text_eq_refl, true, ℕ, ◌++◌, ◌+◌, ◌∙◌, ◌∷◌, ◌≡◌,
}
use aardbin.Prelude.Dict.{find, find-put}
use aardbin.Files.{Disk, create_tmp}
use aardbin.App.{Env, Result, World, err, finalize_upload, ok, write_chunk}
use aardbin.App.Effects.{
  finalize_upload_lem, rename_tmp-ne, rename_tmp_self, write_chunk-IsQuiet, write_chunk-open,
  write_chunk-tmp,
}
use aardbin.Form.{
  Part, PendingUpload, Progress, finish_file, give_up, pending, receive, store_file, uploaded,
}
use aardbin.Form.Contents.{Gains, joined}

module _ (e : Env) where
  -- What a file that is received whole has in its temp file.
  record Filled (id : Text) (b : Bytes) (w w' : World) : Type 0 where
    drawn : w'.drawn ≡ w.drawn
    held : find id w'.disk.tmp ≡ some b
    tmp_other : (k : Text) → text_eq id k ≡ false → find k w'.disk.tmp ≡ find k w.disk.tmp
    stored : w'.disk.stored ≡ w.disk.stored

  receive-Filled :
      (id filename : Text) (size total : ℕ) (chunks : List Bytes) (broken : Bool) (w : World)
      (content : Bytes) (sizes : ℕ × ℕ)
      → find id w.disk.tmp ≡ some content
      → (receive e id filename size total chunks broken w).0 ≡ ok sizes
      → Filled id (content ++ joined chunks) w (receive e id filename size total chunks broken w).1
  unfolding receive
  receive-Filled id filename size total [] true w content sizes opened h = absurd (cc h)
  receive-Filled id filename size total [] false w content sizes opened h = record {
    drawn = refl;
    held = opened ∙ ap some (sym (append-nil content));
    tmp_other = λ k ne. refl;
    stored = refl;
  }
  receive-Filled id filename size total (chunk ∷ chunks) broken w content sizes opened h =
      let written = write_chunk id chunk w in
      let quiet = write_chunk-IsQuiet id w chunk in
      let (content', opened', longer) = write_chunk-open id w chunk content opened in
      elim (Bool-cases (ltb e.cfg.max_attachment_bytes (size + length chunk))) [
        | inl over ↦ absurd (ground (arith, h, over))
        | inr fits ↦ elim (Bool-cases (ltb e.cfg.max_request_bytes (total + length chunk))) [
          | inl over ↦ absurd (ground (arith, h, over, fits))
          | inr within ↦ elim (Bool-cases written.0) [
            | inr failed ↦ absurd (ground (arith, h, failed, fits, within))
            | inl fine ↦
                let more =
                  receive-Filled id filename (size + length chunk) (total + length chunk) chunks
                    broken written.1 content' sizes opened' (rw (fits, within, fine) at h) in
                rw (fits, within, fine)
                  (record {
                    drawn = more.drawn ∙ quiet.drawn;
                    held =
                        more.held
                        ∙ ap some (
                            ap (λ b. b ++ joined chunks) (longer fine)
                            ∙ append_assoc content chunk (joined chunks));
                    tmp_other = λ k ne. more.tmp_other k ne ∙ write_chunk-tmp id w chunk k ne;
                    stored = more.stored ∙ quiet.stored;
                  })
          ]
        ]
      ]

  -- A file that is taken: it is the next upload, under the next name, with these bytes.
  pub record Takes (name : Text) (b : Bytes) (p q : Progress) (w w' : World) : Type 0 where
    pub taken : PendingUpload
    pub uploads : q.uploads ≡ p.uploads ++ taken ∷ []
    pub own_id : taken.id ≡ e.uuid w.drawn
    pub own_name : taken.original_filename ≡ name
    pub gains : Gains taken.id b w w'

  finish_file-Takes :
      (id name : Text) (declared : Option Text) (b : Bytes) (p q : Progress) (w v : World)
      (r : Result (ℕ × ℕ) × World)
      → id ≡ e.uuid w.drawn
      → ((sizes : ℕ × ℕ) → r.0 ≡ ok sizes → Filled id b v r.1)
      → v.drawn ≡ w.drawn + 1
      → v.disk ≡ create_tmp id w.disk
      → (finish_file e id name declared p r).0 ≡ ok q
      → Takes name b p q w (finish_file e id name declared p r).1
  unfolding finish_file give_up create_tmp
  finish_file-Takes id name declared b p q w v (err resp, u) own filled next made h = absurd (cc h)
  finish_file-Takes id name declared b p q w v (ok (size, total), u) own filled next made h =
      let full = filled (size, total) refl in
      let (_, _, drawn, _, moved) = finalize_upload_lem id u in
      elim (Bool-cases (finalize_upload id u).0) [
        | inr bad ↦ absurd (ground (arith, h, bad))
        | inl good ↦
            let same : uploaded e id name declared size total p ≡ q = ground (arith, h, good) in
            let disk = moved good in
            rw good (record {
              taken = pending e id name declared size;
              uploads = ap (λ (x : Progress). x.uploads) (sym same);
              own_id = own;
              own_name = refl;
              gains = record {
                drawn = drawn ∙ full.drawn ∙ next;
                there =
                    ap (λ (d : Disk). find id d.stored) disk
                    ∙ (rename_tmp_self id u.disk b full.held).1;
                tmp_other = λ k ne.
                    ap (λ (d : Disk). find k d.tmp) disk
                    ∙ (rename_tmp-ne id u.disk k ne).0
                    ∙ full.tmp_other k ne
                    ∙ ap (λ (d : Disk). find k d.tmp) made
                    ∙ ground (arith, find-put id k [] w.disk.tmp);
                stored_other = λ k ne.
                    ap (λ (d : Disk). find k d.stored) disk
                    ∙ (rename_tmp-ne id u.disk k ne).1
                    ∙ ap (find k) full.stored
                    ∙ ap (λ (d : Disk). find k d.stored) made;
              };
            })
      ]

  pub store_file-Takes :
      (name : Text) (part : Part) (p q : Progress) (w : World) (r : Option Text × World)
      → r.1.drawn ≡ w.drawn + 1
      → ((id : Text) → r.0 ≡ some id → (id ≡ e.uuid w.drawn) × (r.1.disk ≡ create_tmp id w.disk))
      → (store_file e name part p r).0 ≡ ok q
      → Takes name (joined part.chunks) p q w (store_file e name part p r).1
  unfolding store_file give_up create_tmp
  store_file-Takes name part p q w (none, v) next begun h = absurd (cc h)
  store_file-Takes name part p q w (some id, v) next begun h =
      let (own, made) = begun id refl in
      let empty : find id v.disk.tmp ≡ some [] =
        ap (λ (d : Disk). find id d.tmp) made
        ∙ ground (arith, find-put id id [] w.disk.tmp, text_eq_refl id) in
      finish_file-Takes id name part.content_type (joined part.chunks) p q w v
        (receive e id name 0 p.total_bytes part.chunks part.broken v) own
        (λ sizes received.
          receive-Filled id name 0 p.total_bytes part.chunks part.broken v [] sizes empty received)
        next made h
