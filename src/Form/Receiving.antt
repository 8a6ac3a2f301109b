-- ===== src/Form/Receiving.antt =====
-- One file field of `parse_record_form` of src/routes.rs, from its temp file to its place or back.
use mathlib.Core.Path.{subst}
use aardbin.Prelude.{
  Bool, Bytes, List, Option, Option-cases, Text, [], arith, false, if◌then◌else◌, inl, inr, length,
  ltb, none, some, true, ℕ, ◌+◌, ◌∷◌, ◌≡◌,
}
use aardbin.Prelude.Dict.{find}
use aardbin.App.{
  Env, Result, World, abort_upload, begin_upload, err, finalize_upload, ok, write_chunk,
}
use aardbin.Form.{
  Part, PendingUpload, Progress, cleanup_uploads, file_too_large, finish_file, give_up, pending,
  receive, store_file, too_large, upload_failed, uploaded,
}
use aardbin.Form.States.{IsFresh, IsRestored, Outcome, Outcome-if, Receives, Tracks}
use aardbin.Form.Tracks.{
  abort-Tracks, begin-Receives, finish-Tracks, give_up-IsRestored, unbegun-Tracks,
  unfinished-Receives, write-Receives,
}
use aardbin.Http.{internal}
use aardbin.App.Effects.{begin_upload_lem}

module _ (e : Env) (w : World) (fresh : IsFresh e w) where
  -- What `receive` returns leaves the file open.
  record Held (id : Text) (us : List PendingUpload) (r : Result (ℕ × ℕ) × World) : Type 0 where
    state : Receives w id us r.1

  Held-if :
      {id : Text} {us : List PendingUpload} (b : Bool) (m n : Result (ℕ × ℕ) × World)
      → Held id us m
      → Held id us n
      → Held id us (if b then m else n)
  Held-if true m n hm hn = hm
  Held-if false m n hm hn = hn

  receive-Held :
      (id filename : Text) (us : List PendingUpload) (size total : ℕ) (chunks : List Bytes)
      (broken : Bool) (w' : World)
      → Receives w id us w'
      → Held id us (receive e id filename size total chunks broken w')
  unfolding receive
  receive-Held id filename us size total [] broken w' r =
      Held-if broken (err upload_failed, w') (ok (size, total), w') (record { state = r })
        (record { state = r })
  receive-Held id filename us size total (chunk ∷ chunks) broken w' r =
      let written = write_chunk id chunk w' in
      let r' : Held id us (err internal, written.1) = record {
        state = write-Receives w id us chunk w' r;
      } in
      let more =
        receive e id filename (size + length chunk) (total + length chunk) chunks broken
          written.1 in
      let more-Held : Held id us more =
        receive-Held id filename us (size + length chunk) (total + length chunk) chunks broken
          written.1 r'.state in
      let continued = if written.0 then more else (err internal, written.1) in
      let limited =
        if ltb e.cfg.max_request_bytes (total + length chunk)
        then (err too_large, w')
        else continued in
      Held-if (ltb e.cfg.max_attachment_bytes (size + length chunk))
        (err (file_too_large filename e.cfg.max_attachment_bytes), w') limited
        (record { state = r })
        (Held-if (ltb e.cfg.max_request_bytes (total + length chunk)) (err too_large, w') continued
          (record { state = r }) (Held-if written.0 more (err internal, written.1) more-Held r'))

  finish-Outcome :
      (id filename : Text) (declared : Option Text) (p : Progress) (r : Result (ℕ × ℕ)) (w' : World)
      → find id w.disk.tmp ≡ none
      → find id w.disk.stored ≡ none
      → Receives w id p.uploads w'
      → Outcome w (finish_file e id filename declared p (r, w'))
  finish-Outcome id filename declared p (err resp) w' free unused r =
      unfold finish_file give_up in
      give_up-IsRestored w p.uploads (abort_upload id w') (abort-Tracks w id p.uploads w' free r)
  finish-Outcome id filename declared p (ok (size, total)) w' free unused r =
      unfold finish_file give_up in
      Outcome-if w (finalize_upload id w').0
        (ok (uploaded e id filename declared size total p), (finalize_upload id w').1)
        (err internal, cleanup_uploads p.uploads (abort_upload id (finalize_upload id w').1))
        (λ done.
          finish-Tracks w (pending e id filename declared size) p.uploads w' free unused r done)
        (λ failed. give_up-IsRestored w p.uploads (abort_upload id (finalize_upload id w').1) (
          abort-Tracks w id p.uploads (finalize_upload id w').1 free
            (unfinished-Receives w id p.uploads w' r failed)))

  unstored :
      (filename : Text) (part : Part) (p : Progress) (begun : Option Text × World)
      → begun.0 ≡ none
      → IsRestored w (cleanup_uploads p.uploads begun.1)
      → Outcome w (store_file e filename part p begun)
  unstored filename part p (none, w') h r = unfold store_file give_up in r
  unstored filename part p (some id, w') h r = absurd (ground (arith, h))

  stored :
      (filename : Text) (part : Part) (p : Progress) (id : Text) (begun : Option Text × World)
      → begun.0 ≡ some id
      → Outcome w (
          finish_file e id filename part.content_type p
            (receive e id filename 0 p.total_bytes part.chunks part.broken begun.1))
      → Outcome w (store_file e filename part p begun)
  stored filename part p id (none, w') h r = absurd (ground (arith, h))
  stored filename part p id (some id', w') h r =
      unfold store_file in
      subst
        (λ i. Outcome w (
          finish_file e i filename part.content_type p
            (receive e i filename 0 p.total_bytes part.chunks part.broken w')))
        {x = id} {y = id'} (ground (arith, h)) r

  pub store-Outcome :
      (filename : Text) (part : Part) (p : Progress) (w' : World)
      → Tracks w w' p.uploads
      → Outcome w (store_file e filename part p (begin_upload e w'))
  store-Outcome filename part p w' t = elim (Option-cases (begin_upload e w').0) [
    | inl failed ↦ unstored filename part p (begin_upload e w') failed (
        give_up-IsRestored w p.uploads (begin_upload e w').1
          (unbegun-Tracks w e p.uploads w' t failed))
    | inr (id, begun) ↦
        let named = ((begin_upload_lem e w').4 id begun).0 in
        let received =
          receive e id filename 0 p.total_bytes part.chunks part.broken (begin_upload e w').1 in
        stored filename part p id (begin_upload e w') begun (
          finish-Outcome id filename part.content_type p received.0 received.1
            (rw named (fresh.not_tmp w'.drawn t.forward))
            (rw named (fresh.not_stored w'.drawn t.forward))
            (receive-Held id filename p.uploads 0 p.total_bytes part.chunks part.broken
              (begin_upload e w').1 (begin-Receives w e id p.uploads w' t begun)).state)
  ]
