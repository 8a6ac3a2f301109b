-- ===== src/Records/Removed.antt =====
-- What `delete_record` of src/routes.rs leaves, and `api_delete_record` of src/api.rs with it.
use aardbin.Prelude.{
  List, Option, Text, [], ap, arith, false, if◌then◌else◌, keep, none, one_of, refl, some, text_eq,
  text_eq_refl, true, ◌+◌, ◌∙◌, ◌≡◌,
}
use aardbin.Prelude.Dict.{find}
use aardbin.App.{Env, World, db_call, delete_files, head_fault, send_event, writing}
use aardbin.App.Effects.{SameRest, delete_files_lem}
use aardbin.Records.Removal.{bare_ok, delete_record, deleted}
use aardbin.Db
use aardbin.Db.{
  AttachmentRow, Tables, attachment_ids, belongs_to, get_record, is_some, list_attachments,
}
use aardbin.Http.{Response, err_response, internal}
use aardbin.Api.{api_delete_record}
use aardbin.Db.Integrity.{IsConsistent}
use aardbin.Db.Rows.{delete_record_lem}
use aardbin.Records.{record_not_found}

-- Nothing that the handlers share has changed but the faults that were used up.
pub record IsUntouched (w w' : World) : Type 0 where
  pub rest : SameRest w w'
  pub disk : w'.disk ≡ w.disk

-- The record is gone with its attachments and their files, no other record, attachment or file is,
-- and one event was sent.
pub record IsRemoved (id : Text) (w w' : World) : Type 0 where
  pub row_gone : get_record id w'.tables ≡ none
  pub attachments_gone : list_attachments id w'.tables ≡ []
  pub others :
      (j : Text)
      → text_eq id j ≡ false
      → (get_record j w'.tables ≡ get_record j w.tables)
        × (list_attachments j w'.tables ≡ list_attachments j w.tables)
  pub files :
      (k : Text)
      → find k w'.disk.stored ≡ (
          if one_of k (attachment_ids (keep (belongs_to id) w.tables.attachments))
          then none
          else find k w.disk.stored)
  pub told : w'.sent ≡ w.sent + 1
  pub failures : w'.failures ≡ w.failures

module _ (id : Text) (w : World) where
  abbrev call : Option (Option (List Text)) × World
  call = db_call (writing (Db.delete_record id)) w

  call_found :
      head_fault w.faults.db ≡ false
      → is_some (get_record id w.tables) ≡ true
      → (call.0 ≡ some (some (attachment_ids (keep (belongs_to id) w.tables.attachments))))
        × (call.1.tables ≡ (Db.delete_record id w.tables).1)
        × (call.1.disk ≡ w.disk)
        × (call.1.sent ≡ w.sent)
        × (call.1.failures ≡ w.failures)
        × (call.1.faults.unlink ≡ w.faults.unlink)
  unfolding db_call Db.delete_record get_record
  call_found h p = (
    ground (arith, h, p),
    ground (arith, h, p),
    ground (arith, h),
    ground (arith, h),
    ground (arith, h),
    ground (arith, h),
  )

  call_absent :
      head_fault w.faults.db ≡ false
      → is_some (get_record id w.tables) ≡ false
      → (call.0 ≡ some none) × IsUntouched w call.1
  unfolding db_call Db.delete_record get_record
  call_absent h p = (
    ground (arith, h, p),
    record {
      rest = record {
        tables = ground (arith, h, p);
        failures = ground (arith, h);
        sent = ground (arith, h);
      };
      disk = ground (arith, h);
    },
  )

  call_failed : head_fault w.faults.db ≡ true → (call.0 ≡ none) × IsUntouched w call.1
  unfolding db_call
  call_failed h = (
    ground (arith, h),
    record {
      rest = record {
        tables = ground (arith, h);
        failures = ground (arith, h);
        sent = ground (arith, h);
      };
      disk = ground (arith, h);
    },
  )

module _ (done absent failed : Response) where
  deleted-some :
      (ids : List Text) (c : Option (Option (List Text)) × World)
      → c.0 ≡ some (some ids)
      → deleted done absent failed c ≡ (done, send_event (delete_files ids c.1))
  unfolding deleted
  deleted-some ids (none, w) h = absurd (ground (arith, h))
  deleted-some ids (some none, w) h = absurd (ground (arith, h))
  deleted-some ids (some (some js), w) h =
      let same : js ≡ ids = ground (arith, h) in
      ap (λ is. (done, send_event (delete_files is w))) same

  deleted-none :
      (c : Option (Option (List Text)) × World)
      → (c.0 ≡ some none → deleted done absent failed c ≡ (absent, c.1))
        × (c.0 ≡ none → deleted done absent failed c ≡ (failed, c.1))
  unfolding deleted
  deleted-none (none, w) = (λ h. absurd (ground (arith, h)), λ h. refl)
  deleted-none (some none, w) = (λ h. refl, λ h. absurd (ground (arith, h)))
  deleted-none (some (some ids), w) =
      (λ h. absurd (ground (arith, h)), λ h. absurd (ground (arith, h)))

  IsRemoved-files :
      (id : Text) (ids : List Text) (w c : World)
      → IsConsistent w.tables
      → ids ≡ attachment_ids (keep (belongs_to id) w.tables.attachments)
      → c.tables ≡ (Db.delete_record id w.tables).1
      → c.disk ≡ w.disk
      → c.sent ≡ w.sent
      → c.failures ≡ w.failures
      → c.faults.unlink ≡ []
      → IsRemoved id w (send_event (delete_files ids c))
  unfolding send_event
  IsRemoved-files id ids w c good same tables disk sent failures quiet =
      let (rest, _, _, stored) = delete_files_lem ids c quiet in
      let at = λ (j : Text). delete_record_lem id j w.tables good in
      let now_tables = rest.tables ∙ tables in
      record {
        row_gone = rw now_tables ((at id).1 ∙ rw (text_eq_refl id) refl);
        attachments_gone = rw now_tables ((at id).2 ∙ rw (text_eq_refl id) refl);
        others =
            λ j ne. (rw now_tables ((at j).1 ∙ rw ne refl), rw now_tables ((at j).2 ∙ rw ne refl));
        files = λ k. stored k ∙ rw (disk, same) refl;
        told = ap (λ n. n + 1) (rest.sent ∙ sent);
        failures = rest.failures ∙ failures;
      }

  -- The call on the database that a delete makes decides between the three responses: the record
  -- was there, and is removed with its attachments and their files; it was not there, or the call
  -- failed, and nothing has changed. No removal of a file is to fail.
  pub deleted_lem :
      (id : Text) (w : World)
      → IsConsistent w.tables
      → w.faults.unlink ≡ []
      → (head_fault w.faults.db ≡ false
          → is_some (get_record id w.tables) ≡ true
          → ((deleted done absent failed (call id w)).0 ≡ done)
            × IsRemoved id w (deleted done absent failed (call id w)).1)
        × (head_fault w.faults.db ≡ false
            → is_some (get_record id w.tables) ≡ false
            → ((deleted done absent failed (call id w)).0 ≡ absent)
              × IsUntouched w (deleted done absent failed (call id w)).1)
        × (head_fault w.faults.db ≡ true
            → ((deleted done absent failed (call id w)).0 ≡ failed)
              × IsUntouched w (deleted done absent failed (call id w)).1)
  deleted_lem id w good quiet = (
    λ h p.
        let (found, tables, disk, sent, failures, unlink) = call_found id w h p in
        let ids = attachment_ids (keep (belongs_to id) w.tables.attachments) in
        rw (deleted-some ids (call id w) found) (
          refl,
          IsRemoved-files id ids w (call id w).1 good refl tables disk sent failures
              (unlink ∙ quiet),
        ),
    λ h p.
        let (missing, same) = call_absent id w h p in
        rw ((deleted-none (call id w)).0 missing) (refl, same),
    λ h.
        let (broken, same) = call_failed id w h in
        rw ((deleted-none (call id w)).1 broken) (refl, same),
  )

-- If the tables are consistent and no removal of a file fails, a delete of a record that is there
-- answers 200 and removes it, its attachments and their files, no other, and sends one event; of
-- one that is not there it answers 404, and 500 where the database fails, and nothing changes.
pub delete_record-IsRemoved :
    (id : Text) (w : World)
    → IsConsistent w.tables
    → w.faults.unlink ≡ []
    → (head_fault w.faults.db ≡ false
        → is_some (get_record id w.tables) ≡ true
        → ((delete_record id w).0.status ≡ 200) × IsRemoved id w (delete_record id w).1)
      × (head_fault w.faults.db ≡ false
          → is_some (get_record id w.tables) ≡ false
          → ((delete_record id w).0.status ≡ 404) × IsUntouched w (delete_record id w).1)
      × (head_fault w.faults.db ≡ true
          → ((delete_record id w).0.status ≡ 500) × IsUntouched w (delete_record id w).1)
unfolding delete_record err_response internal
delete_record-IsRemoved id w good quiet =
    let (a, b, c) = deleted_lem bare_ok record_not_found internal id w good quiet in
    (
      λ h p. (ap (λ r. r.status) (a h p).0, (a h p).1),
      λ h p. (ap (λ r. r.status) (b h p).0, (b h p).1),
      λ h. (ap (λ r. r.status) (c h).0, (c h).1),
    )

-- The page and the API delete alike: from one state they end in the same state.
pub api_delete_record-same :
    (e : Env) (id : Text) (w : World) → (api_delete_record e id w).1 ≡ (delete_record id w).1
unfolding api_delete_record delete_record deleted
api_delete_record-same e id w =
    deleted_state _ _ _ _ _ _ (db_call (writing (Db.delete_record id)) w)
  where
    deleted_state :
        (d a f d' a' f' : Response) (c : Option (Option (List Text)) × World)
        → (deleted d a f c).1 ≡ (deleted d' a' f' c).1
    deleted_state d a f d' a' f' (none, w) = refl
    deleted_state d a f d' a' f' (some none, w) = refl
    deleted_state d a f d' a' f' (some (some ids), w) = refl
