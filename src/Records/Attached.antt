-- ===== src/Records/Attached.antt =====
-- The attachments that a new record of src/routes.rs or src/api.rs is listed with.
use mathlib.Core.List.{Perm, perm_middle}
use mathlib.Core.List.Perm
use mathlib.Core.Path.{subst}
use aardbin.Prelude.{
  List, Text, [], ap, append-nil, arith, false, keep, map, refl, sym, text_eq_iff, text_eq_refl, ℕ,
  ◌++◌, ◌∙◌, ◌∷◌, ◌≡◌,
}
use aardbin.Db.{
  AttachmentRow, RecordRow, Tables, belongs_to, earlier, find_record, is_some, list_attachments,
}
use aardbin.Db.Order.{order_by-perm}
use aardbin.Db.Integrity.{IsConsistent, Linked}
use aardbin.Form.{PendingUpload}
use aardbin.Form.Fields.{upload_names}
use aardbin.Records.{row_of}
use aardbin.Records.Creation.{attached}

abbrev pub row_names : List AttachmentRow → List Text
row_names rows = map (λ (a : AttachmentRow). a.original_filename) rows

keep-attached :
    (id : Text) (now : ℕ) (us : List PendingUpload) (rows : List AttachmentRow)
    → keep (belongs_to id) (attached id now us rows)
      ≡ attached id now us (keep (belongs_to id) rows)
keep-attached id now [] rows = refl
keep-attached id now (u ∷ us) rows =
    keep-attached id now us (row_of id now u ∷ rows)
    ∙ ap (attached id now us) (ground (arith, text_eq_refl id))

none_belong :
    (id : Text) (records : List RecordRow) (rows : List AttachmentRow)
    → Linked records rows
    → is_some (find_record id records) ≡ false
    → keep (belongs_to id) rows ≡ []
none_belong id records [] l h = refl
none_belong id records (a ∷ rows) l h =
    ground (arith, none_belong id records rows l.1 h, text_eq_iff a.record_id id, l.0)

attached_names :
    (id : Text) (now : ℕ) (us : List PendingUpload) (rows : List AttachmentRow)
    → Perm (row_names (attached id now us rows)) (upload_names us ++ row_names rows)
attached_names id now [] rows = Perm.refl _
attached_names id now (u ∷ us) rows =
    Perm.trans (attached_names id now us (row_of id now u ∷ rows))
      (perm_middle (upload_names us) (row_names rows))

-- A record whose identifier was free is listed with its uploads and no other attachment.
pub list_attachments-attached :
    (id : Text) (now : ℕ) (us : List PendingUpload) (before after : Tables)
    → IsConsistent before
    → is_some (find_record id before.records) ≡ false
    → after.attachments ≡ attached id now us before.attachments
    → Perm (row_names (list_attachments id after)) (upload_names us)
unfolding list_attachments
list_attachments-attached id now us before after good free rows =
    let mine : keep (belongs_to id) after.attachments ≡ attached id now us [] =
      ap (keep (belongs_to id)) rows
      ∙ keep-attached id now us before.attachments
      ∙ ap (attached id now us)
          (none_belong id before.records before.attachments good.linked free) in
    Perm.trans
      (Perm.map (λ (a : AttachmentRow). a.original_filename)
        (order_by-perm earlier (keep (belongs_to id) after.attachments)))
      (subst (λ l. Perm (row_names l) (upload_names us)) (sym mine)
        (subst (Perm (row_names (attached id now us []))) (append-nil (upload_names us))
          (attached_names id now us [])))
