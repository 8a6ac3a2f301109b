-- ===== src/Views.antt =====
-- What src/routes.rs hands to the templates and src/api.rs to `serde_json`. The template engine
-- and the serializer are other crates': parameters of the model, which take these values.
use aardbin.Prelude.{Bool, List, Option, Text, pos, ℕ}
use aardbin.Db.{AttachmentRow}
use aardbin.Files.{human_size}

pub record RecordView : Type 0 where
  pub id : Text
  pub title : Text
  pub untitled : Bool
  pub snippet_text : Text
  pub updated_ts : ℕ
  pub updated_text : Text
  pub attachment_count : ℕ
  pub first_attachment_name : Text
  pub first_attachment_id : Text
  pub extra_attachments : ℕ
  pub undecryptable : Bool

pub record ListView : Type 0 where
  pub lang : Text
  pub records : List RecordView
  pub page : ℕ
  pub total_pages : ℕ
  pub has_prev : Bool
  pub has_next : Bool
  pub total : ℕ

pub record AttachmentView : Type 0 where
  pub id : Text
  pub record_id : Text
  pub original_filename : Text
  pub size_text : Text

pub record FormView : Type 0 where
  pub lang : Text
  pub mode : Text
  pub action : Text
  pub id : Text
  pub title : Text
  pub content : Text
  pub attachments : List AttachmentView
  pub max_attachment_human : Text
  pub max_attachment_bytes : ℕ
  pub max_attachments : ℕ

unfoldable pub attachment_view : AttachmentRow → AttachmentView
attachment_view a = record {
  id = a.id;
  record_id = a.record_id;
  original_filename = a.original_filename;
  size_text = human_size (pos a.size_bytes);
}

-- A template with its context.
pub data View : Type 0 where
  login_page : Text → Option Text → View
  list_page records_part : ListView → View
  form_page : FormView → View
  attachments_part : Text → List AttachmentView → View

pub record ApiAttachmentMeta : Type 0 where
  pub id : Text
  pub original_filename : Text
  pub size_bytes : ℕ
  pub mime_type : Text

pub record ApiRecord : Type 0 where
  pub id : Text
  pub title : Text
  pub content : Text
  pub untitled : Bool
  pub updated_at : ℕ
  pub created_at : ℕ
  pub attachments : List ApiAttachmentMeta

pub record ApiRecordSummary : Type 0 where
  pub id : Text
  pub title : Text
  pub untitled : Bool
  pub snippet_text : Text
  pub updated_at : ℕ
  pub attachment_count : ℕ

pub record ApiListResponse : Type 0 where
  pub records : List ApiRecordSummary
  pub page : ℕ
  pub page_size : ℕ
  pub total : ℕ
  pub total_pages : ℕ

-- A value that becomes a JSON body.
pub data Json : Type 0 where
  error_json : Text → Json
  created_json : Text → Json
  deleted_json : Json
  record_json : ApiRecord → Json
  list_json : ApiListResponse → Json
