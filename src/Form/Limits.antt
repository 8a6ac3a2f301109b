-- ===== src/Form/Limits.antt =====
-- The limits of `parse_record_form` of src/routes.rs on a form that it accepts.
use aardbin.Prelude.{All, List, Text, [], as_bytes, length, ℕ, ◌+◌, ◌∷◌, ◌≡◌, ◌≤◌}
use aardbin.Config.{max_attachments_per_record}
use aardbin.App.{Env}
use aardbin.Form.{PendingUpload, Progress}

pub sum_sizes : List PendingUpload → ℕ
sum_sizes [] = 0
sum_sizes (u ∷ us) = u.size + sum_sizes us

module _ (e : Env) where
  -- What the program keeps of a form, against the limits of the configuration.
  pub record IsWithin (title content : Text) (uploads : List PendingUpload) : Type 0 where
    pub title_short : length title ≤ 201
    pub content_fits : length (as_bytes content) ≤ e.cfg.max_content_bytes
    pub files_fit : All (λ u. u.size ≤ e.cfg.max_attachment_bytes) uploads
    pub files_few : length uploads ≤ max_attachments_per_record
    pub sum_fits : length (as_bytes content) + sum_sizes uploads ≤ e.cfg.max_request_bytes

  record IsBounded (p : Progress) : Type 0 where
    within : IsWithin p.title p.content p.uploads
    counted : length p.uploads ≡ p.attachment_count
    kept : length (as_bytes p.content) + sum_sizes p.uploads ≤ p.total_bytes
