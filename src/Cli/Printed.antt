-- ===== src/Cli/Printed.antt =====
-- What `cmd_get` of src/cli/src/main.rs prints.
use aardbin.Prelude.{
  Bytes, List, Text, [], ap, append-nil, append_assoc, as_bytes, codes, if◌then◌else◌, refl, sym,
  ◌++◌, ◌∙◌, ◌∷◌, ◌≡◌,
}
use aardbin.Cli.Host.{
  Action, ApiAttachmentMeta, ApiRecord, Process, continue, done, println, pure, write_stdout, ◌>>◌,
}
use aardbin.Cli.Commands.{
  attachment_line, print_attachment_lines, print_attachments, print_record, show_i64,
}

abbrev pub line : Text → Bytes
line s = as_bytes (s ++ b'\n' ∷ [])

abbrev pub attachment_lines : List ApiAttachmentMeta → Bytes
attachment_lines [] = []
attachment_lines (a ∷ rest) = line (attachment_line a) ++ attachment_lines rest

abbrev pub attachments_text : List ApiAttachmentMeta → Bytes
attachments_text [] = []
attachments_text (a ∷ rest) = line (codes "Attachments:") ++ attachment_lines (a ∷ rest)

abbrev pub title_line : ApiRecord → Text
title_line r = if r.untitled then codes "(untitled)" else codes "Title: " ++ r.title

abbrev pub record_text : ApiRecord → Bytes
record_text r =
    line (title_line r)
    ++ (line (codes "Updated: " ++ show_i64 r.updated_at)
        ++ (attachments_text r.attachments ++ (line (codes "---") ++ line r.content)))

module _ {S : Type 0} where
  -- The action ends well and prints the bytes.
  pub record Prints (bytes : Bytes) (m : Action S (Unit {0})) : Type 0 where
    pub ends : (p : Process S) → (m p).0 ≡ done tt
    pub prints : (p : Process S) → (m p).1.stdout ≡ p.stdout ++ bytes

  Prints-nil : Prints [] (pure tt)
  Prints-nil = record { ends = λ p. refl; prints = λ p. sym (append-nil p.stdout) }

  Prints-println : (s : Text) → Prints (line s) (println s)
  unfolding write_stdout
  Prints-println s = record { ends = λ p. refl; prints = λ p. refl }

  Prints-then :
      {a b : Bytes} {m k : Action S (Unit {0})} → Prints a m → Prints b k → Prints (a ++ b) (m >> k)
  Prints-then {a} {b} {m} {k} hm hk = record {
    ends = λ p. ap (λ x. (continue (x, (m p).1) (λ _. k)).0) (hm.ends p) ∙ hk.ends (m p).1;
    prints = λ p.
        ap (λ x. (continue (x, (m p).1) (λ _. k)).1.stdout) (hm.ends p)
        ∙ hk.prints (m p).1
        ∙ ap (λ x. x ++ b) (hm.prints p)
        ∙ append_assoc p.stdout a b;
  }

  Prints-attachment_lines :
      (rs : List ApiAttachmentMeta) → Prints (attachment_lines rs) (print_attachment_lines rs)
  unfolding print_attachment_lines
  Prints-attachment_lines [] = Prints-nil
  Prints-attachment_lines (a ∷ rest) =
      Prints-then (Prints-println (attachment_line a)) (Prints-attachment_lines rest)

  Prints-attachments :
      (rs : List ApiAttachmentMeta) → Prints (attachments_text rs) (print_attachments rs)
  unfolding print_attachments
  Prints-attachments [] = Prints-nil
  Prints-attachments (a ∷ rest) =
      Prints-then (Prints-println (codes "Attachments:")) (Prints-attachment_lines (a ∷ rest))

  pub Prints-record : (r : ApiRecord) → Prints (record_text r) (print_record r)
  unfolding print_record
  Prints-record r = Prints-then (Prints-println (title_line r)) (
      Prints-then (Prints-println (codes "Updated: " ++ show_i64 r.updated_at)) (
        Prints-then (Prints-attachments r.attachments)
          (Prints-then (Prints-println (codes "---")) (Prints-println r.content))))
