-- ===== src/App.antt =====
-- The state that the handlers share (src/lib.rs, `AppState`) and its effects. What a call on the
-- database or on a file may do besides its meaning, to fail, is read from the lists of `Faults`,
-- one entry for a call; a list that has run out fails no more.
pub mod Effects
use aardbin.Prelude.{
  Bool, Bytes, List, Option, Text, [], false, if◌then◌else◌, inl, inr, none, refl, some, true, ℕ,
  ◌+◌, ◌∷◌, ◌≡◌, ◌⊎◌,
}
use aardbin.Db
use aardbin.Db.{Tables, AttachmentRow, RecordRow}
use aardbin.Files.{Disk, append_tmp, create_tmp, remove_stored, remove_tmp, rename_tmp}
use aardbin.Ratelimit.{Failures}
use aardbin.Http.{Response}
use aardbin.I18n.{Lang}
use aardbin.Views.{Json, View}
use aardbin.Config.{Config}
use aardbin.Crypto.{Cipher}
use aardbin.Session.{Digest, SessionManager}

-- `true` is a failure.
pub record Faults : Type 0 where
  pub db : List Bool
  pub create : List Bool
  pub write : List Bool
  pub finish : List Bool
  pub unlink : List Bool

pub record World : Type 0 where
  pub tables : Tables
  pub disk : Disk
  pub failures : Failures
  -- the broadcasts on `events`
  pub sent : ℕ
  -- the random values drawn so far
  pub drawn : ℕ
  pub faults : Faults

-- What does not change while the server runs, and what it takes from other crates.
pub record Env : Type 0 where
  pub cfg : Config
  pub cipher : Cipher
  pub digest : Digest
  pub sessions : SessionManager
  -- the values that `Uuid::new_v4` and the random source of the nonces give, in turn
  pub uuid : ℕ → Text
  pub nonce : ℕ → Bytes
  pub mime_from_path : Text → Text
  -- the template engine, `none` where it fails; the serializer; the text of a time
  pub render : Lang → View → Option Text
  pub to_json : Json → Text
  pub format_ts_utc : ℕ → Text

pub data Result {ℓ} (A : Type ℓ) : Type ℓ where
  ok : A → Result A
  err : Response → Result A

pub Result-cases {ℓ} :
    {A : Type ℓ} (r : Result A) → ((a : A) × (r ≡ ok a)) ⊎ ((resp : Response) × (r ≡ err resp))
Result-cases (ok a) = inl (a, refl)
Result-cases (err resp) = inr (resp, refl)

abbrev pub head_fault : List Bool → Bool
head_fault [] = false
head_fault (b ∷ bs) = b

abbrev pub rest_faults : List Bool → List Bool
rest_faults [] = []
rest_faults (b ∷ bs) = bs

-- A call that reads and may write the tables: `none` where the call fails, with nothing written.
unfoldable pub db_call {ℓ} :
    {A : Type ℓ} → (Tables → Option (A × Tables)) → World → Option A × World
db_call f w =
    let w' : World = record w { faults = record (w.faults) { db = rest_faults w.faults.db } } in
    if head_fault w.faults.db
    then (none, w')
    else elim (f w.tables) [ none ↦ (none, w') | some (a, t) ↦ (some a, record w' { tables = t }) ]

-- A statement that only reads.
abbrev pub reading {ℓ} : {A : Type ℓ} → (Tables → A) → Tables → Option (A × Tables)
reading f t = some (f t, t)

-- A statement that writes and gives a result.
abbrev pub writing {ℓ} : {A : Type ℓ} → (Tables → A × Tables) → Tables → Option (A × Tables)
writing f t = some ((f t).0, (f t).1)

-- A statement that a constraint may refuse.
abbrev pub constrained : (Tables → Option Tables) → Tables → Option (Unit {0} × Tables)
constrained f t = elim (f t) [ none ↦ none | some t' ↦ some (tt, t') ]

-- `let _ = s.events.send(())`
unfoldable pub send_event : World → World
send_event w = record w { sent = w.sent + 1 }

-- `begin_upload`: a fresh name and an empty temp file
unfoldable pub begin_upload : Env → World → Option Text × World
begin_upload e w =
    let w' : World = record w {
      drawn = w.drawn + 1;
      faults = record (w.faults) { create = rest_faults w.faults.create };
    } in
    if head_fault w.faults.create
    then (none, w')
    else (some (e.uuid w.drawn), record w' { disk = create_tmp (e.uuid w.drawn) w.disk })

-- `write_all`; what a failed write leaves in the temp file does not matter, since it is removed
unfoldable pub write_chunk : Text → Bytes → World → Bool × World
write_chunk id chunk w =
    let w' : World = record w {
      faults = record (w.faults) { write = rest_faults w.faults.write };
    } in
    if head_fault w.faults.write
    then (false, w')
    else (true, record w' { disk = append_tmp id chunk w.disk })

-- `finalize_upload`: sync, metadata, rename; a failure of any of them leaves the temp file
unfoldable pub finalize_upload : Text → World → Bool × World
finalize_upload id w =
    let w' : World = record w {
      faults = record (w.faults) { finish = rest_faults w.faults.finish };
    } in
    if head_fault w.faults.finish
    then (false, w')
    else (true, record w' { disk = rename_tmp id w.disk })

-- `remove_file`, its error dropped or logged
unfoldable pub abort_upload : Text → World → World
abort_upload id w =
    let w' : World = record w {
      faults = record (w.faults) { unlink = rest_faults w.faults.unlink };
    } in
    if head_fault w.faults.unlink then w' else record w' { disk = remove_tmp id w.disk }

unfoldable pub delete_file : Text → World → World
delete_file id w =
    let w' : World = record w {
      faults = record (w.faults) { unlink = rest_faults w.faults.unlink };
    } in
    if head_fault w.faults.unlink then w' else record w' { disk = remove_stored id w.disk }

unfoldable pub delete_files : List Text → World → World
delete_files [] w = w
delete_files (id ∷ ids) w = delete_files ids (delete_file id w)
