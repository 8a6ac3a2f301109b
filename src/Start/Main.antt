-- ===== src/Start/Main.antt =====
-- `main` of src/main.rs, up to the listener: what ends the process before it serves, and the shared
-- state that it serves else. The crates, and what will fail while it serves, are the `Platform`.
use aardbin.Prelude.{Bool, Bytes, Option, Text, [], if◌then◌else◌, none, some, text_eq, ℕ}
use aardbin.Config
use aardbin.Config.{Config, from_env}
use aardbin.Crypto.{Cipher}
use aardbin.Session
use aardbin.Session.{Digest}
use aardbin.Views.{Json}
use aardbin.App.{Env, Faults, World}
use aardbin.Start.Volume.{Task, Volume, call, doing, pure, ◌>>=◌, ◌>>◌}
use aardbin.Start.Database.{Connection, file_or_new, known_ids, open_db}
use aardbin.Start.Directories.{dir_or_new, make_data_dir, new, orphan_scan}
use aardbin.Start.Renderer.{Engine, new_renderer, render_lang}

pub record Platform : Type 0 where
  pub hex_decode : Text → Option Bytes
  pub cipher : Cipher
  pub digest : Digest
  pub uuid : ℕ → Text
  pub nonce : ℕ → Bytes
  pub mime_from_path : Text → Text
  pub engine : Engine
  pub to_json : Json → Text
  pub format_ts_utc : ℕ → Text
  -- what a connection has before the pragmas
  pub defaults : Connection
  -- whether the address can be bound
  pub can_bind : Text → Bool
  -- the failures of calls after the start
  pub later : Faults

-- `AppState`: what does not change while it is served
unfoldable pub state_of : Platform → Config → Env
unfolding Session.new new_renderer render_lang
state_of p cfg =
    let envs = new_renderer p.engine cfg.templates_dir in
    record {
      cfg = cfg;
      cipher = p.cipher;
      digest = p.digest;
      sessions = Session.new p.digest cfg.access_key cfg.session_ttl cfg.cookie_secure;
      uuid = p.uuid;
      nonce = p.nonce;
      mime_from_path = p.mime_from_path;
      render = render_lang p.engine envs;
      to_json = p.to_json;
      format_ts_utc = p.format_ts_utc;
    }

-- What it shares and changes: the files, a limiter with no address, a channel with no event.
unfoldable pub world_of : Platform → Volume → World
world_of p v = record {
  tables = (file_or_new v.database).tables;
  disk = record { tmp = dir_or_new v.tmp; stored = dir_or_new v.attachments };
  failures = [];
  sent = 0;
  drawn = 0;
  faults = p.later;
}

abbrev pub bound : Platform → Config → Volume → Option (Unit {0} × Volume)
bound p cfg v = if p.can_bind cfg.listen_addr then some (tt, v) else none

unfoldable pub prepare : Platform → Config → Task Connection
unfolding open_db new orphan_scan
prepare p cfg = do
  call (doing make_data_dir)
  conn ← open_db p.defaults
  new
  known ← call known_ids
  orphan_scan known
  call (bound p cfg)
  pure conn

-- A process that ends at once has its exit code, 101 for a panic.
pub data Started : Type 0 where
  exited : ℕ → Started
  serving : Env → World → Connection → Started

-- The volume of each data directory; two paths are two directories.
abbrev pub Machine : Type 0
Machine = Text → Volume

unfoldable pub at_dir : Text → Volume → Machine → Machine
at_dir dir v m d = if text_eq dir d then v else m d

abbrev pub ended : Platform → Config → Machine → Option Connection × Volume → Started × Machine
ended p cfg m (none, v) = (exited 1, at_dir cfg.data_dir v m)
ended p cfg m (some conn, v) =
    (serving (state_of p cfg) (world_of p v) conn, at_dir cfg.data_dir v m)

unfoldable pub start : Platform → Config.Environment → Machine → Started × Machine
unfolding prepare
start p variables m = elim (from_env p.hex_decode variables) [
  | Config.err why ↦ (exited 2, m)
  | Config.panic ↦ (exited 101, m)
  | Config.ok cfg ↦ ended p cfg m (prepare p cfg (m cfg.data_dir))
]
