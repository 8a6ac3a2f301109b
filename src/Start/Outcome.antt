-- ===== src/Start/Outcome.antt =====
-- What a start ends in: an exit code, or the state that is served.
use aardbin.Prelude.{
  Bool-cases, Option, Text, [], arith, false, inl, inr, none, refl, some, sym, text_eq, text_eq_iff,
  text_eq_refl, true, ℕ, ◌≡◌,
}
use mathlib.Core.Path.{subst}
use aardbin.Prelude.Dict.{find}
use aardbin.Config
use aardbin.Config.{Config, from_env}
use aardbin.I18n.{Lang}
use aardbin.Views.{View}
use aardbin.App.{Env, World}
use aardbin.Start.Volume.{Volume}
use aardbin.Start.Database.{Connection, file_or_new}
use aardbin.Start.Directories.{dir_or_new}
use aardbin.Start.Renderer.{environment, render_lang_lem}
use aardbin.Start.Main.{
  Machine, Platform, Started, at_dir, ended, exited, prepare, serving, start, state_of, world_of,
}
use aardbin.Start.Ends.{Ends}
use aardbin.Start.Kept.{Kept, Kept-refl, any_fault}
use aardbin.Start.Stages.{IsSound, IsWhole}
use aardbin.Start.Served.{IsPrepared, IsStopped, prepare_lem}

pub at_dir-same : (dir : Text) (v : Volume) (m : Machine) → at_dir dir v m dir ≡ v
unfolding at_dir
at_dir-same dir v m = rw (text_eq_refl dir) refl

pub at_dir-other :
    (dir : Text) (v : Volume) (m : Machine) (d : Text) → ¬ (dir ≡ d) → at_dir dir v m d ≡ m d
unfolding at_dir
at_dir-other dir v m d other = ground (arith, text_eq_iff dir d, other)

-- What holds of the one volume and of all others.
pub at_dir-each :
    (P : Text → Volume → Type 0) (dir : Text) (v : Volume) (m : Machine)
    → P dir v
    → ((d : Text) → P d (m d))
    → (d : Text) → P d (at_dir dir v m d)
at_dir-each P dir v m one all d = elim (Bool-cases (text_eq dir d)) [
  | inl same ↦
      let here = (text_eq_iff dir d).0 same in
      subst (λ x. P x (at_dir dir v m x)) here (subst (P dir) (sym (at_dir-same dir v m)) one)
  | inr other ↦
      subst (P d)
        (sym (at_dir-other dir v m d (λ h. absurd (ground (arith, other, text_eq_iff dir d, h)))))
        (all d)
]

-- The exit code is 1 where a call of a configured start fails; all else ends before any call.
pub record IsExited (p : Platform) (variables : Config.Environment) (m : Machine) (code : ℕ)
    (m' : Machine) : Type 0 where
  pub kept : (dir : Text) → Kept (m dir) (m' dir)
  pub sound : (dir : Text) → IsSound (file_or_new (m' dir).database)
  pub reason :
      (cfg : Config)
      → from_env p.hex_decode variables ≡ Config.ok cfg
      → (code ≡ 1) × IsStopped p cfg (m cfg.data_dir) (m' cfg.data_dir)

pub record IsServing (p : Platform) (variables : Config.Environment) (m : Machine) (e : Env)
    (w : World) (conn : Connection) (m' : Machine) : Type 0 where
  pub cfg : Config
  pub configured : from_env p.hex_decode variables ≡ Config.ok cfg
  pub state : e ≡ state_of p cfg
  pub pages :
      (lang : Lang) (view : View)
      → e.render lang view ≡ p.engine.render (environment p.engine cfg.templates_dir lang) view
  pub rows : w.tables ≡ (file_or_new (m cfg.data_dir).database).tables
  pub files : w.disk.stored ≡ dir_or_new (m cfg.data_dir).attachments
  pub no_temps :
      any_fault (m cfg.data_dir).faults ≡ false → (name : Text) → find name w.disk.tmp ≡ none
  pub no_lockout : w.failures ≡ []
  pub whole : IsWhole (file_or_new (m' cfg.data_dir).database)
  pub sound : (dir : Text) → IsSound (file_or_new (m' dir).database)
  pub constraints_on : conn.foreign_keys ≡ true
  pub elsewhere : (dir : Text) → ¬ (cfg.data_dir ≡ dir) → m' dir ≡ m dir

abbrev pub Starts : Platform → Config.Environment → Machine → Started × Machine → Type 0
Starts p variables m (exited code, m') = IsExited p variables m code m'
Starts p variables m (serving e w conn, m') = IsServing p variables m e w conn m'

module _ (p : Platform) (variables : Config.Environment) (m : Machine)
    (sound : (dir : Text) → IsSound (file_or_new (m dir).database)) where
  ended-Starts :
      (cfg : Config) (r : Option Connection × Volume)
      → from_env p.hex_decode variables ≡ Config.ok cfg
      → Ends (IsPrepared (m cfg.data_dir)) (IsStopped p cfg (m cfg.data_dir)) r
      → Starts p variables m (ended p cfg m r)
  unfolding world_of state_of
  ended-Starts cfg (none, v) configured h = record {
    kept = at_dir-each (λ d x. Kept (m d) x) cfg.data_dir v m h.how.kept (λ d. Kept-refl (m d));
    sound =
        at_dir-each (λ d x. IsSound (file_or_new x.database)) cfg.data_dir v m h.how.sound sound;
    reason = λ given other_h. (
      refl,
      subst (λ c. IsStopped p c (m c.data_dir) (at_dir cfg.data_dir v m c.data_dir))
          (cc (configured, other_h))
          (subst (IsStopped p cfg (m cfg.data_dir)) (sym (at_dir-same cfg.data_dir v m)) h.how),
    );
  }
  ended-Starts cfg (some conn, v) configured h = record {
    cfg = cfg;
    configured = configured;
    state = refl;
    pages = render_lang_lem p.engine cfg.templates_dir;
    rows = h.how.kept.tables;
    files = h.how.kept.stored;
    no_temps = h.how.cleaned;
    no_lockout = refl;
    whole =
        subst (λ x. IsWhole (file_or_new x.database)) (sym (at_dir-same cfg.data_dir v m))
          h.how.whole;
    sound =
        at_dir-each (λ d x. IsSound (file_or_new x.database)) cfg.data_dir v m (inr h.how.whole)
          sound;
    constraints_on = h.how.constraints_on;
    elsewhere = at_dir-other cfg.data_dir v m;
  }

  by_config :
      (r : Config.Result Config)
      → from_env p.hex_decode variables ≡ r
      → Starts p variables m (elim r [
        | Config.err why ↦ (exited 2, m)
        | Config.panic ↦ (exited 101, m)
        | Config.ok cfg ↦ ended p cfg m (prepare p cfg (m cfg.data_dir))
      ])
  by_config (Config.err why) given = record {
    kept = λ d. Kept-refl (m d);
    sound = sound;
    reason = λ cfg h. cc (given, h);
  }
  by_config Config.panic given = record {
    kept = λ d. Kept-refl (m d);
    sound = sound;
    reason = λ cfg h. cc (given, h);
  }
  by_config (Config.ok cfg) given =
      ended-Starts cfg _ given (prepare_lem p cfg (m cfg.data_dir) (sound cfg.data_dir))

-- Take the files of each data directory as earlier starts and the server left them, and whatever
-- calls failing. A start that exits leaves the rows and the attachment files as they were; with a
-- configuration that is accepted its code is 1, and a call has failed, or an earlier start has left
-- the migration halfway, or the address is not free. A start that serves has the configuration of
-- its variables, the rows and the attachment files that it found in the data directory, no temp file
-- unless a call has failed, no failed login counted, the pages of each language from that language's
-- environment, the whole schema, and the constraints of the tables enforced. Other data directories
-- are as they were.
pub start_lem :
    (p : Platform) (variables : Config.Environment) (m : Machine)
    → ((dir : Text) → IsSound (file_or_new (m dir).database))
    → Starts p variables m (start p variables m)
unfolding start
start_lem p variables m sound = by_config p variables m sound (from_env p.hex_decode variables) refl
