-- ===== src/Start/Restart.antt =====
-- A server that is stopped and started again.
use aardbin.Prelude.{
  Bool, List, Text, none, some, [], false, inl, inr, none, refl, some, sym, true, ap, ℕ, ◌∙◌, ◌≡◌,
  ◌⊎◌,
}
use mathlib.Core.Path.{subst}
use aardbin.Prelude.Dict.{find}
use aardbin.Config
use aardbin.Config.{Config, from_env}
use aardbin.Session
use aardbin.Session.{validate}
use aardbin.Session.Token.{validate-key}
use aardbin.App.{Env, World}
use aardbin.Start.Volume.{Volume}
use aardbin.Start.Database.{Connection, file_or_new}
use aardbin.Start.Main.{Machine, Platform, Started, exited, at_dir, serving, start, state_of}
use aardbin.Start.Kept.{any_fault}
use aardbin.Start.Stages.{IsInterrupted, IsSound, IsWhole}
use aardbin.Start.Opening.{whole_start}
use aardbin.Start.Served.{IsStopped}
use aardbin.Start.Directories.{dir_or_new}
use aardbin.Start.Outcome.{at_dir-each, at_dir-same, Starts, start_lem}

-- What a server leaves of its volume that is stopped in the state.
abbrev pub stopped_volume : Volume → World → List Bool → Volume
stopped_volume v w faults = record {
  data_dir = true;
  database = some (record (file_or_new v.database) { tables = w.tables });
  attachments = some w.disk.stored;
  tmp = some w.disk.tmp;
  faults = faults;
}

abbrev pub left_behind : Text → World → List Bool → Machine → Machine
left_behind dir w faults m = at_dir dir (stopped_volume (m dir) w faults) m

pub record IsRestarted (p p' : Platform) (variables : Config.Environment) (e : Env) (m : Machine)
    (w : World) : Type 0 where
  pub e' : Env
  pub w' : World
  pub conn : Connection
  pub m' : Machine
  pub started : start p' variables m ≡ (serving e' w' conn, m')
  pub rows : w'.tables ≡ w.tables
  pub files : w'.disk.stored ≡ w.disk.stored
  pub no_temps : (name : Text) → find name w'.disk.tmp ≡ none
  pub no_lockout : w'.failures ≡ []
  pub sessions :
      e'.cfg.access_key ≡ e.cfg.access_key
      → p'.digest ≡ p.digest
      → (now : ℕ) (value : Text)
      → validate p'.digest e'.sessions now value ≡ validate p.digest e.sessions now value

same_sessions :
    (p p' : Platform) (cfg cfg' : Config)
    → cfg'.access_key ≡ cfg.access_key
    → p'.digest ≡ p.digest
    → (now : ℕ) (value : Text)
    → validate p'.digest (state_of p' cfg').sessions now value
      ≡ validate p.digest (state_of p cfg).sessions now value
unfolding state_of Session.new
same_sessions p p' cfg cfg' key digest now value =
    validate-key p'.digest _ _ (ap (λ k. (Session.new p'.digest k 0 false).key) key) now value
    ∙ ap
        (λ d. validate d (Session.new d cfg.access_key cfg.session_ttl cfg.cookie_secure) now value)
        digest

module _ (p p' : Platform) (variables' : Config.Environment) (e : Env) (m : Machine) (later : World)
    (faults : List Bool) (cfg : Config) (same : e ≡ state_of p cfg)
    (whole : IsWhole (file_or_new (m cfg.data_dir).database)) where
  abbrev u' : Volume
  u' = stopped_volume (m cfg.data_dir) later faults

  abbrev then_there : Machine
  then_there = left_behind cfg.data_dir later faults m

  whole' : IsWhole (file_or_new u'.database)
  whole' = record { declared = whole.declared; versioned = whole.versioned }

  no_stop :
      (cfg' : Config) (x : Volume)
      → p'.can_bind cfg'.listen_addr ≡ true
      → any_fault faults ≡ false
      → ¬ IsStopped p' cfg' u' x
  no_stop cfg' x free fine stop = refused stop.reason
    where
      refused : ¬ (
          (any_fault faults ≡ true)
          ⊎ (IsInterrupted (file_or_new u'.database) ⊎ (p'.can_bind cfg'.listen_addr ≡ false)))
      refused (inl bad) = cc (fine, bad)
      refused (inr (inl halfway)) = whole_start _ whole' halfway
      refused (inr (inr taken)) = cc (free, taken)

  same_volume : (dir : Text) → dir ≡ cfg.data_dir → then_there dir ≡ u'
  same_volume dir here = ap then_there here ∙ at_dir-same cfg.data_dir u' m

  restarted :
      (cfg' : Config)
      → from_env p'.hex_decode variables' ≡ Config.ok cfg'
      → cfg'.data_dir ≡ cfg.data_dir
      → p'.can_bind cfg'.listen_addr ≡ true
      → any_fault faults ≡ false
      → (r : Started × Machine) → start p' variables' then_there ≡ r
      → Starts p' variables' then_there r
      → IsRestarted p p' variables' e then_there later
  unfolding state_of
  restarted cfg' configured here free fine (exited code, n) ran h = absurd (
      no_stop cfg' (n cfg'.data_dir) free fine (
        subst (λ x. IsStopped p' cfg' x (n cfg'.data_dir)) (same_volume cfg'.data_dir here)
          (h.reason cfg' configured).1))
  restarted cfg' configured here free fine (serving e' w' conn, n) ran h =
      let given : h.cfg ≡ cfg' = cc (configured, h.configured) in
      let volume = same_volume h.cfg.data_dir (ap (λ (c : Config). c.data_dir) given ∙ here) in
      record {
        e' = e';
        w' = w';
        conn = conn;
        m' = n;
        started = ran;
        rows = h.rows ∙ ap (λ (x : Volume). (file_or_new x.database).tables) volume;
        files = h.files ∙ ap (λ (x : Volume). dir_or_new x.attachments) volume;
        no_temps = h.no_temps (ap (λ (x : Volume). any_fault x.faults) volume ∙ fine);
        no_lockout = h.no_lockout;
        sessions = λ key digest now value.
            ap (λ x. validate p'.digest x.sessions now value) h.state
            ∙ same_sessions p p' cfg h.cfg
                (sym (ap (λ x. x.cfg.access_key) h.state) ∙ key ∙ ap (λ x. x.cfg.access_key) same)
                digest now value
            ∙ sym (ap (λ x. validate p.digest x.sessions now value) same);
      }

-- A server that was started, and is stopped in whatever state, can be started again, if the
-- configuration is accepted and names the same data directory, the address is free and no call
-- fails. It then serves the rows and the attachment files of that state, with no temp file; the
-- limiter has forgotten all failures; and with the same access key the sessions of before are valid
-- as they were, whatever else of the configuration has changed.
pub start-again :
    (p p' : Platform) (variables variables' : Config.Environment) (m n : Machine) (e : Env)
    (w later : World) (conn : Connection) (faults : List Bool) (cfg' : Config)
    → ((dir : Text) → IsSound (file_or_new (m dir).database))
    → start p variables m ≡ (serving e w conn, n)
    → from_env p'.hex_decode variables' ≡ Config.ok cfg'
    → cfg'.data_dir ≡ e.cfg.data_dir
    → p'.can_bind cfg'.listen_addr ≡ true
    → any_fault faults ≡ false
    → IsRestarted p p' variables' e (left_behind e.cfg.data_dir later faults n) later
unfolding state_of
start-again p p' variables variables' m n e w later conn faults cfg' sound ran configured here free
      fine =
    let first : Starts p variables m (serving e w conn, n) =
      subst (Starts p variables m) ran (start_lem p variables m sound) in
    let dir : e.cfg.data_dir ≡ first.cfg.data_dir = ap (λ (x : Env). x.cfg.data_dir) first.state in
    let there = left_behind first.cfg.data_dir later faults n in
    let again =
      restarted p p' variables' e n later faults first.cfg first.state first.whole cfg' configured
        (here ∙ dir) free fine (start p' variables' there) refl
        (start_lem p' variables' there (
          at_dir-each (λ d x. IsSound (file_or_new x.database)) first.cfg.data_dir
            (stopped_volume (n first.cfg.data_dir) later faults) n
            (inr (whole' p p' variables' e n later faults first.cfg first.state first.whole))
            first.sound)) in
    subst (λ d. IsRestarted p p' variables' e (left_behind d later faults n) later) (sym dir) again
