-- ===== src/Main/Updates.antt =====
-- About one update of the configuration in alarm_handler of src/main.c.
use inotispy.Prelude.{
  ◌≡◌, refl, sym, ◌∙◌, ap, subst, true, false, Option, none, some, is_some, ℤ, lt_ℤ, int_eq, arith,
  OnSome, OnSome-map, OnSome-if, OnSome-use, is_some-if, is_some-bind, ◌>>=◌, if◌then◌else◌,
  Bool-cases, inl, inr,
}
use inotispy.Text.{Text}
use inotispy.Config.{Config, KeyFile, Files, get_mtime, config_has_an_update}
use inotispy.Config.Load.{load_path, reload_with, reload_config}
use inotispy.Config.Load.Valid.{set_logging_keeps}
use inotispy.Log.{
  log_level_warn, log_level_notice, Logger, log_msg, init_logger, invalid_level, set_log_level,
}
use inotispy.Log.Keeps.{is_level, SameStatics, log_msg-SameStatics, log_msg_returns}
use inotispy.Main.{reloaded_text, after_reload, update_config}

-- The time of the configuration is that of its file.
abbrev UpToDate : Files → Config → Type 0
UpToDate files c = c.mtime ≡ get_mtime files c.path

not_newer : (t : ℤ) → (if int_eq t (ℤ.pos 0) then false else lt_ℤ t t) ≡ false
not_newer t = ground arith

no_update : (files : Files) (c : Config) → UpToDate files c → config_has_an_update files c ≡ false
unfolding config_has_an_update
no_update files c h =
    subst (λ z. (if int_eq c.mtime (ℤ.pos 0) then false else lt_ℤ c.mtime z) ≡ false) h
      (not_newer c.mtime)

reload_with-UpToDate :
    (files : Files) (c : Config) (log : Logger) (keyfile : Option KeyFile)
    → UpToDate files c
    → UpToDate files (((reload_with files c log keyfile).1).0)
reload_with-UpToDate files c log none h = h
reload_with-UpToDate files c log (some keyfile) h =
    set_logging_keeps (UpToDate files) keyfile c (λ d level file syslog enabled e. e) h

reload_config-UpToDate :
    (files : Files) (c : Config) (log : Logger) → UpToDate files (((reload_config files c log).1).0)
unfolding reload_config
reload_config-UpToDate files c log = reload_with-UpToDate files _ log (load_path files c.path) refl

bind_first :
    (o : Option Logger) (c : Config) (P : Config → Type 0)
    → P c
    → OnSome {A = Config × Logger} (λ r. P (r.0)) (o >>= λ log. some (c, log))
bind_first none c P h = tt
bind_first (some log) c P h = h

update_config_once_on :
    (files : Files) (now : Text) (c : Config) (log : Logger)
    → OnSome (λ r. config_has_an_update files (r.0) ≡ false) (update_config files now c log)
unfolding update_config
update_config_once_on files now c log = elim (Bool-cases (config_has_an_update files c)) [
  | inl has ↦ rw (has) (
      bind_first _ (((reload_config files c log).1).0) (λ d. config_has_an_update files d ≡ false)
        (no_update files (((reload_config files c log).1).0) (reload_config-UpToDate files c log)))
  | inr none_yet ↦ rw (none_yet) none_yet
]

-- After an update that returns, whether the configuration was loaded again or not, the same files
-- have no update for it.
pub update_config_once :
    (files : Files) (now : Text) (c c' : Config) (log log' : Logger)
    → update_config files now c log ≡ some (c', log')
    → config_has_an_update files c' ≡ false
update_config_once files now c c' log log' e =
    OnSome-use (λ r. config_has_an_update files (r.0) ≡ false)
      (update_config_once_on files now c log) e

-- The log file is open.
abbrev pub IsOpen : Logger → Type 0
IsOpen log = is_some log.logger ≡ true

message-IsOpen :
    (c : Config) (now : Text) (level : ℤ) (msg : Text) (log : Logger)
    → IsOpen log
    → OnSome IsOpen (log_msg c now level msg log)
message-IsOpen c now level msg log h =
    OnSome-map (SameStatics log) IsOpen _ (λ l same. ap is_some (same.1) ∙ h)
      (log_msg-SameStatics c now level msg log)

set_log_level-IsOpen :
    (c : Config) (now : Text) (level : ℤ) (log : Logger)
    → IsOpen log
    → OnSome IsOpen (set_log_level c now level log)
unfolding set_log_level
set_log_level-IsOpen c now level log h =
    OnSome-if IsOpen (is_level level) _ _ h
      (message-IsOpen c now log_level_warn (invalid_level level) log h)

set_log_level_returns :
    (c : Config) (now : Text) (level : ℤ) (log : Logger)
    → IsOpen log
    → is_some (set_log_level c now level log) ≡ true
unfolding set_log_level
set_log_level_returns c now level log h =
    is_some-if (is_level level) _ _ refl
      (log_msg_returns c now log_level_warn (invalid_level level) log h)

is_some-result :
    (o : Option Logger) (c : Config)
    → is_some o ≡ true
    → is_some {A = Config × Logger} (o >>= λ log. some (c, log)) ≡ true
is_some-result none c h = h
is_some-result (some log) c h = refl

after_reload_returns :
    (now : Text) (c : Config) (log : Logger) → IsOpen log → is_some (after_reload now c log) ≡ true
unfolding after_reload
after_reload_returns now c log h =
    is_some-bind IsOpen _ _ (set_log_level_returns c now c.log_level log h)
      (set_log_level-IsOpen c now c.log_level log h)
      λ l open_log. log_msg_returns c now log_level_notice reloaded_text l open_log

reload_with-IsOpen :
    (files : Files) (c : Config) (log : Logger) (keyfile : Option KeyFile)
    → (reload_with files c log keyfile).0 ≡ true
    → files.fopen (((reload_with files c log keyfile).1.0).log_file) ≡ true
    → IsOpen ((reload_with files c log keyfile).1.1)
unfolding init_logger
reload_with-IsOpen files c log none h opens = cc
reload_with-IsOpen files c log (some keyfile) h opens = rw (opens) refl

reload_config-IsOpen :
    (files : Files) (c : Config) (log : Logger)
    → (reload_config files c log).0 ≡ true
    → files.fopen (((reload_config files c log).1.0).log_file) ≡ true
    → IsOpen ((reload_config files c log).1.1)
unfolding reload_config
reload_config-IsOpen files c log = reload_with-IsOpen files _ log (load_path files c.path)

reload_with-closed :
    (files : Files) (c : Config) (log : Logger) (keyfile : Option KeyFile)
    → (reload_with files c log keyfile).0 ≡ true
    → files.fopen (((reload_with files c log keyfile).1.0).log_file) ≡ false
    → (reload_with files c log keyfile).1.1.logger ≡ none
unfolding init_logger
reload_with-closed files c log none h closed = cc
reload_with-closed files c log (some keyfile) h closed = rw (closed) refl

reload_config-closed :
    (files : Files) (c : Config) (log : Logger)
    → (reload_config files c log).0 ≡ true
    → files.fopen (((reload_config files c log).1.0).log_file) ≡ false
    → (reload_config files c log).1.1.logger ≡ none
unfolding reload_config
reload_config-closed files c log = reload_with-closed files _ log (load_path files c.path)

-- A message that is to be written, without a log file.
after_reload-none :
    (now : Text) (c : Config) (log : Logger)
    → log.logger ≡ none
    → c.logging_enabled ≡ true
    → is_level c.log_level ≡ true
    → lt_ℤ c.log_level log_level_notice ≡ false
    → after_reload now c log ≡ none
unfolding after_reload set_log_level log_msg
after_reload-none now c log closed enabled ok high = rw (ok, high, enabled, closed) refl

module _ (files : Files) (now : Text) (c : Config) (log : Logger) where
  -- The configuration after the reload.
  abbrev pub reloaded : Config
  reloaded = (reload_config files c log).1.0

  update_config_unopened :
      config_has_an_update files c ≡ true
      → (reload_config files c log).0 ≡ true
      → reloaded.logging_enabled ≡ true
      → is_level reloaded.log_level ≡ true
      → lt_ℤ reloaded.log_level log_level_notice ≡ false
      → files.fopen reloaded.log_file ≡ false
      → update_config files now c log ≡ none
  unfolding update_config
  update_config_unopened has loads enabled ok high closed =
      rw
        (
          has,
          loads,
          after_reload-none now reloaded ((reload_config files c log).1.1)
              (reload_config-closed files c log loads closed) enabled ok high,
        )
        refl

  update_config_opened :
      config_has_an_update files c ≡ true
      → (reload_config files c log).0 ≡ true
      → files.fopen reloaded.log_file ≡ true
      → is_some (update_config files now c log) ≡ true
  unfolding update_config
  update_config_opened has loads opens =
      rw (has, loads)
        (is_some-result _ reloaded (
          after_reload_returns now reloaded ((reload_config files c log).1.1)
            (reload_config-IsOpen files c log loads opens)))

  -- If the configuration file has an update that loads, and the log that it asks for is enabled
  -- at one of the levels from NOTICE on: the update returns exactly if the log file can be
  -- opened, and otherwise writes through a null pointer.
  pub update_config_ends :
      config_has_an_update files c ≡ true
      → (reload_config files c log).0 ≡ true
      → reloaded.logging_enabled ≡ true
      → is_level reloaded.log_level ≡ true
      → lt_ℤ reloaded.log_level log_level_notice ≡ false
      → is_some (update_config files now c log) ≡ files.fopen reloaded.log_file
  update_config_ends has loads enabled ok high = elim (Bool-cases (files.fopen reloaded.log_file)) [
    | inl opens ↦ update_config_opened has loads opens ∙ sym opens
    | inr closed ↦ ap is_some (update_config_unopened has loads enabled ok high closed) ∙ sym closed
  ]
