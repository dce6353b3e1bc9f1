-- ===== src/Main/Settled.antt =====
-- About the configuration and the log of a running daemon: alarm_handler of src/main.c over time.
use inotispy.Prelude.{
  ◌≡◌, subst, ◌∙◌, ap, Bool, Option, some, ℤ, is_neg, OnSome, OnSome-bind, OnSome-map, OnSome-if,
  OnSome-use,
}
use inotispy.Text.{Text}
use inotispy.Config.{Config, Files, config_has_an_update}
use inotispy.Config.Load.{init_config, reload_config}
use inotispy.Config.Load.Valid.{
  IsValid, SameLimits, SameLimits-refl, Kept, SameLevel, reload_config-Kept,
  reload_config-SameLevel, init_logger-SameLevel, init_config-IsValid,
}
use inotispy.Log.{log_level_warn, log_level_notice, Logger, log_msg, set_log_level, init_logger}
use inotispy.Log.Keeps.{SameStatics, log_msg-SameStatics, set_log_level-level}
use inotispy.Main.{reloaded_text, not_reloaded_text, after_reload, after_failure, update_config}

-- What the configuration and the log can become after init_config and init_logger: `c₀` is the
-- configuration that init_config left.
pub data Settled (c₀ : Config) : Config → Logger → Type 0 where
  starts :
      (files : Files) (sysconfdir : Text) (flag : Bool) (config_file : Option Text) (fresh : Config)
      (log : Logger)
      → (init_config files sysconfdir flag config_file fresh).1 ≡ c₀
      → Settled c₀ c₀ ((init_logger files.fopen c₀ log).1)
  updates :
      {c c' : Config} {log log' : Logger} (files : Files) (now : Text)
      → Settled c₀ c log
      → update_config files now c log ≡ some (c', log')
      → Settled c₀ c' log'

message-SameLevel :
    (now : Text) (c : Config) (log : Logger) (level : ℤ) (msg : Text)
    → SameLevel (c, log)
    → OnSome (λ l. SameLevel (c, l)) (log_msg c now level msg log)
message-SameLevel now c log level msg h =
    OnSome-map (SameStatics log) (λ l. SameLevel (c, l)) _ (λ l same. same.0 ∙ h)
      (log_msg-SameStatics c now level msg log)

-- What a running daemon keeps.
abbrev pub KeptBy : Config → Config × Logger → Type 0
KeptBy c₀ (c, log) = Kept c₀ c × SameLevel (c, log)

after_reload-SameLevel :
    (now : Text) (c : Config) (log : Logger)
    → SameLevel (c, log)
    → OnSome (λ l. SameLevel (c, l)) (after_reload now c log)
unfolding after_reload
after_reload-SameLevel now c log h =
    OnSome-bind (λ l. SameLevel (c, l)) (λ l. SameLevel (c, l))
      (set_log_level c now c.log_level log) _ (set_log_level-level c now c.log_level log h)
      λ l e. message-SameLevel now c l log_level_notice reloaded_text e

after_failure-SameLevel :
    (now : Text) (c : Config) (log : Logger)
    → SameLevel (c, log)
    → OnSome (λ l. SameLevel (c, l)) (after_failure now c log)
unfolding after_failure
after_failure-SameLevel now c log h = message-SameLevel now c log log_level_warn not_reloaded_text h

update_config-KeptBy :
    (files : Files) (now : Text) (c₀ c : Config) (log : Logger)
    → KeptBy c₀ (c, log)
    → OnSome (KeptBy c₀) (update_config files now c log)
unfolding update_config
update_config-KeptBy files now c₀ c log (kept, level) =
    let reloaded = reload_config files c log in
    let c' = (reloaded.1).0 in
    let log' = (reloaded.1).1 in
    OnSome-if (KeptBy c₀) (config_has_an_update files c) _ _
      (OnSome-bind (λ l. SameLevel (c', l)) (KeptBy c₀) _ _
        (OnSome-if (λ l. SameLevel (c', l)) (reloaded.0) _ _
          (after_reload-SameLevel now c' log' (reload_config-SameLevel files c log level))
          (after_failure-SameLevel now c' log' (reload_config-SameLevel files c log level)))
        λ l e. (reload_config-Kept files c₀ c log kept, e))
      (kept, level)

Settled-KeptBy : {c₀ c : Config} {log : Logger} → Settled c₀ c log → IsValid c₀ × KeptBy c₀ (c, log)
Settled-KeptBy {c₀} (starts files sysconfdir flag config_file fresh log e) =
    let valid = subst IsValid e (init_config-IsValid files sysconfdir flag config_file fresh) in
    (valid, ((SameLimits-refl c₀, valid.0), init_logger-SameLevel files.fopen c₀ log))
Settled-KeptBy {c₀} (updates {c} {c'} {log} {log'} files now h e) =
    let (valid, kept) = Settled-KeptBy h in
    (valid, OnSome-use (KeptBy c₀) (update_config-KeptBy files now c₀ c log kept) e)

-- At every moment of a daemon after init_config and init_logger, whatever updates of its
-- configuration file it has read: the path of the file, the URI and whether it is allocated, the
-- limit of events, the frequency of the cleanup and the silent mode are those that init_config
-- left; the frequency is not negative; the level is one from ERROR to TRACE, and it is the level
-- of the log.
pub Settled-SameLimits :
    (c₀ c : Config) (log : Logger)
    → Settled c₀ c log
    → SameLimits c₀ c × IsValid c × (log.log_level ≡ c.log_level)
Settled-SameLimits c₀ c log h =
    let (valid, kept) = Settled-KeptBy h in
    ((kept.0).0, ((kept.0).1, ap is_neg ((kept.0).0.4) ∙ valid.1), kept.1)
