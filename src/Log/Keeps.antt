-- ===== src/Log/Keeps.antt =====
-- About log_msg and set_log_level of src/log.c: what they leave of the statics, and when they return.
use inotispy.Prelude.{
  ◌≡◌, refl, Bool, true, false, not, ◌&&◌, Option, none, some, is_some, ℤ, lt_ℤ, OnSome,
  OnSome-bind, OnSome-map, OnSome-if, is_some-if, is_some-bind, ◌∙◌, if◌then◌else◌,
}
use inotispy.Text.{Text}
use inotispy.Config.{Config}
use inotispy.Log.{
  log_level_warn, log_level_error, log_level_trace, Logger, log_line, write_to, send_syslog,
  invalid_level, log_msg, set_log_level,
}

-- From LOG_LEVEL_ERROR to LOG_LEVEL_TRACE.
abbrev pub is_level : ℤ → Bool
is_level level = not (lt_ℤ level log_level_error) && not (lt_ℤ log_level_trace level)

abbrev pub SameStatics : Logger → Logger → Type 0
SameStatics l l' = (l'.log_level ≡ l.log_level) × (l'.logger ≡ l.logger) × (l'.logmask ≡ l.logmask)

if_log : (P : Logger → Type 0) (b : Bool) (l l' : Logger) → P l → P l' → P (if b then l else l')
if_log P true l l' h h' = h
if_log P false l l' h h' = h'

write_to-SameStatics :
    (log : Logger) (line : Text) (file : Option Text)
    → OnSome (SameStatics log) (write_to log line file)
write_to-SameStatics log line none = tt
write_to-SameStatics log line (some file) = (refl, refl, refl)

pub log_msg-SameStatics :
    (config : Config) (now : Text) (level : ℤ) (msg : Text) (log : Logger)
    → OnSome (SameStatics log) (log_msg config now level msg log)
unfolding log_msg send_syslog
log_msg-SameStatics config now level msg log =
    OnSome-if (SameStatics log) (lt_ℤ log.log_level level) _ _ (refl, refl, refl)
      (OnSome-bind (SameStatics log) (SameStatics log) _ _
        (OnSome-if (SameStatics log) config.logging_enabled _ _
          (write_to-SameStatics log (log_line now level msg) log.logger) (refl, refl, refl))
        λ l h.
          if_log (SameStatics log) config.log_syslog _ _ (if_log (SameStatics log) _ _ _ h h) h)

-- The level is set, or it is refused with a warning.
pub set_log_level-level :
    (config : Config) (now : Text) (level : ℤ) (log : Logger)
    → log.log_level ≡ level
    → OnSome (λ l. l.log_level ≡ level) (set_log_level config now level log)
unfolding set_log_level
set_log_level-level config now level log h =
    OnSome-if (λ l. l.log_level ≡ level) (is_level level) _ _ refl
      (OnSome-map (SameStatics log) (λ l. l.log_level ≡ level) _ (λ l same. same.0 ∙ h)
        (log_msg-SameStatics config now log_level_warn (invalid_level level) log))

write_to_returns :
    (log : Logger) (line : Text) (file : Option Text)
    → is_some file ≡ true
    → is_some (write_to log line file) ≡ true
write_to_returns log line none h = h
write_to_returns log line (some file) h = refl

-- A message is written if the log file is open.
pub log_msg_returns :
    (config : Config) (now : Text) (level : ℤ) (msg : Text) (log : Logger)
    → is_some log.logger ≡ true
    → is_some (log_msg config now level msg log) ≡ true
unfolding log_msg
log_msg_returns config now level msg log is_open = is_some-if (lt_ℤ log.log_level level) _ _ refl (
    is_some-bind (SameStatics log) _ _
      (is_some-if config.logging_enabled _ _ (write_to_returns log _ log.logger is_open) refl)
      (OnSome-if (SameStatics log) config.logging_enabled _ _
        (write_to-SameStatics log _ log.logger) (refl, refl, refl))
      λ l same. refl)
