-- ===== src/Config/Load/Valid.antt =====
-- About init_config and reload_config of src/config.c: the values that they leave.
use inotispy.Prelude.{
  ◌≡◌, refl, ◌∙◌, inl, inr, Bool-cases, Bool, true, false, Option, none, some, ℤ, is_neg, arith, ap,
  if◌then◌else◌,
}
use inotispy.Text.{Text, codes, text_eq}
use inotispy.Config.{Config, conf_group, KeyFile, Files}
use inotispy.Config.Load.{
  given, set_log_syslog, set_log_file, named_level, set_log_level_name, set_logging, set_zmq_uri,
  set_max_inotify_events, set_memclean_freq, set_silent, default_config, config_path, init_with,
  init_config, load_path, reload_with, reload_config,
}
use inotispy.Log.{Logger, init_logger}
use inotispy.Log.Keeps.{is_level}

-- The level is one of the five, and the frequency of the cleanup is not negative.
abbrev pub IsValid : Config → Type 0
IsValid config = (is_level config.log_level ≡ true) × (is_neg config.memclean_freq ≡ false)

-- The values that a reload leaves as they are.
abbrev pub SameLimits : Config → Config → Type 0
SameLimits c d =
    (d.path ≡ c.path)
    × (d.daemon ≡ c.daemon)
    × (d.zmq_uri ≡ c.zmq_uri)
    × (d.max_inotify_events ≡ c.max_inotify_events)
    × (d.memclean_freq ≡ c.memclean_freq)
    × (d.silent ≡ c.silent)
    × (d.zmq_uri_allocated ≡ c.zmq_uri_allocated)

named_level-is_level :
    (name : Text) (level : ℤ) → is_level level ≡ true → is_level (named_level name level) ≡ true
unfolding named_level
named_level-is_level name level h = ground arith

pub given_keeps {ℓ} :
    {A : Type ℓ} (P : Config → Type 0) (o : Option A) (c : Config) (set : A → Config)
    → P c
    → ((a : A) → P (set a))
    → P (given o c set)
given_keeps P none c set h k = h
given_keeps P (some a) c set h k = k a

pub if_keeps : (P : Config → Type 0) (b : Bool) (c d : Config) → P c → P d → P (if b then c else d)
if_keeps P true c d hc hd = hc
if_keeps P false c d hc hd = hd

-- What does not depend on the logging values stays.
pub set_logging_keeps :
    (P : Config → Type 0) (keyfile : KeyFile) (c : Config)
    → ((d : Config) (level : ℤ) (file : Text) (syslog enabled : Bool)
        → P d
        → P (record d {
          log_level = level;
          log_file = file;
          log_syslog = syslog;
          logging_enabled = enabled;
        }))
    → P c
    → P (set_logging keyfile c)
unfolding set_log_syslog set_log_file set_log_level_name
set_logging_keeps P keyfile c keeps h =
    let hf : P (set_log_file keyfile c) =
      given_keeps P (keyfile.get_string conf_group (codes "log_file")) c _ h λ value.
        if_keeps P (text_eq value (codes "false")) _ _
          (keeps c c.log_level c.log_file c.log_syslog false h)
          (keeps c c.log_level value c.log_syslog true h) in
    let c' = set_log_file keyfile c in
    let hl : P (set_log_level_name keyfile c') =
      given_keeps P (keyfile.get_string conf_group (codes "log_level")) c' _ hf λ value.
        keeps c' (named_level value c'.log_level) c'.log_file c'.log_syslog c'.logging_enabled hf in
    let c'' = set_log_level_name keyfile c' in
    given_keeps P (keyfile.get_boolean conf_group (codes "log_syslog")) c'' _ hl
      λ value. keeps c'' c''.log_level c''.log_file value c''.logging_enabled hl

-- What the logging values do not touch, and a level that is one of the five.
abbrev pub Kept : Config → Config → Type 0
Kept c d = SameLimits c d × (is_level d.log_level ≡ true)

set_log_syslog-Kept :
    (keyfile : KeyFile) (c d : Config) → Kept c d → Kept c (set_log_syslog keyfile d)
unfolding set_log_syslog
set_log_syslog-Kept keyfile c d h =
    given_keeps (Kept c) (keyfile.get_boolean conf_group (codes "log_syslog")) d _ h λ value. h

set_log_file-Kept : (keyfile : KeyFile) (c d : Config) → Kept c d → Kept c (set_log_file keyfile d)
unfolding set_log_file
set_log_file-Kept keyfile c d h =
    given_keeps (Kept c) (keyfile.get_string conf_group (codes "log_file")) d _ h
      λ value. if_keeps (Kept c) (text_eq value (codes "false")) _ _ h h

set_log_level_name-Kept :
    (keyfile : KeyFile) (c d : Config) → Kept c d → Kept c (set_log_level_name keyfile d)
unfolding set_log_level_name
set_log_level_name-Kept keyfile c d (same, level) =
    given_keeps (Kept c) (keyfile.get_string conf_group (codes "log_level")) d _ (same, level)
      λ value. (same, named_level-is_level value d.log_level level)

pub set_logging-Kept :
    (keyfile : KeyFile) (c d : Config) → Kept c d → Kept c (set_logging keyfile d)
set_logging-Kept keyfile c d h =
    set_log_syslog-Kept keyfile c _
      (set_log_level_name-Kept keyfile c _ (set_log_file-Kept keyfile c d h))

pub SameLimits-refl : (c : Config) → SameLimits c c
SameLimits-refl c = (refl, refl, refl, refl, refl, refl, refl)

reload_with-Kept :
    (files : Files) (c d : Config) (log : Logger) (keyfile : Option KeyFile)
    → Kept c d
    → Kept c (((reload_with files d log keyfile).1).0)
reload_with-Kept files c d log none h = h
reload_with-Kept files c d log (some keyfile) h = set_logging-Kept keyfile c d h

pub reload_config-Kept :
    (files : Files) (c d : Config) (log : Logger)
    → Kept c d
    → Kept c (((reload_config files d log).1).0)
unfolding reload_config
reload_config-Kept files c d log h = reload_with-Kept files c _ log (load_path files d.path) h

-- The level of log.c is the one of the configuration when init_logger is done.
abbrev pub SameLevel : Config × Logger → Type 0
SameLevel (c, log) = log.log_level ≡ c.log_level

pub init_logger-SameLevel :
    (fopen : Text → Bool) (c : Config) (log : Logger) → SameLevel (c, (init_logger fopen c log).1)
unfolding init_logger
init_logger-SameLevel fopen c log = ground arith

reload_with-SameLevel :
    (files : Files) (c d : Config) (log : Logger) (keyfile : Option KeyFile)
    → log.log_level ≡ d.log_level
    → SameLevel ((reload_with files d log keyfile).1)
reload_with-SameLevel files c d log none h = h
reload_with-SameLevel files c d log (some keyfile) h =
    init_logger-SameLevel files.fopen (set_logging keyfile d) log

pub reload_config-SameLevel :
    (files : Files) (c : Config) (log : Logger)
    → SameLevel (c, log)
    → SameLevel ((reload_config files c log).1)
unfolding reload_config
reload_config-SameLevel files c log h =
    reload_with-SameLevel files c _ log (load_path files c.path) h

set_logging-IsValid : (keyfile : KeyFile) (c : Config) → IsValid c → IsValid (set_logging keyfile c)
set_logging-IsValid keyfile c (level, freq) =
    let (same, level') = set_logging-Kept keyfile c c (SameLimits-refl c, level) in
    (level', ap is_neg (same.4) ∙ freq)

set_zmq_uri-IsValid : (keyfile : KeyFile) (c : Config) → IsValid c → IsValid (set_zmq_uri keyfile c)
unfolding set_zmq_uri
set_zmq_uri-IsValid keyfile c h =
    given_keeps IsValid (keyfile.get_string conf_group (codes "zmq_uri")) c _ h λ value. h

set_max_inotify_events-IsValid :
    (keyfile : KeyFile) (c : Config) → IsValid c → IsValid (set_max_inotify_events keyfile c)
unfolding set_max_inotify_events
set_max_inotify_events-IsValid keyfile c h =
    given_keeps IsValid (keyfile.get_integer conf_group (codes "max_inotify_events")) c _ h
      λ value. h

-- A negative frequency is refused.
set_memclean_freq-IsValid :
    (keyfile : KeyFile) (c : Config) → IsValid c → IsValid (set_memclean_freq keyfile c)
unfolding set_memclean_freq
set_memclean_freq-IsValid keyfile c (level, freq) =
    given_keeps IsValid (keyfile.get_integer conf_group (codes "memclean_freq")) c _ (level, freq)
      λ value. elim (Bool-cases (is_neg value)) [
        | inl neg ↦ rw (neg) (level, freq)
        | inr ok ↦ rw (ok) (level, ok)
      ]

set_silent-IsValid :
    (flag : Bool) (keyfile : KeyFile) (c : Config) → IsValid c → IsValid (set_silent flag keyfile c)
unfolding set_silent
set_silent-IsValid true keyfile c h = h
set_silent-IsValid false keyfile c h =
    given_keeps IsValid (keyfile.get_boolean conf_group (codes "silent")) c _ h λ value. h

-- The values at the start.
init_with-IsValid :
    (files : Files) (flag : Bool) (conf_file : Text) (fresh : Config) (keyfile : Option KeyFile)
    → IsValid ((init_with files flag conf_file (default_config fresh) keyfile).1)
init_with-IsValid files flag conf_file fresh none = (refl, refl)
init_with-IsValid files flag conf_file fresh (some keyfile) = set_silent-IsValid flag keyfile _ (
    set_memclean_freq-IsValid keyfile _ (
      set_max_inotify_events-IsValid keyfile _
        (set_logging-IsValid keyfile _ (set_zmq_uri-IsValid keyfile _ (refl, refl)))))

pub init_config-IsValid :
    (files : Files) (sysconfdir : Text) (flag : Bool) (config_file : Option Text) (fresh : Config)
    → IsValid ((init_config files sysconfdir flag config_file fresh).1)
unfolding init_config
init_config-IsValid files sysconfdir flag config_file fresh =
    let conf_file = config_path sysconfdir config_file in
    init_with-IsValid files flag conf_file fresh (files.load conf_file)
