-- ===== src/Config/Load.antt =====
-- init_config and reload_config of src/config.c, with the functions that set one value each. What is
-- printed to stderr is left out.
pub mod Valid
pub mod Silent
pub mod Uri
use inotispy.Prelude.{Bool, true, false, Option, none, some, ◌++◌, ℤ, is_neg, if◌then◌else◌}
use inotispy.Text.{Text, codes, text_eq}
use inotispy.Config.{Config, conf_group, KeyFile, Files, get_mtime}
use inotispy.Log.{
  log_level_error, log_level_warn, log_level_notice, log_level_debug, log_level_trace, Logger,
  init_logger,
}

-- A value that the file gives is set; one that cannot be read leaves the configuration as it is.
abbrev pub given {ℓ} : {A : Type ℓ} → Option A → Config → (A → Config) → Config
given none config set = config
given (some value) config set = set value

unfoldable pub set_log_syslog : KeyFile → Config → Config
set_log_syslog keyfile config =
    given (keyfile.get_boolean conf_group (codes "log_syslog")) config
      λ value. record config { log_syslog = value }

unfoldable pub set_log_file : KeyFile → Config → Config
unfolding text_eq
set_log_file keyfile config =
    given (keyfile.get_string conf_group (codes "log_file")) config λ value.
      if text_eq value (codes "false")
      then record config { logging_enabled = false }
      else record config { logging_enabled = true; log_file = value }

-- The level that a name stands for; `level` where it is no name.
unfoldable pub named_level : Text → ℤ → ℤ
unfolding text_eq
named_level name level =
    if text_eq name (codes "trace")
    then log_level_trace
    else if text_eq name (codes "debug")
    then log_level_debug
    else if text_eq name (codes "notice")
    then log_level_notice
    else if text_eq name (codes "warn")
    then log_level_warn
    else if text_eq name (codes "error")
    then log_level_error
    else level

unfoldable pub set_log_level_name : KeyFile → Config → Config
unfolding named_level
set_log_level_name keyfile config =
    given (keyfile.get_string conf_group (codes "log_level")) config
      λ value. record config { log_level = named_level value config.log_level }

-- The three calls that init_config and reload_config both make.
abbrev pub set_logging : KeyFile → Config → Config
set_logging keyfile config =
    set_log_syslog keyfile (set_log_level_name keyfile (set_log_file keyfile config))

unfoldable pub set_zmq_uri : KeyFile → Config → Config
set_zmq_uri keyfile config =
    given (keyfile.get_string conf_group (codes "zmq_uri")) config
      λ value. record config { zmq_uri = value; zmq_uri_allocated = true }

unfoldable pub set_max_inotify_events : KeyFile → Config → Config
set_max_inotify_events keyfile config =
    given (keyfile.get_integer conf_group (codes "max_inotify_events")) config
      λ value. record config { max_inotify_events = value }

unfoldable pub set_memclean_freq : KeyFile → Config → Config
set_memclean_freq keyfile config =
    given (keyfile.get_integer conf_group (codes "memclean_freq")) config
      λ value. if is_neg value then config else record config { memclean_freq = value }

-- The flag of the command line comes first.
unfoldable pub set_silent : Bool → KeyFile → Config → Config
set_silent true keyfile config = record config { silent = true }
set_silent false keyfile config =
    given (keyfile.get_boolean conf_group (codes "silent")) config
      λ value. record config { silent = value }

-- The values at the start, in a struct that is not cleared.
abbrev pub default_config : Config → Config
default_config fresh = record fresh {
  zmq_uri = codes "tcp://*:5559";
  zmq_uri_allocated = false;
  log_level = log_level_notice;
  log_syslog = false;
  max_inotify_events = ℤ.pos 65536;
  memclean_freq = ℤ.pos 600;
  silent = false;
  logging_enabled = true;
  log_file = codes "/var/log/inotispy.log";
}

-- The formats "%s" and "%s/%s", with INOTISPY_SYSCONFDIR of the build.
abbrev pub config_path : Text → Option Text → Text
config_path sysconfdir none = sysconfdir ++ codes "/inotispy.conf"
config_path sysconfdir (some config_file) = config_file

abbrev pub read_config : Files → Bool → Text → KeyFile → Config → Config
read_config files flag conf_file keyfile config = set_silent flag keyfile (
    set_memclean_freq keyfile (
      set_max_inotify_events keyfile (
        set_logging keyfile (
          set_zmq_uri keyfile
            (record config { path = some conf_file; mtime = get_mtime files (some conf_file) })))))

-- Without a key file the struct has no path, and the other fields keep what they have.
abbrev pub init_with : Files → Bool → Text → Config → Option KeyFile → Bool × Config
init_with files flag conf_file config none = (false, record config { path = none })
init_with files flag conf_file config (some keyfile) =
    (true, read_config files flag conf_file keyfile config)

-- The result is true where the C code returns 0; `fresh` is what g_slice_new hands out.
unfoldable pub init_config : Files → Text → Bool → Option Text → Config → Bool × Config
unfolding get_mtime set_log_syslog set_log_file set_log_level_name set_zmq_uri
    set_max_inotify_events set_memclean_freq set_silent
init_config files sysconfdir flag config_file fresh =
    let conf_file = config_path sysconfdir config_file in
    init_with files flag conf_file (default_config fresh) (files.load conf_file)

-- g_key_file_load_from_file of a path, which may be NULL.
abbrev pub load_path : Files → Option Text → Option KeyFile
load_path files none = none
load_path files (some path) = files.load path

-- The result of init_logger is not looked at.
abbrev pub reload_with : Files → Config → Logger → Option KeyFile → Bool × (Config × Logger)
reload_with files config log none = (false, (config, log))
reload_with files config log (some keyfile) =
    let config = set_logging keyfile config in
    (true, (config, (init_logger files.fopen config log).1))

unfoldable pub reload_config : Files → Config → Logger → Bool × (Config × Logger)
unfolding get_mtime set_log_syslog set_log_file set_log_level_name init_logger
reload_config files config log =
    reload_with files (record config { mtime = get_mtime files config.path }) log
      (load_path files config.path)
