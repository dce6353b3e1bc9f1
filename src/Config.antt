-- ===== src/Config.antt =====
-- src/config.h and the reading parts of src/config.c: the struct CONFIG, and what it is compared
-- with. GKeyFile and the file system are arguments. The writing parts are in the modules below.
pub mod Load
pub mod Print
use inotispy.Prelude.{Bool, false, Option, none, some, ℤ, int_eq, if◌then◌else◌, lt_ℤ}
use inotispy.Text.{Text, codes}

-- struct inotispy_config; a time is in seconds, and `none` is a path of NULL. Of the pointer
-- zmq_uri it also says whether it is memory of mk_string, and not the literal ZMQ_URI.
pub record Config : Type 0 where
  pub path : Option Text
  pub mtime : ℤ
  pub daemon : ℤ
  pub zmq_uri : Text
  pub zmq_uri_allocated : Bool
  pub log_level : ℤ
  pub log_file : Text
  pub log_syslog : Bool
  pub logging_enabled : Bool
  pub max_inotify_events : ℤ
  pub memclean_freq : ℤ
  pub silent : Bool

-- CONF_GROUP
abbrev pub conf_group : Text
conf_group = codes "global"

-- CONF_DUMP_FILE
abbrev pub conf_dump_file : Text
conf_dump_file = codes "/var/run/inotispy/config.dump"

-- A key file that has been loaded: the values by group and key; `none` is an error.
pub record KeyFile : Type 0 where
  pub get_string : Text → Text → Option Text
  pub get_integer : Text → Text → Option ℤ
  pub get_boolean : Text → Text → Option Bool

-- The file system at one moment: g_key_file_load_from_file, stat's st_mtime, and whether fopen
-- opens a file for writing. `none` is a failure.
pub record Files : Type 0 where
  pub load : Text → Option KeyFile
  pub stat : Text → Option ℤ
  pub fopen : Text → Bool

-- stat(2) of NULL fails.
unfoldable pub get_mtime : Files → Option Text → ℤ
get_mtime files none = ℤ.pos 0
get_mtime files (some path) = elim (files.stat path) [ none ↦ ℤ.pos 0 | some mtime ↦ mtime ]

unfoldable pub config_has_an_update : Files → Config → Bool
unfolding get_mtime
config_has_an_update files config =
    if int_eq config.mtime (ℤ.pos 0) then false else lt_ℤ config.mtime (get_mtime files config.path)
