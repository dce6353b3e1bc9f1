-- ===== src/Tests/Settings.antt =====
-- Runs of the start of the daemon, of its configuration and of its log.
use inotispy.Prelude.{
  ◌≡◌, refl, true, false, Bool, none, some, is_some, [], ◌∷◌, ◌++◌, ℤ, ℕ, arith, int_eq,
  if◌then◌else◌,
}
use inotispy.Text.{Text, codes, text_eq, strip_newline}
use inotispy.Text.Decimal.{digits, print_nat, print_int}
use inotispy.Config.{Config, KeyFile, Files, get_mtime, config_has_an_update}
use inotispy.Config.Load.{
  set_log_syslog, set_log_file, named_level, set_log_level_name, set_zmq_uri,
  set_max_inotify_events, set_memclean_freq, set_silent, init_config, reload_config,
}
use inotispy.Config.Load.Valid.{SameLimits, IsValid}
use inotispy.Config.Load.Silent.{wanted_silent, init_config-silent}
use inotispy.Log.{Logger, level_str, init_logger, log_line, log_msg, send_syslog, set_log_level}
use inotispy.Main.{update_config, after_reload}
use inotispy.Main.Settled.{Settled, starts, Settled-SameLimits}
use inotispy.Main.Updates.{update_config_once, update_config_ends}
use inotispy.Main.Outcome.{exits}
use inotispy.Main.Options.{Opt, default_options, parse_options}
use inotispy.Main.Start.{Machine, start}
use inotispy.Main.Start.Second.{second_daemon_exits}
use inotispy.Tests.World.{sys}

-- A key file with the level "debug", a negative frequency of the cleanup, and a silent mode.
abbrev pub keyfile : KeyFile
keyfile = record {
  get_string = λ group key. if text_eq key (codes "log_level") then some (codes "debug") else none;
  get_integer = λ group key.
      if text_eq key (codes "memclean_freq") then some (ℤ.negsuc 4) else some (ℤ.pos 100);
  get_boolean = λ group key. if text_eq key (codes "silent") then some true else none;
}

-- The file at a time, on a disk where files can be opened or not.
abbrev pub files_at : ℕ → Bool → Files
files_at time opens = record {
  load = λ path. some keyfile;
  stat = λ path. some (ℤ.pos time);
  fopen = λ path. opens;
}

abbrev pub fresh : Config
fresh = record {
  path = none;
  mtime = ℤ.pos 7;
  daemon = ℤ.pos 0;
  zmq_uri = [];
  zmq_uri_allocated = false;
  log_level = ℤ.pos 0;
  log_file = [];
  log_syslog = false;
  logging_enabled = false;
  max_inotify_events = ℤ.pos 0;
  memclean_freq = ℤ.pos 0;
  silent = false;
}

abbrev pub closed_log : Logger
closed_log = record { log_level = ℤ.pos 0; logger = none; written = []; logmask = 7; sent = [] }

abbrev etc : Text
etc = codes "/etc"

-- What init_config and init_logger leave.
abbrev pub config : Config
config = record {
  path = some (codes "/etc/inotispy.conf");
  mtime = ℤ.pos 10;
  daemon = ℤ.pos 0;
  zmq_uri = codes "tcp://*:5559";
  zmq_uri_allocated = false;
  log_level = ℤ.pos 4;
  log_file = codes "/var/log/inotispy.log";
  log_syslog = false;
  logging_enabled = true;
  max_inotify_events = ℤ.pos 100;
  memclean_freq = ℤ.pos 600;
  silent = true;
}

abbrev pub log : Logger
log = record closed_log { log_level = ℤ.pos 4; logger = some (codes "/var/log/inotispy.log") }

config_read : (init_config (files_at 10 true) etc false none fresh).1 ≡ config
unfolding init_config get_mtime set_log_syslog set_log_file named_level set_log_level_name
    set_zmq_uri set_max_inotify_events set_memclean_freq set_silent text_eq
config_read = refl

init_config-silent_example :
    (init_config (files_at 10 true) etc false none fresh).1.silent
    ≡ wanted_silent false (some keyfile)
init_config-silent_example = init_config-silent (files_at 10 true) etc false none fresh

-- With no file, the flag of the command line has no effect.
flag_lost :
    (init_config (record (files_at 10 true) { load = λ path. none }) etc true none fresh).1.silent
    ≡ false
unfolding init_config
flag_lost = refl

settled : Settled config config ((init_logger (λ path. true) config closed_log).1)
settled = starts (files_at 10 true) etc false none fresh closed_log config_read

Settled-SameLimits_example :
    SameLimits config config
    × IsValid config
    × (((init_logger (λ path. true) config closed_log).1).log_level ≡ config.log_level)
Settled-SameLimits_example = Settled-SameLimits config config _ settled

-- The file is newer.
abbrev new_config : Config
new_config = record config { mtime = ℤ.pos 20 }

abbrev new_log : Logger
new_log = record log {
  written =
      (
        codes "/var/log/inotispy.log",
        codes "[now] [NOTICE] Configuration file had an update and was reloaded\n",
      )
      ∷ [];
}

update : update_config (files_at 20 true) (codes "now\n") config log ≡ some (new_config, new_log)
unfolding update_config config_has_an_update get_mtime reload_config set_log_syslog set_log_file
    named_level set_log_level_name init_logger after_reload set_log_level log_msg log_line level_str
    send_syslog text_eq strip_newline
update = refl

update_config_once_example : config_has_an_update (files_at 20 true) new_config ≡ false
update_config_once_example =
    update_config_once (files_at 20 true) (codes "now\n") config new_config log new_log update

update_config_ends_example :
    is_some (update_config (files_at 20 false) (codes "now\n") config log)
    ≡ (files_at 20 false).fopen (codes "/var/log/inotispy.log")
unfolding config_has_an_update get_mtime reload_config set_log_syslog set_log_file named_level
    set_log_level_name init_logger text_eq
update_config_ends_example =
    update_config_ends (files_at 20 false) (codes "now\n") config log refl refl refl refl refl

text_of_level : level_str (ℤ.pos 4) ++ print_int (ℤ.pos 10) ≡ codes "DEBUG10"
unfolding level_str print_int print_nat digits
text_of_level = refl

-- A second start in daemon mode, while process 42 of the pid file runs.
abbrev pub machine : Machine
machine = record {
  sysname = some (codes "Linux");
  opts = Opt.daemon ∷ [];
  pid_text = λ path. some (codes "42");
  running = λ pid. int_eq pid (ℤ.pos 42);
  unlinks = true;
  daemon_starts = true;
  pid = ℤ.pos 43;
  pid_opens = true;
  files = files_at 10 true;
  sysconfdir = etc;
  fresh = fresh;
  closed_log = closed_log;
  now = codes "now\n";
  root_dump = none;
  stdio_size = 4096;
  rounds = 3;
  zmq_starts = true;
}

second_daemon_exits_example : start {S = sys} machine 1 ≡ exits 1
unfolding parse_options print_int print_nat digits text_eq
second_daemon_exits_example =
    second_daemon_exits machine 1 (record default_options { daemon_mode = true }) 42 refl refl refl
      refl refl (omega arith) refl
