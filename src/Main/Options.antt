-- ===== src/Main/Options.antt =====
-- The options of the command line in main of src/main.c. getopt_long is an argument: it turns the
-- command line into the options that it returns, one by one.
use inotispy.Prelude.{Bool, true, false, Option, none, some, List, [], ◌∷◌}
use inotispy.Text.{Text, codes}
use inotispy.Main.Outcome.{Outcome, goes_on, exits}

-- A result of getopt_long with its optarg; `other` stands for '?'.
pub data Opt : Type 0 where
  version : Opt
  daemon : Opt
  silent : Opt
  help : Opt
  pidfile : Text → Opt
  config : Text → Opt
  other : Opt

pub record Options : Type 0 where
  pub daemon_mode : Bool
  pub silent : Bool
  pub help : Bool
  pub pid_file : Text
  pub config_file : Option Text

-- DEFAULT_PID_FILE
abbrev pub default_options : Options
default_options = record {
  daemon_mode = false;
  silent = false;
  help = false;
  pid_file = codes "/var/run/inotispy/inotispy.pid";
  config_file = none;
}

unfoldable pub parse_options : List Opt → Options → Outcome Options
parse_options [] options = goes_on options
parse_options (opt ∷ opts) options = elim opt [
  | Opt.version ↦ exits 0
  | Opt.daemon ↦ parse_options opts (record options { daemon_mode = true })
  | Opt.silent ↦ parse_options opts (record options { silent = true })
  | Opt.help ↦ parse_options opts (record options { help = true })
  | Opt.pidfile file ↦ parse_options opts (record options { pid_file = file })
  | Opt.config file ↦ parse_options opts (record options { config_file = some file })
  | Opt.other ↦ exits 1
]
