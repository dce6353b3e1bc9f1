-- ===== src/Main.antt =====
-- alarm_handler of src/main.c, with the configuration and the log that the daemon runs with. The
-- start of the program is in the modules below, and its event loop in Daemon.
pub mod Outcome
pub mod Options
pub mod Pid
pub mod Start
pub mod Settled
pub mod Updates
pub mod Signals
use inotispy.Prelude.{Option, none, some, ◌>>=◌, if◌then◌else◌}
use inotispy.Text.{Text, codes}
use inotispy.Config.{Config, conf_dump_file, Files, config_has_an_update}
use inotispy.Config.Load.{reload_config}
use inotispy.Config.Print.{print_config}
use inotispy.Log.{log_level_warn, log_level_notice, Logger, log_msg, set_log_level}
use inotispy.Inotify.{Sys, State}
use inotispy.Inotify.Dump.{dump_roots}

pub record Process (S : Sys) : Type 0 where
  pub inotify : State S
  pub config : Config
  pub log : Logger
  pub config_dump : Text

abbrev pub reloaded_text : Text
reloaded_text = codes "Configuration file had an update and was reloaded"

abbrev pub not_reloaded_text : Text
not_reloaded_text = codes "Failed to reload newly updated configuration file"

-- The level and the message after a reload.
unfoldable pub after_reload : Text → Config → Logger → Option Logger
unfolding set_log_level log_msg
after_reload now config log =
    set_log_level config now config.log_level log
    >>= log_msg config now log_level_notice reloaded_text

unfoldable pub after_failure : Text → Config → Logger → Option Logger
unfolding log_msg
after_failure now config log = log_msg config now log_level_warn not_reloaded_text log

-- Updates of the configuration file; `none` is a write through the null pointer.
unfoldable pub update_config : Files → Text → Config → Logger → Option (Config × Logger)
unfolding config_has_an_update reload_config after_reload after_failure
update_config files now config log =
    if config_has_an_update files config
    then (let (reloaded, (config, log)) = reload_config files config log in
        (if reloaded then after_reload now config log else after_failure now config log) >>= λ log.
        some (config, log))
    else some (config, log)

module _ {S : Sys} where
  unfoldable pub alarm_handler : Files → Text → Process S → Option (Process S)
  unfolding dump_roots update_config print_config
  alarm_handler files now process =
      update_config files now process.config process.log >>= λ (config, log). some (record process {
        inotify = dump_roots process.inotify;
        config = config;
        log = log;
        config_dump = print_config files conf_dump_file config process.config_dump;
      })
