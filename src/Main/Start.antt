-- ===== src/Main/Start.antt =====
-- main of src/main.c, up to its event loop.
pub mod Second
use inotispy.Prelude.{ℕ, Bool, true, false, not, Option, none, some, List, ℤ, if◌then◌else◌}
use inotispy.Text.{Text, codes, text_eq}
use inotispy.Config.{Config, Files}
use inotispy.Config.Load.{init_config}
use inotispy.Log.{log_level_notice, Logger, init_logger, log_msg}
use inotispy.Inotify.{Sys, State}
use inotispy.Inotify.Setup.Reading.{setup_file}
use inotispy.Main.{Process, alarm_handler}
use inotispy.Main.Outcome.{Outcome, goes_on, exits, next, or_crash}
use inotispy.Main.Options.{Opt, Options, default_options, parse_options}
use inotispy.Main.Pid.{check_pid, write_pid}

-- What the start of the program finds: the name that uname(2) gives, what getopt_long returns, the
-- pid file by its name, the processes of /proc, what daemon(3) and the calls on the pid file
-- answer, the files, the text of the root dump, the size of a buffer of stdio, how many rounds of the
-- loop over the dump are looked at, and whether zmq_setup succeeds.
pub record Machine : Type 0 where
  pub sysname : Option Text
  pub opts : List Opt
  pub pid_text : Text → Option Text
  pub running : ℤ → Bool
  pub unlinks : Bool
  pub daemon_starts : Bool
  pub pid : ℤ
  pub pid_opens : Bool
  pub files : Files
  pub sysconfdir : Text
  pub fresh : Config
  pub closed_log : Logger
  pub now : Text
  pub root_dump : Option Text
  pub stdio_size : ℕ
  pub rounds : ℕ
  pub zmq_starts : Bool

abbrev pub is_linux : Option Text → Bool
is_linux none = false
is_linux (some name) = text_eq name (codes "Linux")

-- The part for the daemon mode, which turns the silent mode on.
unfoldable pub prepare : Machine → Options → Outcome Options
unfolding check_pid write_pid
prepare m options =
    if options.daemon_mode
    then next (check_pid m.running m.unlinks (m.pid_text options.pid_file)) (λ file.
      if m.daemon_starts
      then next (write_pid m.pid_opens m.pid file) (λ _. goes_on (record options { silent = true }))
      else exits 1)
    else goes_on options

-- The configuration and the log, with the first message.
unfoldable pub start_log : Machine → Options → Outcome (Config × Logger)
unfolding init_config init_logger log_msg
start_log m options =
    let (loaded, config) =
      init_config m.files m.sysconfdir options.silent options.config_file m.fresh in
    let (opened, log) = init_logger m.files.fopen config m.closed_log in
    if opened
    then next (or_crash (log_msg config m.now log_level_notice (codes "Initializing daemon") log))
        (λ log. goes_on (config, log))
    else exits 1

module _ {S : Sys} where
  unfoldable pub start_tables : Machine → S.World → Config × Logger → Outcome (Process S)
  unfolding setup_file alarm_handler
  start_tables m world (config, log) =
      next (or_crash (setup_file {S = S} m.stdio_size m.rounds world m.root_dump)) (λ st.
        if m.zmq_starts
        then or_crash (
            alarm_handler m.files m.now
              (record { inotify = st; config = config; log = log; config_dump = codes "" }))
        else exits 1)

  unfoldable pub start : Machine → S.World → Outcome (Process S)
  unfolding parse_options prepare start_log start_tables
  start m world =
      if is_linux m.sysname
      then next (parse_options m.opts default_options) (λ options.
        if options.help
        then exits 0
        else next (prepare m options)
            (λ options. next (start_log m options) (λ settings. start_tables m world settings)))
      else exits 1
