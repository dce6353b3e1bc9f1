-- ===== src/Main/Signals.antt =====
-- sig_handler and clear_config of src/main.c. A handler runs as a whole, at a moment when no other
-- part of the program holds a lock.
pub mod Interrupt
use inotispy.Prelude.{ℕ, Bool, true, false, Option, none, some, is_some, ◌>>=◌, if◌then◌else◌}
use inotispy.Text.{Text, codes}
use inotispy.Config.{Config, Files}
use inotispy.Log.{log_level_error, log_level_notice, log_msg, close_logger}
use inotispy.Inotify.{Sys}
use inotispy.Inotify.Dump.{dump_roots}
use inotispy.Main.{Process, alarm_handler}
use inotispy.Main.Pid.{clear_pid}

-- The signals that main installs the handler for.
pub data Signal : Type 0 where
  sigint : Signal
  sigsegv : Signal
  sighup : Signal

-- Their numbers, which the program exits with.
abbrev pub signal_number : Signal → ℕ
signal_number sigint = 2
signal_number sigsegv = 11
signal_number sighup = 1

-- What the handler finds: the files, the time, the pid file, the file of the printed
-- configuration, and whether unlink(2) succeeds on each.
pub record Moment : Type 0 where
  pub files : Files
  pub now : Text
  pub pid_file : Option Text
  pub conf_dump : Option Text
  pub unlinks_pid : Bool
  pub unlinks_conf : Bool

-- What is left behind: the program goes on, or has exited with a status.
pub data Handled (S : Sys) : Type 0 where
  resumes : Process S → Handled S
  ended : (status : ℕ) (process : Process S) (pid_file conf_dump : Option Text) → Handled S

-- g_free takes allocated memory only; `none` is its call on the literal ZMQ_URI, the other pointers
-- are allocated or NULL. The result is whether the file is gone, and the file.
unfoldable pub clear_config : Config → Bool → Option Text → Option (Bool × Option Text)
clear_config config unlinks file =
    if config.zmq_uri_allocated
    then some (if unlinks then (true, none) else (false, file))
    else none

abbrev pub interrupt_text : Text
interrupt_text = codes "Inotispy receieved an interrupt. Dumping roots and exiting"

abbrev pub segfault_text : Text
segfault_text = codes "Inotispy encounterd a segmentation fault. Exiting..."

module _ {S : Sys} where
  -- The case of SIGINT; inotify_cleanup dumps the roots.
  unfoldable pub interrupt : Moment → Process S → Option (Handled S)
  unfolding log_msg dump_roots clear_pid clear_config close_logger
  interrupt m p = do
    log ← log_msg p.config m.now log_level_notice interrupt_text p.log
    conf ← clear_config p.config m.unlinks_conf m.conf_dump
    closed ← close_logger log
    some (
        ended (signal_number sigint) (record p { inotify = dump_roots p.inotify; log = closed })
          ((clear_pid m.unlinks_pid m.pid_file).1) (conf.1))

  -- `none` is a write through a null pointer, or memory freed that was not allocated.
  unfoldable pub sig_handler : Signal → Moment → Process S → Option (Handled S)
  unfolding interrupt log_msg alarm_handler
  sig_handler sigint m p = interrupt m p
  sig_handler sigsegv m p = log_msg p.config m.now log_level_error segfault_text p.log >>= λ log.
      some (ended (signal_number sigsegv) (record p { log = log }) m.pid_file m.conf_dump)
  sig_handler sighup m p = alarm_handler m.files m.now p >>= λ q. some (resumes q)
