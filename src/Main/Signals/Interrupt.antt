-- ===== src/Main/Signals/Interrupt.antt =====
-- About SIGINT in sig_handler of src/main.c.
use inotispy.Prelude.{
  ℕ, suc, ◌≤◌, length, ◌≡◌, refl, ◌∙◌, ap, Bool, true, false, Option, none, some, is_some, map,
  OnSome-use, if◌then◌else◌,
}
use inotispy.Text.{Text}
use inotispy.Config.{Config, Files}
use inotispy.Config.Load.{config_path, init_config}
use inotispy.Config.Load.Uri.{has_uri, init_config-allocated}
use inotispy.Main.Settled.{Settled, Settled-SameLimits}
use inotispy.Log.{log_level_notice, Logger, log_msg, close_logger}
use inotispy.Log.Keeps.{log_msg-SameStatics, log_msg_returns}
use inotispy.Inotify.{Sys}
use inotispy.Inotify.Dump.{dump_lines, dump_roots}
use inotispy.Inotify.Dump.RoundTrip.{AllPlain, entry_of}
use inotispy.Inotify.Setup.{setup}
use inotispy.Inotify.Setup.Stream.{dump_text}
use inotispy.Inotify.Setup.Reading.{setup_file}
use inotispy.Inotify.Setup.Restart.{setup_file-dump_roots}
use inotispy.Main.{Process}
use inotispy.Main.Pid.{clear_pid}
use inotispy.Main.Updates.{IsOpen}
use inotispy.Main.Signals.{
  sigint, signal_number, Moment, Handled, ended, clear_config, interrupt_text, interrupt,
  sig_handler,
}

some_of_is_some {ℓ} : {A : Type ℓ} (o : Option A) → is_some o ≡ true → (a : A) × (o ≡ some a)
some_of_is_some none h = cc
some_of_is_some (some a) h = (a, refl)

close_logger_open :
    (log : Logger) → IsOpen log → close_logger log ≡ some (record log { logger = none })
unfolding close_logger
close_logger_open log h = let (file, e) = some_of_is_some log.logger h in rw (e) refl

module _ {S : Sys} (m : Moment) (p : Process S) (open_log : IsOpen p.log) where
  -- The log after the message.
  logged :
      (log : Logger) × (log_msg p.config m.now log_level_notice interrupt_text p.log ≡ some log)
      × IsOpen log
  logged =
      let (log, e) =
        some_of_is_some (log_msg p.config m.now log_level_notice interrupt_text p.log)
          (log_msg_returns p.config m.now log_level_notice interrupt_text p.log open_log) in
      let same =
        OnSome-use _ (log_msg-SameStatics p.config m.now log_level_notice interrupt_text p.log) e in
      (log, e, ap is_some (same.1) ∙ open_log)

  -- The file of the printed configuration, after clear_config.
  abbrev conf_left : Option Text
  conf_left =
      let left : Bool × Option Text =
        if m.unlinks_conf then (true, none) else (false, m.conf_dump) in
      left.1

  abbrev interrupted : Logger → Handled S
  interrupted log =
      ended (signal_number sigint)
        (record p { inotify = dump_roots p.inotify; log = record log { logger = none } })
        ((clear_pid m.unlinks_pid m.pid_file).1) conf_left

  interrupt_runs :
      (log : Logger) (b : Bool)
      → log_msg p.config m.now log_level_notice interrupt_text p.log ≡ some log
      → IsOpen log
      → p.config.zmq_uri_allocated ≡ b
      → sig_handler sigint m p ≡ (if b then some (interrupted log) else none)
  unfolding sig_handler interrupt clear_config
  interrupt_runs log true e h allocated = rw (e, allocated, close_logger_open log h) refl
  interrupt_runs log false e h literal = rw (e, literal) refl

  is_some-given {ℓ} : {A : Type ℓ} (b : Bool) (a : A) → is_some (if b then some a else none) ≡ b
  is_some-given true a = refl
  is_some-given false a = refl

  interrupt_ends_of : is_some (sig_handler sigint m p) ≡ p.config.zmq_uri_allocated
  interrupt_ends_of =
      let (log, e, h) = logged in
      ap is_some (interrupt_runs log p.config.zmq_uri_allocated e h refl)
      ∙ is_some-given p.config.zmq_uri_allocated (interrupted log)

  -- At every moment of a daemon after init_config and init_logger, whatever updates of its
  -- configuration file it has read, with an open log file: the handler of an interrupt ends
  -- properly exactly if the configuration file could be loaded and has a URI; otherwise it frees
  -- the literal of the default.
  pub interrupt_ends :
      (files : Files) (sysconfdir : Text) (flag : Bool) (config_file : Option Text) (fresh : Config)
      → Settled (init_config files sysconfdir flag config_file fresh).1 p.config p.log
      → is_some (sig_handler sigint m p) ≡ has_uri (files.load (config_path sysconfdir config_file))
  interrupt_ends files sysconfdir flag config_file fresh settled =
      interrupt_ends_of
      ∙ ((Settled-SameLimits _ p.config p.log settled).0.6
          ∙ init_config-allocated files sysconfdir flag config_file fresh)

  -- An interrupt of a daemon whose log file is open and whose URI is allocated, with a dump file
  -- that can be opened, roots to be watched again that can be printed and read, and a dump that
  -- fits in one buffer of the stream that reads it: the handler ends with status 2, and a start
  -- from the file that it leaves is a start from the entries of exactly the roots that were to be
  -- watched again.
  pub interrupt_restarts :
      (size rounds : ℕ) (file : Text) (world : S.World)
      → p.config.zmq_uri_allocated ≡ true
      → S.fopen_dump p.inotify.world ≡ true
      → AllPlain (dump_lines (S.roots_hash.values p.inotify.roots))
      → length (dump_text file (dump_roots p.inotify)) ≤ size
      → suc (length (dump_lines (S.roots_hash.values p.inotify.roots))) ≤ rounds
      → (q : Process S) × (pid_file : Option Text) × (conf_dump : Option Text) × (sig_handler sigint
            m p
          ≡ some (ended 2 q pid_file conf_dump))
        × (setup_file {S = S} size rounds world (some (dump_text file q.inotify))
            ≡ setup world (map entry_of (dump_lines (S.roots_hash.values p.inotify.roots))))
  interrupt_restarts size rounds file world allocated opens plain fits enough =
      let (log, e, h) = logged in
      (
        _,
        _,
        _,
        interrupt_runs log true e h allocated,
        setup_file-dump_roots size rounds file p.inotify world opens plain fits enough,
      )
