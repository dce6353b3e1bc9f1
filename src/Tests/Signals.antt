-- ===== src/Tests/Signals.antt =====
-- An interrupt of a daemon that watches one root.
use inotispy.Prelude.{
  none, ◌≤◌, length, ◌≡◌, refl, true, false, Option, some, is_some, [], map, arith,
}
use inotispy.Text.{Text, codes, text_eq}
use inotispy.Inotify.Setup.{setup}
use inotispy.Inotify.Setup.Reading.{setup_file}
use inotispy.Inotify.Dump.{dump_lines}
use inotispy.Inotify.Dump.Line.{print_lines}
use inotispy.Inotify.Dump.RoundTrip.{entry_of}
use inotispy.Main.{Process}
use inotispy.Main.Signals.{sigint, Moment, ended, sig_handler}
use inotispy.Main.Signals.Interrupt.{interrupt_ends, interrupt_restarts}
use inotispy.Tests.World.{sys}
use inotispy.Tests.States.{st}
use inotispy.Config.{get_mtime}
use inotispy.Config.Load.{
  set_log_syslog, set_log_file, named_level, set_log_level_name, set_zmq_uri,
  set_max_inotify_events, set_memclean_freq, set_silent, config_path, init_config,
}
use inotispy.Config.Load.Uri.{has_uri}
use inotispy.Log.{init_logger}
use inotispy.Main.Settled.{starts}
use inotispy.Text.Decimal.{digits, print_nat, print_int}
use inotispy.Inotify.Dump.Line.{print_line}
use inotispy.Inotify.Dump.{dump_roots}
use inotispy.Inotify.Setup.Stream.{dump_text}
use inotispy.Tests.Settings.{fresh, closed_log, config, log, files_at}

abbrev process : Process sys
process = record {
  inotify = st;
  config = record config { zmq_uri_allocated = true };
  log = log;
  config_dump = [];
}

-- The URI is in the configuration file.
abbrev moment : Moment
moment = record {
  files = files_at 20 true;
  now = codes "now\n";
  pid_file = some (codes "43");
  conf_dump = some (codes "inotispy");
  unlinks_pid = true;
  unlinks_conf = false;
}

-- The key file has no URI, and the interrupt frees the literal.
interrupt_ends_example :
    is_some (sig_handler sigint moment (record process { config = config }))
    ≡ has_uri ((files_at 10 true).load (config_path (codes "/etc") none))
unfolding init_config get_mtime set_log_syslog set_log_file named_level set_log_level_name
    set_zmq_uri set_max_inotify_events set_memclean_freq set_silent text_eq init_logger
interrupt_ends_example =
    interrupt_ends moment (record process { config = config }) refl (files_at 10 true)
      (codes "/etc") false none fresh
      (starts (files_at 10 true) (codes "/etc") false none fresh closed_log refl)

no_uri : has_uri ((files_at 10 true).load (config_path (codes "/etc") none)) ≡ false
unfolding text_eq
no_uri = refl

printed_fits : length (dump_text [] (dump_roots st)) ≤ 4096
unfolding dump_roots dump_lines print_lines print_line print_int print_nat digits text_eq
printed_fits = omega arith

interrupt_restarts_example :
    (q : Process sys) × (pid_file : Option Text) × (conf_dump : Option Text) × (sig_handler sigint
        moment process
      ≡ some (ended 2 q pid_file conf_dump))
    × (setup_file {S = sys} 4096 2 1 (some (dump_text [] q.inotify))
        ≡ setup 1 (map entry_of (dump_lines (sys.roots_hash.values st.roots))))
unfolding dump_lines text_eq
interrupt_restarts_example =
    interrupt_restarts moment process refl 4096 2 [] 1 refl refl
      (
        (
          omega arith,
          (refl, refl, (refl, refl, (refl, refl, (refl, refl, tt)))),
          (refl, (refl, (refl, (refl, tt)))),
          omega arith,
          omega arith,
          omega arith,
        ),
        tt,
      )
      printed_fits (omega arith)
