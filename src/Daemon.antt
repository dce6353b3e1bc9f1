-- ===== src/Daemon.antt =====
-- The event loop of src/main.c, and the daemon as a system of steps: rounds of that loop, threads
-- that run, the handler of SIGHUP between two rounds, and changes of the world outside.
pub mod Started
pub mod Invariant
pub mod Safety
use inotispy.Prelude.{
  ℕ, ◌-◌, Bool, true, false, ◌&&◌, Option, none, some, List, ltb, ◌≡◌, ℤ, lt_ℤ, pos_part, ◌++◌, ◌∷◌,
  ◌>>=◌, if◌then◌else◌,
}
use inotispy.Text.{Text}
use inotispy.Request.{JsonC}
use inotispy.Inotify.{Task, Sys, State}
use inotispy.Inotify.Memclean.{memclean, rewatch_roots}
use inotispy.Inotify.Events.Buffer.{handle_buffer}
use inotispy.Inotify.Setup.Reading.{IsAbsoluteDump}
use inotispy.Config.{Config, Files}
use inotispy.Log.{Logger}
use inotispy.Main.{Process, alarm_handler}
use inotispy.Main.Outcome.{goes_on}
use inotispy.Main.Start.{Machine, start}
use inotispy.Inotify.Sound.Threads.{Thread, with_tasks}
use inotispy.Zeromq.{Host, Server}
use inotispy.Zeromq.Dispatch.{zmq_handle_event}

-- What a round finds: the failure of zmq_poll, the time, as a number and as the log prints it, the
-- file system, and what is read if there is something: bytes (or the failure of read(2)) and a
-- message (or the failure of zmq_recv).
pub record Poll : Type 0 where
  pub failed : Bool
  pub now : ℕ
  pub clock : Text
  pub files : Files
  pub inotify_in : Option (Option Text)
  pub zmq_in : Option (Option (List ℕ))

pub record Daemon (S : Sys) : Type 0 where
  pub server : Server S
  pub alarm_timer : ℕ
  pub memclean_timer : ℕ
  pub config : Config
  pub log : Logger
  pub config_dump : Text

-- ALARM_TIMEOUT
abbrev pub alarm_timeout : ℕ
alarm_timeout = 10

module _ {S : Sys} where
  abbrev pub with_inotify : Daemon S → State S → Daemon S
  with_inotify d st = record d { server = record d.server { inotify = st } }

  -- What alarm_handler works on.
  unfoldable pub process_of : Daemon S → Process S
  process_of d = record {
    inotify = d.server.inotify;
    config = d.config;
    log = d.log;
    config_dump = d.config_dump;
  }

  -- A call of alarm_handler; `none` is a write through the null pointer.
  unfoldable pub on_alarm : Files → Text → Daemon S → Option (Daemon S)
  unfolding process_of alarm_handler
  on_alarm files clock d = alarm_handler files clock (process_of d) >>= λ p.
      some (record (with_inotify d p.inotify) {
        config = p.config;
        log = p.log;
        config_dump = p.config_dump;
      })

  -- alarm_handler when its time has come.
  unfoldable pub alarm : Daemon S → Poll → Option (Daemon S)
  unfolding on_alarm
  alarm d poll =
      if ltb alarm_timeout (poll.now - d.alarm_timer)
      then (on_alarm poll.files poll.clock d >>= λ e. some (record e { alarm_timer = poll.now }))
      else some d

  -- The memory cleanup, with the rewatch of the roots; a frequency of zero turns it off.
  unfoldable pub clean : Daemon S → ℕ → Daemon S
  unfolding memclean rewatch_roots
  clean d now =
      if lt_ℤ (ℤ.pos 0) d.config.memclean_freq
        && ltb (pos_part d.config.memclean_freq) (now - d.memclean_timer)
      then record (with_inotify d (rewatch_roots (memclean d.server.inotify))) {
        memclean_timer = now;
      }
      else d

  unfoldable pub on_inotify : Daemon S → Option (Option Text) → Option (Daemon S)
  unfolding handle_buffer
  on_inotify d none = some d
  on_inotify d (some read) = handle_buffer d.server.inotify read >>= λ st. some (with_inotify d st)

module _ {S : Sys} (J : JsonC) (host : Host) where
  unfoldable pub on_message : Daemon S → Option (Option (List ℕ)) → Option (Daemon S)
  unfolding zmq_handle_event
  on_message d none = some d
  on_message d (some message) = elim (zmq_handle_event J host d.server message) [
    | none ↦ none
    | some server ↦ some (record d { server = server })
  ]

  -- The body of the event loop; `none` is a read outside a buffer or a write through the null
  -- pointer.
  unfoldable pub round : Daemon S → Poll → Option (Daemon S)
  unfolding alarm clean on_inotify on_message
  round d poll =
      if poll.failed
      then some d
      else alarm d poll >>= λ alarmed.
          on_inotify (clean alarmed poll.now) poll.inotify_in >>= λ ready.
          on_message ready poll.zmq_in

  -- One step of the daemon or of the world around it.
  pub data Step : Daemon S → Daemon S → Type 0 where
    loop : {d d' : Daemon S} (poll : Poll) → round d poll ≡ some d' → Step d d'
    runs :
        {d : Daemon S} (before after : List Task) (task : Task) (st : State S)
        → d.server.inotify.tasks ≡ before ++ task ∷ after
        → Thread task (with_tasks d.server.inotify (before ++ after)) st
        → Step d (with_inotify d st)
    hangs_up :
        {d d' : Daemon S} (files : Files) (clock : Text)
        → on_alarm files clock d ≡ some d'
        → Step d d'
    outside :
        {d : Daemon S} (world : S.World)
        → Step d (with_inotify d (record d.server.inotify { world = world }))

  -- What the daemon can become after main has started it from a dump file of absolute paths.
  pub data Reach : Daemon S → Type 0 where
    starts :
        (d : Daemon S) (m : Machine) (world : S.World) (process : Process S)
        → IsAbsoluteDump S m.stdio_size m.rounds world m.root_dump
        → start m world ≡ goes_on process
        → process_of d ≡ process
        → Reach d
    steps : {d d' : Daemon S} → Reach d → Step d d' → Reach d'
