-- ===== src/Daemon/Invariant.antt =====
-- What holds of the daemon of src/main.c at every moment.
use inotispy.Prelude.{
  ℕ, ltb, ◌-◌, zero, suc, OnSome, OnSome-bind, OnSome-intro, OnSome-if, OnSome-use, length, ◌≡◌,
  sym, subst, Bool, true, false, Option, none, some, List, [], ◌∷◌, arith, inl, inr, Option-cases,
  if◌then◌else◌,
}
use inotispy.Text.{Text}
use inotispy.Request.{JsonC}
use inotispy.Inotify.{Sys, State}
use inotispy.Inotify.Events.{handle_in_event}
use inotispy.Inotify.Events.Buffer.{read_event, handle_bytes, handle_buffer}
use inotispy.Inotify.Memclean.{memclean}
use inotispy.Inotify.Sound.{Sound, handle_in_event-Sound, memclean-Sound, rewatch_roots-Sound}
use inotispy.Inotify.Sound.Threads.{Thread-Sound}
use inotispy.Main.Outcome.{OnGoing-use}
use inotispy.Daemon.Started.{start-Sound, alarm_handler-Sound}
use inotispy.Config.{Files}
use inotispy.Main.{alarm_handler}
use inotispy.Zeromq.{Host}
use inotispy.Zeromq.Keeps.{zmq_handle_event-EndsSound}
use inotispy.Zeromq.Dispatch.{zmq_handle_event}
use inotispy.Daemon.{
  Poll, alarm_timeout, Daemon, process_of, on_alarm, alarm, clean, on_inotify, on_message, round,
  Step, loop, runs, hangs_up, outside, Reach, starts, steps,
}

module _ {S : Sys} where
  abbrev IsSound : Daemon S → Type 0
  IsSound d = Sound d.server.inotify

  either : (b : Bool) (d d' : Daemon S) → IsSound d → IsSound d' → IsSound (if b then d else d')
  either true d d' h h' = h
  either false d d' h h' = h'

  on_alarm-Sound :
      (files : Files) (clock : Text) (d : Daemon S)
      → IsSound d
      → OnSome IsSound (on_alarm files clock d)
  unfolding on_alarm process_of
  on_alarm-Sound files clock d h =
      OnSome-bind (λ p. Sound p.inotify) IsSound (alarm_handler files clock (process_of d)) _
        (alarm_handler-Sound files clock (process_of d) h) λ p sound. sound

  alarm-Sound : (d : Daemon S) (poll : Poll) → IsSound d → OnSome IsSound (alarm d poll)
  unfolding alarm
  alarm-Sound d poll h =
      OnSome-if IsSound (ltb alarm_timeout (poll.now - d.alarm_timer)) _ _
        (OnSome-bind IsSound IsSound (on_alarm poll.files poll.clock d) _
          (on_alarm-Sound poll.files poll.clock d h) λ done sound. sound)
        h

  clean-Sound : (d : Daemon S) (now : ℕ) → IsSound d → IsSound (clean d now)
  unfolding clean
  clean-Sound d now h =
      either _ _ _
        (rewatch_roots-Sound (memclean d.server.inotify) (memclean-Sound d.server.inotify h)) h

  handle_bytes-Sound :
      (fuel : ℕ) (st : State S) (bytes : Text)
      → Sound st
      → OnSome Sound (handle_bytes fuel st bytes)
  unfolding handle_bytes
  handle_bytes-Sound zero st bytes h = h
  handle_bytes-Sound (suc fuel) st [] h = h
  handle_bytes-Sound (suc fuel) st (c ∷ s) h =
      OnSome-bind (λ _. Unit {0}) Sound (read_event (c ∷ s)) _
        (OnSome-intro (λ _. Unit {0}) _ λ _ _. tt)
        λ (event, rest) _.
          handle_bytes-Sound fuel (handle_in_event st event) rest (handle_in_event-Sound st event h)

  on_inotify-Sound :
      (d : Daemon S) (read : Option (Option Text)) → IsSound d → OnSome IsSound (on_inotify d read)
  unfolding on_inotify handle_buffer
  on_inotify-Sound d none h = h
  on_inotify-Sound d (some none) h = h
  on_inotify-Sound d (some (some bytes)) h =
      OnSome-bind Sound IsSound (handle_bytes (length bytes) d.server.inotify bytes) _
        (handle_bytes-Sound (length bytes) d.server.inotify bytes h) λ st sound. sound

module _ {S : Sys} (J : JsonC) (host : Host) where
  on_message-Sound :
      (d t : Daemon S) (message : Option (Option (List ℕ)))
      → IsSound d
      → on_message J host d message ≡ some t
      → IsSound t
  unfolding on_message
  on_message-Sound d t none h e = let same : d ≡ t = cc in subst IsSound same h
  on_message-Sound d t (some message) h e =
      elim (Option-cases (zmq_handle_event J host d.server message)) [
        | inl bad ↦ absurd (ground (arith, bad, e))
        | inr (server, done) ↦
            let same : server ≡ t.server = ground (arith, done, e) in
            subst (λ sv. Sound sv.inotify) same
              ((zmq_handle_event-EndsSound J host d.server h message).sound server done)
      ]

  round-Sound :
      (d t : Daemon S) (poll : Poll) → IsSound d → round J host d poll ≡ some t → IsSound t
  unfolding round
  round-Sound d t poll h e =
      OnSome-use IsSound
        (OnSome-if IsSound poll.failed _ _ h (
          OnSome-bind IsSound IsSound (alarm d poll) _ (alarm-Sound d poll h) λ alarmed sound.
            OnSome-bind IsSound IsSound (on_inotify (clean alarmed poll.now) poll.inotify_in) _
              (on_inotify-Sound (clean alarmed poll.now) poll.inotify_in
                (clean-Sound alarmed poll.now sound))
              λ ready sound.
                OnSome-intro IsSound (on_message J host ready poll.zmq_in)
                  λ t answers. on_message-Sound ready t poll.zmq_in sound answers))
        e

  Step-Sound : (d d' : Daemon S) → Step J host d d' → IsSound d → IsSound d'
  Step-Sound d d' (loop poll e) h = round-Sound d d' poll h e
  Step-Sound d d' (runs before after task st e run) h =
      Thread-Sound d.server.inotify before after task st e run h
  Step-Sound d d' (hangs_up files clock e) h = OnSome-use IsSound (on_alarm-Sound files clock d h) e
  Step-Sound d d' (outside world) h = record {
    agree = h.agree;
    registry = h.registry;
    pending = h.pending;
  }

  -- Whatever the daemon has been through, in whatever order its threads, its messages and the
  -- events came: the watch tables agree, the roots are registered properly, and each thread finds
  -- what it works on.
  pub Reach-Sound : (d : Daemon S) → Reach J host d → Sound d.server.inotify
  unfolding process_of
  Reach-Sound d (starts _ m world process absolute e same) =
      subst (λ p. Sound p.inotify) (sym same)
        (OnGoing-use (λ p. Sound p.inotify) (start-Sound S m world absolute) e)
  Reach-Sound d (steps before step) = Step-Sound _ _ step (Reach-Sound _ before)
