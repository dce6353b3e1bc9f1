-- ===== src/Zeromq.antt =====
-- src/zeromq.c, with the replies of src/reply.c: the handlers of the calls, their dispatch, and the
-- handling of a message. A message is sent as the value that it renders.
pub mod Actions
pub mod Handlers
pub mod Dispatch
pub mod Replies
pub mod Total
pub mod Keeps
pub mod Answers
pub mod Uptimes
use inotispy.Prelude.{
  ℕ, ◌-◌, ◌*◌, ◌/◌, Bool, Option, none, some, List, [], ◌∷◌, ◌++◌, ◌==◌, ℤ, to_int, if◌then◌else◌,
}
use inotispy.Text.{Text}
use inotispy.Reply.{InotispyError}
use inotispy.Inotify.{Event, Sys, State}

-- The object that inotify_event_to_jobj builds; the cookie is left out if it is zero.
pub record EventObject : Type 0 where
  pub name : Text
  pub path : Text
  pub mask : ℤ
  pub cookie : Option ℤ

pub record Uptime : Type 0 where
  pub days : ℕ
  pub hours : ℕ
  pub mins : ℕ
  pub secs : ℕ

-- "pong", {"success":1}, {"error":...}, {"data":...} with a number, events or roots, and the status.
pub data Reply : Type 0 where
  pong success : Reply
  error : InotispyError → Reply
  number : ℕ → Reply
  events : List EventObject → Reply
  roots : List Text → Reply
  status : ℕ → ℕ → Uptime → Reply

-- What the handlers read of the process and of its configuration: CONFIG->max_inotify_events,
-- getpid(), time(NULL) - start_time, and what vsnprintf writes for a null pointer under "%s".
pub record Host : Type 0 where
  pub max_inotify_events : ℤ
  pub pid : ℕ
  pub seconds_up : ℕ
  pub null_text : Text

-- The daemon and the replies that it has sent, the oldest first.
pub record Server (S : Sys) : Type 0 where
  pub inotify : State S
  pub sent : List Reply

unfoldable pub event_to_jobj : Event → EventObject
event_to_jobj event = record {
  name = event.name;
  path = event.path;
  mask = to_int event.mask;
  cookie = (if event.cookie == 0 then none else some (to_int event.cookie));
}

-- The split of the uptime in EVENT_status.
unfoldable pub split_uptime : ℕ → Uptime
split_uptime secs =
    let mins = secs / 60 in
    let hours = mins / 60 in
    let days = hours / 24 in
    record {
      days = days;
      hours = hours - days * 24;
      mins = mins - hours * 60;
      secs = secs - mins * 60;
    }

module _ {S : Sys} where
  -- reply_send_message
  unfoldable pub send : Server S → Reply → Server S
  send sv reply = record sv { sent = sv.sent ++ reply ∷ [] }

  -- reply_send_error
  unfoldable pub send_error : Server S → InotispyError → Server S
  unfolding send
  send_error sv e = send sv (error e)

  -- reply_send_success
  unfoldable pub send_success : Server S → Server S
  unfolding send
  send_success sv = send sv success

  -- The reply to a call that returns 0 or an error code.
  unfoldable pub send_result : Server S → Option InotispyError → Server S
  unfolding send_error send_success
  send_result sv none = send_success sv
  send_result sv (some e) = send_error sv e
