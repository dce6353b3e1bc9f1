-- ===== src/Tests/Client.antt =====
-- Runs of the client of the command line.
use inotispy.Prelude.{◌≡◌, refl, ◌↔◌, true, false, none, some, [], ◌++◌, ℤ, ℕ, suc, ◌<◌, ◌^◌}
use inotispy.Text.{Text, codes, text_eq}
use inotispy.Text.Decimal.{scan, atoi, skip_space, signed, of_positive}
use inotispy.Text.Decimal.RoundTrip.{AllDigits}
use inotispy.Client.{exited, Link, ReplyJson, done}
use inotispy.Client.Texts.{call_text, client_path_text, events_text, all_digits, is_unsigned_int}
use inotispy.Client.Commands.{path_command, poll_pong}
use inotispy.Client.Dispatch.{dispatch}
use inotispy.Client.Numbers.{is_unsigned_int_lem}
use inotispy.Client.Handover.{HandedOver, request-HandedOver}
use inotispy.Client.Results.{dispatch-Refuses}
use inotispy.Client.Success.{Accepted, success_line, path_command_done}
use inotispy.Tests.World.{srv, sys, json, host}
use inotispy.Tests.States.{st}

-- A daemon that answers each request with the same text; the world counts the messages.
abbrev link : Text → Link
link reply = record {
  World = ℕ;
  zmq_send = λ w request. (true, suc w);
  zmq_recv = λ w. (some reply, suc w);
  zmq_recv_now = λ w. (0, suc w);
  strerror = λ w. [];
}

-- json-c of the small system, but an object has no "error".
abbrev parser : ReplyJson
parser = record {
  json_c = record json { object_get = λ obj key. none };
  elements = λ obj. [];
  null_text = codes "(null)";
}

-- The count that wraps around to -1.
count_wraps :
    (is_unsigned_int (codes "4294967295") ≡ true) × (atoi (codes "4294967295") ≡ ℤ.negsuc 0)
unfolding is_unsigned_int all_digits atoi skip_space signed scan of_positive
count_wraps = (refl, refl)

-- No count at all asks for all events.
count_empty : (is_unsigned_int [] ≡ true) × (atoi [] ≡ ℤ.pos 0)
unfolding is_unsigned_int all_digits atoi skip_space signed
count_empty = (refl, refl)

is_unsigned_int_lem_example :
    ((is_unsigned_int (codes "20") ≡ true) ↔ AllDigits (codes "20"))
    × (is_unsigned_int (codes "20") ≡ true
        → scan 0 (codes "20") < 2 ^ 31
        → atoi (codes "20") ≡ ℤ.pos (scan 0 (codes "20")))
is_unsigned_int_lem_example = is_unsigned_int_lem (codes "20")

request-HandedOver_example :
    HandedOver {S = sys} json host (record { inotify = st; sent = [] }) (call_text (codes "watch"))
    × HandedOver {S = sys} json host
        (record { inotify = st; sent = [] })
        (client_path_text (codes "watch") srv)
    × HandedOver {S = sys} json host
        (record { inotify = st; sent = [] })
        (events_text srv (ℤ.pos 3))
request-HandedOver_example =
    request-HandedOver json host (record { inotify = st; sent = [] }) (codes "watch") srv (ℤ.pos 3)
      refl refl

dispatch-Refuses_example :
    (out : Text) × (dispatch (link []) parser [] [] (codes "watch") [] 0 [] ≡ exited 1 0 out)
unfolding text_eq
dispatch-Refuses_example = dispatch-Refuses (link []) parser [] [] (codes "watch") [] refl 0 []

path_command_done_example :
    (path_command (link []) parser (codes "pause") (codes " is now paused") srv 0 []
      ≡ done tt 2 (codes "Root /srv is now paused\n"))
    ↔ (Accepted (link []) parser (client_path_text (codes "pause") srv) 0 2
        × (codes "Root /srv is now paused\n"
            ≡ [] ++ success_line (link []) parser srv (codes " is now paused")))
path_command_done_example =
    path_command_done (link []) parser (codes "pause") (codes " is now paused") srv 0 [] 2
      (codes "Root /srv is now paused\n")

-- Ten tries without an answer.
no_pong : poll_pong (link []) parser 10 0 ≡ (false, 10)
unfolding poll_pong
no_pong = refl
