-- ===== src/Client/Messages.antt =====
-- The exchange of messages of bin/inotispyctl.c: parse_json, handle_error, send_request, get_reply,
-- and the requests that several commands share.
use inotispy.Prelude.{Bool, true, false, Option, none, some, [], ◌∷◌, ◌++◌, ℤ, if◌then◌else◌}
use inotispy.Text.{Text, codes, newline}
use inotispy.Text.Decimal.{print_int}
use inotispy.Request.{JsonType, json_int}
use inotispy.Client.{Link, ReplyJson, Client, ◌>>=◌, ◌>>◌, pure, print, exit}
use inotispy.Client.Texts.{client_path_text, events_text}

abbrev pub is_int_type : JsonType → Bool
is_int_type json_int = true
is_int_type _ = false

module _ (L : Link) (J : ReplyJson) where
  abbrev pub JObj : Type 0
  JObj = J.json_c.Obj

  -- json_object_get_int and json_object_get_string, of a pointer that may be NULL.
  abbrev pub int_or_zero : Option JObj → ℤ
  int_or_zero none = ℤ.pos 0
  int_or_zero (some obj) = J.json_c.get_int obj

  abbrev pub string_or_null : Option JObj → Text
  string_or_null none = J.null_text
  string_or_null (some obj) = J.json_c.get_string obj

  abbrev pub put_line : Text → Client L.World (Unit {0})
  put_line text = print (text ++ newline ∷ [])

  abbrev pub parsed : Text → Option JObj → Client L.World JObj
  parsed json none = do put_line (codes "Failed to parse JSON: " ++ json); exit 1
  parsed json (some obj) = pure obj

  unfoldable pub parse_json : Text → Client L.World JObj
  parse_json json = parsed json (J.json_c.tokener_parse json)

  abbrev pub error_line : JObj → Text
  error_line error =
      codes "ERROR: "
      ++ (print_int (int_or_zero (J.json_c.object_get error (codes "code")))
          ++ (codes ": " ++ string_or_null (J.json_c.object_get error (codes "message"))))

  abbrev pub report : Option JObj → Client L.World (Unit {0})
  report none = pure tt
  report (some error) = do put_line (error_line error); exit 1

  unfoldable pub handle_error : Text → Client L.World (Unit {0})
  unfolding parse_json
  handle_error json = do jobj ← parse_json json; report (J.json_c.object_get jobj (codes "error"))

  abbrev pub after_send : Bool → Client L.World (Unit {0})
  after_send true = pure tt
  after_send false =
      λ w. (do put_line (codes "Failed to send message to server: " ++ L.strerror w); exit 1) w

  unfoldable pub send_request : Text → Client L.World (Unit {0})
  send_request message = λ w out. let (sent, w) = L.zmq_send w message in after_send sent w out

  abbrev pub after_recv : Option Text → Client L.World Text
  after_recv none =
      λ w. (do put_line (codes "Failed to receive message from server: " ++ L.strerror w); exit 1) w
  after_recv (some message) = do handle_error message; pure message

  unfoldable pub get_reply : Client L.World Text
  unfolding handle_error
  get_reply = λ w out. let (message, w) = L.zmq_recv w in after_recv message w out

  unfoldable pub get_events_raw : Text → ℤ → Client L.World Text
  unfolding send_request get_reply
  get_events_raw path count = do send_request (events_text path count); get_reply

  abbrev pub int_data : Option JObj → Client L.World ℤ
  int_data none = do put_line (codes "Failed to find data for queue_size in reply"); exit 1
  int_data (some size) =
      if is_int_type (J.json_c.get_type size)
      then pure (J.json_c.get_int size)
      else (do put_line (codes "Data received from server had invalid format"); exit 1)

  unfoldable pub get_queue_size : Text → Client L.World ℤ
  unfolding send_request get_reply parse_json
  get_queue_size path = do
    send_request (client_path_text (codes "get_queue_size") path)
    reply ← get_reply
    jobj ← parse_json reply
    int_data (J.json_c.object_get jobj (codes "data"))
