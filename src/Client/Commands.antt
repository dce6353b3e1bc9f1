-- ===== src/Client/Commands.antt =====
-- The commands of bin/inotispyctl.c.
use inotispy.Prelude.{
  ℕ, zero, suc, ◌==◌, Bool, true, false, Option, none, some, List, [], ◌∷◌, ◌++◌, ℤ, if◌then◌else◌,
}
use inotispy.Text.{Text, codes}
use inotispy.Text.Decimal.{print_int, atoi}
use inotispy.Request.{JsonType, json_array}
use inotispy.Client.{Link, ReplyJson, Client, ◌>>=◌, ◌>>◌, pure, print, exit}
use inotispy.Client.Texts.{call_text, client_path_text, is_unsigned_int}
use inotispy.Client.Messages.{
  JObj, int_or_zero, string_or_null, put_line, parse_json, send_request, get_reply, get_events_raw,
  get_queue_size,
}

abbrev pub is_array_type : JsonType → Bool
is_array_type json_array = true
is_array_type _ = false

module _ (L : Link) (J : ReplyJson) where
  -- watch, unwatch, pause_root and unpause_root: they differ in the call and in the last words.
  unfoldable pub path_command : Text → Text → Text → Client L.World (Unit {0})
  path_command call words path = do
    send_request L J (client_path_text call path)
    reply ← get_reply L J
    put_line L J (codes "Root " ++ (path ++ words))

  abbrev pub watch : Text → Client L.World (Unit {0})
  watch = path_command (codes "watch") (codes " is now being watched")

  abbrev pub unwatch : Text → Client L.World (Unit {0})
  unwatch = path_command (codes "unwatch") (codes " is no longer being watched")

  abbrev pub pause_root : Text → Client L.World (Unit {0})
  pause_root = path_command (codes "pause") (codes " is now paused")

  abbrev pub unpause_root : Text → Client L.World (Unit {0})
  unpause_root = path_command (codes "unpause") (codes " is now unpaused")

  unfoldable pub flush_queue : Text → Client L.World (Unit {0})
  flush_queue path = do
    reply ← get_events_raw L J path (ℤ.pos 0)
    put_line L J (codes "Queue for root " ++ (path ++ codes " has been flushed"))

  unfoldable pub list_queue_size : Text → Client L.World (Unit {0})
  list_queue_size path = do
    queue_size ← get_queue_size L J path
    put_line L J (path ++ (codes "  " ++ print_int queue_size))

  -- The format "%s/%s  %d".
  unfoldable pub fmt_event : JObj L J → Text
  fmt_event event =
      let get = J.json_c.object_get event in
      string_or_null L J (get (codes "path"))
      ++ (codes "/"
          ++ (string_or_null L J (get (codes "name"))
              ++ (codes "  " ++ print_int (int_or_zero L J (get (codes "mask"))))))

  unfoldable pub print_each : List (JObj L J) → Client L.World (Unit {0})
  print_each [] = pure tt
  print_each (event ∷ events) = do put_line L J (fmt_event event); print_each events

  unfoldable pub print_events : List (JObj L J) → Client L.World (Unit {0})
  print_events [] = put_line L J (codes "There are no events at this time")
  print_events (event ∷ events) = print_each (event ∷ events)

  -- Data of another type than an array is passed over.
  abbrev pub events_data : Option (JObj L J) → Client L.World (Unit {0})
  events_data none = do
    put_line L J (codes "ERROR: Failed to find data for events in reply")
    exit 1
  events_data (some events) =
      if is_array_type (J.json_c.get_type events) then print_events (J.elements events) else pure tt

  abbrev pub count_help : Text
  count_help =
      codes
        "ERROR: Invalid value for 'count' while calling get_events.\n       This should be a number >= 0, where 0 means you want\n       to retrieve *all* the events in the queue.\n       Run `inotispyctl --help` or `man inotispyctl` for more info.\n"

  abbrev pub events_reply : Text → ℤ → Client L.World (Unit {0})
  events_reply path count = do
    reply ← get_events_raw L J path count
    jobj ← parse_json L J reply
    events_data (J.json_c.object_get jobj (codes "data"))

  unfoldable pub list_events : Text → Text → Client L.World (Unit {0})
  list_events path count =
      if is_unsigned_int count
      then events_reply path (atoi count)
      else (do print count_help; exit 1)

  -- The loop of list_roots; `queue` asks for the sizes of the queues, one request for each root.
  unfoldable pub print_roots : Bool → List (JObj L J) → Client L.World (Unit {0})
  print_roots queue [] = pure tt
  print_roots true (root ∷ roots) = do
    list_queue_size (J.json_c.get_string root)
    print_roots true roots
  print_roots false (root ∷ roots) = do
    put_line L J (J.json_c.get_string root)
    print_roots false roots

  abbrev pub roots_list : Bool → List (JObj L J) → Client L.World (Unit {0})
  roots_list queue [] = put_line L J (codes "There are no currently watched roots")
  roots_list queue (root ∷ roots) = print_roots queue (root ∷ roots)

  abbrev pub roots_data : Bool → Option (JObj L J) → Client L.World (Unit {0})
  roots_data queue none = do put_line L J (codes "Failed to find data for roots in reply"); exit 1
  roots_data queue (some roots) =
      if is_array_type (J.json_c.get_type roots)
      then roots_list queue (J.elements roots)
      else (do put_line L J (codes "Data received from server had invalid format"); exit 1)

  unfoldable pub list_roots : Bool → Client L.World (Unit {0})
  list_roots queue = do
    send_request L J (call_text (codes "get_roots"))
    reply ← get_reply L J
    jobj ← parse_json L J reply
    roots_data queue (J.json_c.object_get jobj (codes "data"))

  -- The two calls of system(3), which print the memory of the daemon, are left out.
  unfoldable pub get_status : Client L.World (Unit {0})
  get_status = do
    send_request L J (call_text (codes "status"))
    reply ← get_reply L J
    status ← parse_json L J reply
    put_line L J
        (codes "pid: " ++ print_int (int_or_zero L J (J.json_c.object_get status (codes "pid"))))
    put_line L J (
        codes "watches: "
        ++ print_int (int_or_zero L J (J.json_c.object_get status (codes "watches"))))
    put_line L J
        (codes "uptime: " ++ string_or_null L J (J.json_c.object_get status (codes "uptime")))

  -- The tries of zmq_ping, each with a receive that does not wait.
  unfoldable pub poll_pong : ℕ → L.World → Bool × L.World
  poll_pong zero w = (false, w)
  poll_pong (suc tries) w =
      let (size, w) = L.zmq_recv_now w in
      let rest = poll_pong tries w in if size == 0 then rest else (true, w)

  abbrev pub pong_line : Bool → Client L.World (Unit {0})
  pong_line true = put_line L J (codes "pong! Inotispy is up and running.")
  pong_line false = do
    put_line L J (codes "nothing. Check to make sure Inotispy is running.")
    exit 1

  abbrev pub wait_pong : Client L.World (Unit {0})
  wait_pong = λ w out. let (pong, w) = poll_pong 10 w in pong_line pong w out

  unfoldable pub zmq_ping : Client L.World (Unit {0})
  zmq_ping = do print (codes "ping... "); send_request L J (call_text (codes "ping")); wait_pong
