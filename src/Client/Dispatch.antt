-- ===== src/Client/Dispatch.antt =====
-- The command line of bin/inotispyctl.c: main, with its dispatcher.
use inotispy.Prelude.{Bool, true, false, Option, none, some, List, [], ◌∷◌, ◌++◌, if◌then◌else◌}
use inotispy.Text.{Text, codes, text_eq}
use inotispy.Client.{Link, ReplyJson, Client, ◌>>=◌, ◌>>◌, pure, print, exit}
use inotispy.Client.Messages.{put_line}
use inotispy.Client.Commands.{
  watch, unwatch, pause_root, unpause_root, flush_queue, list_queue_size, list_events, list_roots,
  get_status, zmq_ping,
}

-- A result of getopt_long: '?' is `no_uri` where the argument of -u is missing, and `other` else.
pub data ClientOption : Type 0 where
  version help no_uri other : ClientOption
  uri : Text → ClientOption

module _ (L : Link) (J : ReplyJson) (help_text version_text : Text) where
  -- print_help ends in exit(1).
  unfoldable pub print_help {ℓ} : {A : Type ℓ} → Client L.World A
  print_help = do print help_text; exit 1

  unfoldable pub print_version_and_exit {ℓ} : {A : Type ℓ} → Client L.World A
  print_version_and_exit = do print version_text; exit 0

  abbrev pub requires : Text → Client L.World (Unit {0})
  requires message = do put_line L J message; print_help

  -- A command that takes a target dir.
  abbrev pub with_dir :
      Text → List Text → (Text → Client L.World (Unit {0})) → Client L.World (Unit {0})
  with_dir name [] run =
      requires (codes "ERROR: Command " ++ (name ++ codes " requires a target dir"))
  with_dir name (dir ∷ args) run = run dir

  abbrev pub with_dir_and_count : List Text → Client L.World (Unit {0})
  with_dir_and_count (dir ∷ count ∷ args) = list_events L J dir count
  with_dir_and_count _ =
      requires (codes "ERROR: Command get_events requires a target dir and a count")

  -- The dispatcher, of the command and of what follows it in argv.
  unfoldable pub dispatch : Text → List Text → Client L.World (Unit {0})
  dispatch command args =
      if text_eq command (codes "ping")
      then zmq_ping L J
      else if text_eq command (codes "status")
      then get_status L J
      else if text_eq command (codes "list_roots")
      then list_roots L J false
      else if text_eq command (codes "list_queues")
      then list_roots L J true
      else if text_eq command (codes "get_events")
      then with_dir_and_count args
      else if text_eq command (codes "queue_size")
      then with_dir (codes "queue_size") args (list_queue_size L J)
      else if text_eq command (codes "flush_queue")
      then with_dir (codes "flush_queue") args (flush_queue L J)
      else if text_eq command (codes "watch")
      then with_dir (codes "watch") args (watch L J)
      else if text_eq command (codes "unwatch")
      then with_dir (codes "unwatch") args (unwatch L J)
      else if text_eq command (codes "pause")
      then with_dir (codes "pause") args (pause_root L J)
      else if text_eq command (codes "unpause")
      then with_dir (codes "unpause") args (unpause_root L J)
      else requires (codes "ERROR: Unknown command: " ++ command)

  -- The loop over the options; the result is the URI.
  unfoldable pub read_options : List ClientOption → Option Text → Client L.World (Option Text)
  read_options [] zmq_uri = pure zmq_uri
  read_options (version ∷ opts) zmq_uri = print_version_and_exit
  read_options (help ∷ opts) zmq_uri = print_help
  read_options (no_uri ∷ opts) zmq_uri = print_help
  read_options (other ∷ opts) zmq_uri = exit 1
  read_options (uri text ∷ opts) zmq_uri = read_options opts (some text)

  abbrev pub no_command {ℓ} : {A : Type ℓ} → Client L.World A
  no_command = do
    put_line L J (codes "No command speficied. Run `inotispyctl --help` for more info.")
    exit 1

  abbrev pub uri_or_default : Option Text → Text
  uri_or_default none = codes "tcp://127.0.0.1:5559"
  uri_or_default (some zmq_uri) = zmq_uri

  -- main, of the options and the other arguments; zmq_connect succeeds or not.
  unfoldable pub main : (Text → Bool) → List ClientOption → List Text → Client L.World (Unit {0})
  main connects opts [] = do zmq_uri ← read_options opts none; no_command
  main connects opts (command ∷ args) = do
    zmq_uri ← read_options opts none
    if connects (uri_or_default zmq_uri) then dispatch command args else λ w.
        (do put_line L J (codes "Failed to connect ZeroMQ socket: " ++ L.strerror w); exit 1) w
