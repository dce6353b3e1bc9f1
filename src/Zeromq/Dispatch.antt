-- ===== src/Zeromq/Dispatch.antt =====
-- zmq_dispatch_event and zmq_handle_event of src/zeromq.c. A result `none` means that the C code
-- reads outside a buffer.
use inotispy.Prelude.{
  ℕ, Bool, false, not, ◌&&◌, ◌||◌, Option, none, some, List, [], ◌∷◌, ◌==◌, length, get_elem?,
  if◌then◌else◌,
}
use inotispy.Text.{Text, codes, text_eq, first_is}
use inotispy.Reply.{json_invalid, json_parse, zeromq_reconnect, bad_call}
use inotispy.Request.{JsonC, Request, request_parse}
use inotispy.Inotify.{Sys}
use inotispy.Zeromq.Actions.{event_get_roots, event_status}
use inotispy.Zeromq.Handlers.{
  event_watch, event_subscribe, event_unwatch, event_get_queue_size, event_pause, event_unpause,
  event_get_events,
}
use inotispy.Zeromq.{pong, Host, Server, send, send_error}

module _ {S : Sys} {J : JsonC} (host : Host) where
  -- zmq_dispatch_event
  unfoldable pub dispatch_event : Server S → Request J → Option (Server S)
  unfolding send send_error event_status event_watch event_pause event_unpause event_subscribe
      event_unwatch event_get_events event_get_queue_size event_get_roots
  dispatch_event sv req =
      if text_eq req.call (codes "ping")
      then some (send sv pong)
      else if text_eq req.call (codes "status")
      then some (event_status host sv)
      else if text_eq req.call (codes "watch")
      then event_watch host sv req
      else if text_eq req.call (codes "pause")
      then event_pause sv req
      else if text_eq req.call (codes "unpause")
      then event_unpause sv req
      else if text_eq req.call (codes "subscribe")
      then event_subscribe sv req
      else if text_eq req.call (codes "unwatch")
      then event_unwatch sv req
      else if text_eq req.call (codes "get_events")
      then event_get_events sv req
      else if text_eq req.call (codes "get_queue_size")
      then event_get_queue_size sv req
      else if text_eq req.call (codes "get_roots")
      then some (event_get_roots sv)
      else some (send_error sv bad_call)

-- The bytes of a message as a C string: up to the first zero.
unfoldable pub c_string : List ℕ → Text
c_string [] = []
c_string (c ∷ cs) = let rest = c_string cs in if c == 0 then [] else c ∷ rest

-- The loop that cuts what follows the first closing brace.
unfoldable pub cut_junk : Text → Text
cut_junk [] = []
cut_junk (c ∷ cs) = let rest = cut_junk cs in if c == b'}' then c ∷ [] else c ∷ rest

unfoldable pub last_is : ℕ → Text → Bool
last_is c [] = false
last_is c (x ∷ xs) = elim (get_elem? (x ∷ xs) (length xs)) [ none ↦ false | some y ↦ y == c ]

-- strlen(json) < 1 || (json[0] != '{' && json[strlen(json) - 1] != '}')
unfoldable pub is_junk : Text → Bool
unfolding last_is
is_junk json = length json == 0 || (not (first_is b'{' json) && not (last_is b'}' json))

module _ {S : Sys} (J : JsonC) (host : Host) where
  unfoldable pub parse_and_dispatch : Server S → Text → Option (Server S)
  unfolding request_parse send_error dispatch_event
  parse_and_dispatch sv json = elim (request_parse {J = J} json) [
    | none ↦ some (send_error sv json_parse)
    | some req ↦ dispatch_event host sv req
  ]

  unfoldable pub handle_text : Server S → Text → Option (Server S)
  unfolding cut_junk is_junk send_error parse_and_dispatch
  handle_text sv json =
      if length json == 0
      then some sv
      else if is_junk (cut_junk json)
      then some (send_error sv json_invalid)
      else parse_and_dispatch sv (cut_junk json)

  -- zmq_handle_event, of the message that zmq_recv returns, or of its failure.
  unfoldable pub zmq_handle_event : Server S → Option (List ℕ) → Option (Server S)
  unfolding c_string send_error handle_text
  zmq_handle_event sv none = some (send_error sv zeromq_reconnect)
  zmq_handle_event sv (some message) = handle_text sv (c_string message)
