-- ===== src/Zeromq/Actions.antt =====
-- What the handlers of src/zeromq.c do with a path or with none, once the request is read.
use inotispy.Prelude.{
  ◌||◌, Option, none, some, List, [], ◌∷◌, ℤ, int_eq, is_neg, map, length, if◌then◌else◌, is_some,
}
use inotispy.Text.{Text, codes, text_eq}
use inotispy.Reply.{InotispyError, inotify_root_not_watched}
use inotispy.Inotify.{Event, Sys, State, is_root}
use inotispy.Inotify.Queue.{get_events, pause_tree, unpause_tree}
use inotispy.Inotify.Roots.{get_roots, num_watched_dirs}
use inotispy.Zeromq.{
  Reply, number, events, roots, status, Host, Server, event_to_jobj, split_uptime, send, send_error,
  send_success, send_result,
}

-- The texts before the mark of the list's end.
unfoldable pub before_eol : List Text → List Text
before_eol [] = []
before_eol (r ∷ rs) = let rest = before_eol rs in if text_eq r (codes "EOL") then [] else r ∷ rest

unfoldable pub event_list : Option (List Event) → Reply
unfolding event_to_jobj
event_list none = events []
event_list (some es) = events (map event_to_jobj es)

module _ {S : Sys} where
  unfoldable pub answer : Server S → Option (Option InotispyError × State S) → Option (Server S)
  unfolding send_result
  answer sv none = none
  answer sv (some (rv, st)) = some (send_result (record sv { inotify = st }) rv)

  unfoldable pub subscribe_path : Server S → Text → Server S
  unfolding is_root send_error send
  subscribe_path sv path =
      if is_some (is_root sv.inotify path)
      then send sv (number 1234)
      else send_error sv inotify_root_not_watched

  unfoldable pub queue_size_path : Server S → Text → Server S
  unfolding is_root send_error send
  queue_size_path sv path = elim (is_root sv.inotify path) [
    | none ↦ send_error sv inotify_root_not_watched
    | some root ↦ if root.destroy then send sv (number 0) else send sv (number (length root.queue))
  ]

  -- The queue is flushed when the root has been paused.
  unfoldable pub flush : Server S → Text → Option InotispyError × State S → Server S
  unfolding get_events send_error send_success
  flush sv path (some e, st) = send_error (record sv { inotify = st }) e
  flush sv path (none, st) = send_success (record sv { inotify = (get_events st path 0).1 })

  unfoldable pub pause_path : Server S → Text → Server S
  unfolding is_root send_error pause_tree flush
  pause_path sv path =
      if is_some (is_root sv.inotify path)
      then flush sv path (pause_tree sv.inotify path)
      else send_error sv inotify_root_not_watched

  unfoldable pub unpause_path : Server S → Text → Server S
  unfolding is_root send_error unpause_tree send_result
  unpause_path sv path =
      if is_some (is_root sv.inotify path)
      then (let (rv, st) = unpause_tree sv.inotify path in
          send_result (record sv { inotify = st }) rv)
      else send_error sv inotify_root_not_watched

  unfoldable pub event_get_roots : Server S → Server S
  unfolding get_roots before_eol send
  event_get_roots sv =
      if is_neg sv.inotify.num_watched_roots || int_eq sv.inotify.num_watched_roots (ℤ.pos 0)
      then send sv (roots [])
      else send sv (roots (before_eol (get_roots sv.inotify)))

  unfoldable pub event_status : Host → Server S → Server S
  unfolding send split_uptime num_watched_dirs
  event_status host sv =
      send sv (status host.pid (num_watched_dirs sv.inotify) (split_uptime host.seconds_up))
