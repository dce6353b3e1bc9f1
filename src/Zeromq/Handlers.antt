-- ===== src/Zeromq/Handlers.antt =====
-- The handlers of src/zeromq.c. A result `none` means that the C code reads outside a buffer.
use inotispy.Prelude.{
  ℕ, not, Option, none, some, ℤ, int_eq, pos_part, bit_or, if◌then◌else◌, is_some,
}
use inotispy.Text.{Text, slash, first_is}
use inotispy.Reply.{
  json_key_not_found, invalid_event_count, inotify_root_not_watched, inotify_root_already_watched,
  not_absolute_path,
}
use inotispy.Request.{
  JsonC, Request, get_path, get_mask, get_max_events, get_rewatch, get_count, minus_one,
}
use inotispy.Inotify.{
  Sys, is_root, in_attrib, in_moved_from, in_moved_to, in_create, in_close_write, in_delete,
  in_unmount, in_dont_follow,
}
use inotispy.Inotify.Queue.{get_events}
use inotispy.Inotify.Destroy.{unwatch_tree}
use inotispy.Inotify.Roots.{watch_tree}
use inotispy.Zeromq.Actions.{
  answer, subscribe_path, queue_size_path, pause_path, unpause_path, event_list,
}
use inotispy.Zeromq.{Host, Server, send, send_error}

-- INOTIFY_DEFAULT_MASK
unfoldable pub default_mask : ℕ
default_mask = bit_or in_attrib (
    bit_or in_moved_from (
      bit_or in_moved_to (
        bit_or in_create
          (bit_or in_close_write (bit_or in_delete (bit_or in_unmount in_dont_follow))))))

-- The mask and the queue limit of a new root: zero asks for the default.
unfoldable pub or_default : ℤ → ℤ → ℤ
or_default value default = if int_eq value (ℤ.pos 0) then default else value

module _ {S : Sys} {J : JsonC} where
  -- The handlers that ask for a path: without one they reply with an error.
  unfoldable pub with_path : Server S → Request J → (Text → Option (Server S)) → Option (Server S)
  unfolding get_path send_error
  with_path sv req handler = elim (get_path req) [
    | none ↦ none
    | some none ↦ some (send_error sv json_key_not_found)
    | some (some path) ↦ handler path
  ]

  unfoldable pub event_subscribe : Server S → Request J → Option (Server S)
  unfolding with_path subscribe_path
  event_subscribe sv req = with_path sv req (λ path. some (subscribe_path sv path))

  unfoldable pub event_unwatch : Server S → Request J → Option (Server S)
  unfolding with_path answer unwatch_tree
  event_unwatch sv req = with_path sv req (λ path. answer sv (unwatch_tree sv.inotify path))

  unfoldable pub event_get_queue_size : Server S → Request J → Option (Server S)
  unfolding with_path queue_size_path
  event_get_queue_size sv req = with_path sv req (λ path. some (queue_size_path sv path))

  unfoldable pub event_pause : Server S → Request J → Option (Server S)
  unfolding with_path pause_path
  event_pause sv req = with_path sv req (λ path. some (pause_path sv path))

  unfoldable pub event_unpause : Server S → Request J → Option (Server S)
  unfolding with_path unpause_path
  event_unpause sv req = with_path sv req (λ path. some (unpause_path sv path))

  unfoldable pub get_events_path : Server S → Request J → Text → Server S
  unfolding is_root send_error get_count minus_one get_events send event_list
  get_events_path sv req path =
      if not (is_some (is_root sv.inotify path))
      then send_error sv inotify_root_not_watched
      else if int_eq (get_count req) minus_one
      then send_error sv invalid_event_count
      else (let (es, st) = get_events sv.inotify path (pos_part (get_count req)) in
          send (record sv { inotify = st }) (event_list es))

  unfoldable pub event_get_events : Server S → Request J → Option (Server S)
  unfolding with_path get_events_path
  event_get_events sv req = with_path sv req (λ path. some (get_events_path sv req path))

module _ {S : Sys} {J : JsonC} (host : Host) where
  unfoldable pub watch_path : Server S → Request J → Text → Option (Server S)
  unfolding answer send_error is_root watch_tree or_default default_mask get_mask get_max_events
      get_rewatch
  watch_path sv req path =
      if not (first_is slash path)
      then some (send_error sv not_absolute_path)
      else if is_some (is_root sv.inotify path)
      then some (send_error sv inotify_root_already_watched)
      else answer sv (
          watch_tree sv.inotify path (or_default (get_mask req) (ℤ.pos default_mask))
            (or_default (get_max_events req) host.max_inotify_events) (get_rewatch req))

  -- EVENT_watch. The path is copied by the format "%s" before it is tested for NULL.
  unfoldable pub event_watch : Server S → Request J → Option (Server S)
  unfolding get_path watch_path
  event_watch sv req = elim (get_path req) [
    | none ↦ none
    | some none ↦ watch_path sv req host.null_text
    | some (some path) ↦ watch_path sv req path
  ]
