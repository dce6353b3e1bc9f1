-- ===== src/Reply.antt =====
-- src/reply.h and src/reply.c: the error codes, their messages and the reply texts.
use inotispy.Prelude.{ℕ, String}

-- enum inotispy_error
pub data InotispyError : Type 0 where
  json_invalid json_parse json_key_not_found zero_byte_message zeromq_reconnect : InotispyError
  inotify_watch_failed inotify_unwatch_failed invalid_event_count : InotispyError
  inotify_root_not_watched inotify_root_already_watched inotify_parent_of_root : InotispyError
  inotify_child_of_root inotify_root_does_not_exist inotify_root_queue_full : InotispyError
  not_absolute_path failed_to_create_new_thread memory_allocation : InotispyError
  inotify_root_being_destroyed bad_call unknown : InotispyError

-- The value that C gives to each enumerator.
unfoldable pub error_code : InotispyError → ℕ
error_code json_invalid = 0
error_code json_parse = 1
error_code json_key_not_found = 2
error_code zero_byte_message = 3
error_code zeromq_reconnect = 4
error_code inotify_watch_failed = 5
error_code inotify_unwatch_failed = 6
error_code invalid_event_count = 7
error_code inotify_root_not_watched = 8
error_code inotify_root_already_watched = 9
error_code inotify_parent_of_root = 10
error_code inotify_child_of_root = 11
error_code inotify_root_does_not_exist = 12
error_code inotify_root_queue_full = 13
error_code not_absolute_path = 14
error_code failed_to_create_new_thread = 15
error_code memory_allocation = 16
error_code inotify_root_being_destroyed = 17
error_code bad_call = 18
error_code unknown = 19

-- error_to_string
unfoldable pub error_to_string : InotispyError → String
error_to_string json_invalid = "Invalid JSON"
error_to_string json_parse = "Failed to parse JSON"
error_to_string json_key_not_found = "Key not found in JSON"
error_to_string inotify_watch_failed = "Failed to set up new inotify watch"
error_to_string inotify_unwatch_failed = "Failed to unwatch root"
error_to_string invalid_event_count = "Invald event count value"
error_to_string zero_byte_message = "Zero byte message received"
error_to_string inotify_root_not_watched = "This root is currently not watched under inotify"
error_to_string inotify_root_already_watched = "This root is currently being watched under inotify"
error_to_string inotify_parent_of_root = "This directory is the parent of a currently watched root"
error_to_string inotify_child_of_root = "This directory is the child of a currently watched root"
error_to_string inotify_root_queue_full = "Inotify event queue is full for this root"
error_to_string inotify_root_does_not_exist = "This directory does not exist"
error_to_string memory_allocation =
    "Failed to allocate new memory. Check the log for the specific module and function where the error occurred."
error_to_string failed_to_create_new_thread = "Failed to create a new thread"
error_to_string inotify_root_being_destroyed = "Inotify root currently being destroyed"
error_to_string zeromq_reconnect =
    "Please re-initialize your ZeroMQ connection and reconnect to Inotispy"
error_to_string not_absolute_path = "Path must be absolute"
error_to_string bad_call = "User tried to execute an unsupported call"
error_to_string unknown = "Unknown error"
