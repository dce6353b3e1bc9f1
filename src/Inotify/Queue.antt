-- ===== src/Inotify/Queue.antt =====
-- The event queues of src/inotify.c: inotify_enqueue, inotify_dequeue, inotify_get_events,
-- inotify_get_event, and the pause flag of a root.
pub mod Fifo
pub mod History
use inotispy.Prelude.{
  ℕ, zero, suc, Bool, true, false, ◌||◌, Option, none, some, List, [], ◌∷◌, ◌++◌, ◌==◌, ltb, ge_ℤ,
  length, if◌then◌else◌,
}
use inotispy.Text.{Text}
use inotispy.Reply.{
  InotispyError, inotify_root_does_not_exist, inotify_root_queue_full, inotify_root_not_watched,
}
use inotispy.Inotify.{Event, InEvent, Root, Sys, State, is_root, set_root, modify_root}

-- The new node of inotify_enqueue.
unfoldable pub make_event : InEvent → Text → Event
make_event event path = record {
  wd = event.wd;
  mask = event.mask;
  cookie = event.cookie;
  len = event.len;
  path = path;
  name = event.name;
}

-- The loop of g_queue_pop_head calls in inotify_dequeue: what is popped, and what stays.
unfoldable pub pop_events : ℕ → List Event → List Event × List Event
pop_events zero queue = ([], queue)
pop_events (suc n) [] = ([], [])
pop_events (suc n) (e ∷ queue) = let (events, rest) = pop_events n queue in (e ∷ events, rest)

-- The number of events that inotify_dequeue takes.
unfoldable pub dequeue_count : ℕ → ℕ → ℕ
dequeue_count count queue_len = if count == 0 || ltb queue_len count then queue_len else count

module _ {S : Sys} where
  unfoldable pub enqueue_to : State S → Root → InEvent → Text → Option InotispyError × State S
  unfolding make_event set_root
  enqueue_to st root event path =
      if ge_ℤ (length root.queue) root.max_events then (some inotify_root_queue_full, st) else (
        none,
        set_root st root.path (record root { queue = root.queue ++ make_event event path ∷ [] }),
      )

  -- inotify_enqueue; `none` is the return value 0.
  unfoldable pub enqueue : State S → Option Root → InEvent → Text → Option InotispyError × State S
  unfolding enqueue_to
  enqueue st none event path = (some inotify_root_does_not_exist, st)
  enqueue st (some root) event path = enqueue_to st root event path

  -- inotify_dequeue; `none` is NULL, for an empty queue.
  unfoldable pub dequeue : State S → Root → ℕ → Option (List Event) × State S
  unfolding pop_events dequeue_count set_root
  dequeue st root count =
      if length root.queue == 0
      then (none, st)
      else (let (events, rest) = pop_events (dequeue_count count (length root.queue)) root.queue in
          (some events, set_root st root.path (record root { queue = rest })))

  unfoldable pub get_events : State S → Text → ℕ → Option (List Event) × State S
  unfolding is_root dequeue
  get_events st path count = elim (is_root st path) [
    | none ↦ (none, st)
    | some root ↦ dequeue st root count
  ]

  -- inotify_get_event
  unfoldable pub get_event : State S → Text → Option (List Event) × State S
  unfolding get_events
  get_event st path = get_events st path 1

  unfoldable pub set_pause : Bool → State S → Text → Option InotispyError × State S
  unfolding is_root set_root
  set_pause flag st path = elim (is_root st path) [
    | none ↦ (some inotify_root_not_watched, st)
    | some root ↦ (none, set_root st path (record root { pause = flag }))
  ]

  unfoldable pub pause_tree : State S → Text → Option InotispyError × State S
  unfolding set_pause
  pause_tree = set_pause true

  unfoldable pub unpause_tree : State S → Text → Option InotispyError × State S
  unfolding set_pause
  unpause_tree = set_pause false
