-- ===== src/Zeromq/Replies.antt =====
-- How many replies each request of src/zeromq.c sends.
use inotispy.Prelude.{
  ◌≡◌, refl, Bool, true, false, Option, none, some, [], ◌∷◌, ◌++◌, arith, inl, inr, String, not,
  ◌||◌, ℤ, int_eq, is_neg, pos_part, Option-cases, is_some, if◌then◌else◌,
}
use inotispy.Text.{Text, slash, first_is, codes, text_eq}
use inotispy.Reply.{InotispyError, inotify_root_not_watched, invalid_event_count}
use inotispy.Request.{JsonC, Request, get_path, get_count, minus_one}
use inotispy.Inotify.{Sys, State, is_root}
use inotispy.Inotify.Queue.{pause_tree, unpause_tree, get_events}
use inotispy.Inotify.Roots.{get_roots}
use inotispy.Zeromq.{Reply, number, roots, Host, Server, send, send_error, send_result}
use inotispy.Zeromq.Actions.{
  event_list, before_eol, answer, subscribe_path, queue_size_path, flush, pause_path, unpause_path,
  event_get_roots, event_status,
}
use inotispy.Zeromq.Handlers.{
  with_path, watch_path, event_watch, event_subscribe, event_unwatch, event_get_queue_size,
  event_pause, event_unpause, get_events_path, event_get_events,
}
use inotispy.Zeromq.Dispatch.{dispatch_event}

module _ {S : Sys} where
  -- One reply more than before.
  pub record RepliedOnce (sv t : Server S) : Type 0 where
    pub reply : Reply
    pub appended : t.sent ≡ sv.sent ++ reply ∷ []

  -- So of a handler that does not read outside a buffer.
  pub record RepliesOnce (sv : Server S) (result : Option (Server S)) : Type 0 where
    pub once : (t : Server S) → result ≡ some t → RepliedOnce sv t

  some_once : (sv t : Server S) → RepliedOnce sv t → RepliesOnce sv (some t)
  some_once sv t h = record { once = λ u e. record { reply = h.reply; appended = cc (h.appended) } }

  none_once : (sv : Server S) → RepliesOnce sv none
  none_once sv = record { once = λ u e. absurd (cc) }

  send_result_once :
      (sv t : Server S) (rv : Option InotispyError)
      → t.sent ≡ sv.sent
      → RepliedOnce sv (send_result t rv)
  unfolding send_result
  send_result_once sv t none e = record { reply = Reply.success; appended = ground arith }
  send_result_once sv t (some x) e = record { reply = Reply.error x; appended = ground arith }

  answer_once :
      (sv : Server S) (o : Option (Option InotispyError × State S)) → RepliesOnce sv (answer sv o)
  unfolding answer
  answer_once sv none = none_once sv
  answer_once sv (some (rv, st)) =
      some_once sv _ (send_result_once sv (record sv { inotify = st }) rv refl)

  send_once : (sv t : Server S) (r : Reply) → t.sent ≡ sv.sent → RepliedOnce sv (send t r)
  unfolding send
  send_once sv t r e = record { reply = r; appended = ground arith }

  pub send_error_once : (sv : Server S) (x : InotispyError) → RepliedOnce sv (send_error sv x)
  unfolding send_error
  send_error_once sv x = record { reply = Reply.error x; appended = refl }

  if_once :
      (b : Bool) (sv t u : Server S)
      → RepliedOnce sv t
      → RepliedOnce sv u
      → RepliedOnce sv (if b then t else u)
  if_once true sv t u p q = p
  if_once false sv t u p q = q

  if_replies :
      (b : Bool) (sv : Server S) (t u : Option (Server S))
      → RepliesOnce sv t
      → RepliesOnce sv u
      → RepliesOnce sv (if b then t else u)
  if_replies true sv t u p q = p
  if_replies false sv t u p q = q

  subscribe_path_once : (sv : Server S) (path : Text) → RepliedOnce sv (subscribe_path sv path)
  unfolding subscribe_path
  subscribe_path_once sv path =
      if_once (is_some (is_root sv.inotify path)) sv (send sv (number 1234))
        (send_error sv inotify_root_not_watched) (send_once sv sv (number 1234) refl)
        (send_error_once sv inotify_root_not_watched)

  queue_size_path_once : (sv : Server S) (path : Text) → RepliedOnce sv (queue_size_path sv path)
  unfolding queue_size_path
  queue_size_path_once sv path = elim (Option-cases (is_root sv.inotify path)) [
    | inl missing ↦ rw (missing, queue_size_path) (send_error_once sv _)
    | inr (root, found) ↦
        rw (found, queue_size_path)
          (if_once root.destroy sv _ _ (send_once sv sv _ refl) (send_once sv sv _ refl))
  ]

  flush_once :
      (sv : Server S) (path : Text) (r : Option InotispyError × State S)
      → RepliedOnce sv (flush sv path r)
  unfolding flush
  flush_once sv path (some x, st) = record { reply = Reply.error x; appended = refl }
  flush_once sv path (none, st) = record { reply = Reply.success; appended = refl }

  pause_path_once : (sv : Server S) (path : Text) → RepliedOnce sv (pause_path sv path)
  unfolding pause_path
  pause_path_once sv path =
      let paused = pause_tree sv.inotify path in
      if_once (is_some (is_root sv.inotify path)) sv (flush sv path paused)
        (send_error sv inotify_root_not_watched) (flush_once sv path paused)
        (send_error_once sv inotify_root_not_watched)

  unpause_path_once : (sv : Server S) (path : Text) → RepliedOnce sv (unpause_path sv path)
  unfolding unpause_path
  unpause_path_once sv path =
      let (rv, st) = unpause_tree sv.inotify path in
      let t : Server S = record sv { inotify = st } in
      if_once (is_some (is_root sv.inotify path)) sv (send_result t rv)
        (send_error sv inotify_root_not_watched) (send_result_once sv t rv refl)
        (send_error_once sv inotify_root_not_watched)

  event_get_roots_once : (sv : Server S) → RepliedOnce sv (event_get_roots sv)
  unfolding event_get_roots
  event_get_roots_once sv =
      let all = roots (before_eol (get_roots sv.inotify)) in
      if_once (is_neg sv.inotify.num_watched_roots || int_eq sv.inotify.num_watched_roots (ℤ.pos 0))
        sv (send sv (roots [])) (send sv all) (send_once sv sv (roots []) refl)
        (send_once sv sv all refl)

module _ {S : Sys} {J : JsonC} where
  with_path_once :
      (sv : Server S) (req : Request J) (handler : Text → Option (Server S))
      → ((path : Text) → RepliesOnce sv (handler path))
      → RepliesOnce sv (with_path sv req handler)
  unfolding with_path
  with_path_once sv req handler each = go (get_path req) refl
    where
      go : (p : Option (Option Text)) → get_path req ≡ p → RepliesOnce sv (with_path sv req handler)
      go none e = rw (e, with_path) (none_once sv)
      go (some none) e = rw (e, with_path) (some_once sv _ (send_error_once sv _))
      go (some (some path)) e = rw (e, with_path) (each path)

  get_events_path_once :
      (sv : Server S) (req : Request J) (path : Text) → RepliedOnce sv (get_events_path sv req path)
  unfolding get_events_path
  get_events_path_once sv req path =
      let (es, st) = get_events sv.inotify path (pos_part (get_count req)) in
      let t : Server S = record sv { inotify = st } in
      let rest =
        if int_eq (get_count req) minus_one
        then send_error sv invalid_event_count
        else send t (event_list es) in
      if_once (not (is_some (is_root sv.inotify path))) sv (send_error sv inotify_root_not_watched)
        rest (send_error_once sv inotify_root_not_watched)
        (if_once (int_eq (get_count req) minus_one) sv (send_error sv invalid_event_count)
          (send t (event_list es)) (send_error_once sv invalid_event_count)
          (send_once sv t (event_list es) refl))

module _ {S : Sys} {J : JsonC} (host : Host) (sv : Server S) (req : Request J) where
  watch_path_once : (path : Text) → RepliesOnce sv (watch_path host sv req path)
  unfolding watch_path
  watch_path_once path =
      if_replies (not (first_is slash path)) sv _ _ (some_once sv _ (send_error_once sv _)) (
        if_replies (is_some (is_root sv.inotify path)) sv _ _
          (some_once sv _ (send_error_once sv _)) (answer_once sv _))

  event_watch_once : RepliesOnce sv (event_watch host sv req)
  unfolding event_watch
  event_watch_once = go (get_path req) refl
    where
      go : (p : Option (Option Text)) → get_path req ≡ p → RepliesOnce sv (event_watch host sv req)
      go none e = rw (e, event_watch) (none_once sv)
      go (some none) e = rw (e, event_watch) (watch_path_once host.null_text)
      go (some (some path)) e = rw (e, event_watch) (watch_path_once path)

  abbrev is_call : String → Bool
  is_call name = text_eq req.call (codes name)

  -- Whatever the call, its handler sends one reply, or the C code reads outside a buffer.
  pub dispatch_event_once : RepliesOnce sv (dispatch_event host sv req)
  unfolding dispatch_event event_subscribe event_unwatch event_get_queue_size event_pause
      event_unpause event_get_events event_status
  dispatch_event_once =
      if_replies (is_call "ping") sv _ _ (some_once sv _ (send_once sv sv _ refl)) (
        if_replies (is_call "status") sv _ _ (some_once sv _ (send_once sv sv _ refl)) (
          if_replies (is_call "watch") sv _ _ event_watch_once (
            if_replies (is_call "pause") sv _ _
              (with_path_once sv req _ (λ path. some_once sv _ (pause_path_once sv path)))
              (if_replies (is_call "unpause") sv _ _
                (with_path_once sv req _ (λ path. some_once sv _ (unpause_path_once sv path)))
                (if_replies (is_call "subscribe") sv _ _
                  (with_path_once sv req _ (λ path. some_once sv _ (subscribe_path_once sv path)))
                  (if_replies (is_call "unwatch") sv _ _
                    (with_path_once sv req _ (λ path. answer_once sv _))
                    (if_replies (is_call "get_events") sv _ _
                      (with_path_once sv req _
                        (λ path. some_once sv _ (get_events_path_once sv req path)))
                      (if_replies (is_call "get_queue_size") sv _ _
                        (with_path_once sv req _
                          (λ path. some_once sv _ (queue_size_path_once sv path)))
                        (if_replies (is_call "get_roots") sv _ _
                          (some_once sv _ (event_get_roots_once sv))
                          (some_once sv _ (send_error_once sv _)))))))))))
