-- ===== src/Zeromq/Keeps.antt =====
-- The requests of src/zeromq.c and the invariant of the tables of src/inotify.c.
use inotispy.Prelude.{
  ℕ, ◌≡◌, refl, subst, Bool, true, false, not, Option, none, some, List, inl, inr, ℤ, pos_part,
  int_eq, String, Bool-cases, Option-cases, is_some, if◌then◌else◌,
}
use inotispy.Text.{Text, slash, first_is, codes, text_eq}
use inotispy.Reply.{InotispyError}
use inotispy.Request.{
  JsonC, Request, request_parse, get_path, get_count, get_mask, get_max_events, get_rewatch,
  minus_one,
}
use inotispy.Inotify.{Sys, State, is_root}
use inotispy.Inotify.Queue.{set_pause, pause_tree, unpause_tree}
use inotispy.Inotify.Sound.{
  Sound, get_events-Sound, set_pause-Sound, watch_tree-Sound, unwatch_tree-Sound,
}
use inotispy.Zeromq.{Host, Server, send_result}
use inotispy.Zeromq.Actions.{
  answer, subscribe_path, queue_size_path, flush, pause_path, unpause_path, event_get_roots,
  event_status,
}
use inotispy.Zeromq.Handlers.{
  default_mask, or_default, with_path, watch_path, event_watch, event_subscribe, event_unwatch,
  event_get_queue_size, event_pause, event_unpause, get_events_path, event_get_events,
}
use inotispy.Zeromq.Dispatch.{
  dispatch_event, parse_and_dispatch, handle_text, zmq_handle_event, c_string, cut_junk, is_junk,
}

module _ {S : Sys} where
  abbrev pub IsSound : Server S → Type 0
  IsSound sv = Sound sv.inotify

  -- So of a handler that does not read outside a buffer.
  pub record EndsSound (result : Option (Server S)) : Type 0 where
    pub sound : (t : Server S) → result ≡ some t → IsSound t

  some-EndsSound : (t : Server S) → IsSound t → EndsSound (some t)
  some-EndsSound t h = record { sound = λ u e. let same : t ≡ u = cc in subst IsSound same h }

  none-EndsSound : EndsSound none
  none-EndsSound = record { sound = λ u e. absurd (cc) }

  if-EndsSound :
      (b : Bool) (t u : Option (Server S))
      → EndsSound t
      → EndsSound u
      → EndsSound (if b then t else u)
  if-EndsSound true t u p q = p
  if-EndsSound false t u p q = q

  either-IsSound :
      (b : Bool) (t u : Server S) → IsSound t → IsSound u → IsSound (if b then t else u)
  either-IsSound true t u p q = p
  either-IsSound false t u p q = q

  send_result-IsSound :
      (sv : Server S) (rv : Option InotispyError) → IsSound sv → IsSound (send_result sv rv)
  unfolding send_result
  send_result-IsSound sv none h = h
  send_result-IsSound sv (some e) h = h

  answer-EndsSound :
      (sv : Server S) (o : Option (Option InotispyError × State S))
      → ((rv : Option InotispyError) (st : State S) → o ≡ some (rv, st) → Sound st)
      → EndsSound (answer sv o)
  unfolding answer
  answer-EndsSound sv none h = none-EndsSound
  answer-EndsSound sv (some (rv, st)) h =
      some-EndsSound _ (send_result-IsSound (record sv { inotify = st }) rv (h rv st refl))

  subscribe_path-IsSound :
      (sv : Server S) (path : Text) → IsSound sv → IsSound (subscribe_path sv path)
  unfolding subscribe_path
  subscribe_path-IsSound sv path h = either-IsSound (is_some (is_root sv.inotify path)) _ _ h h

  queue_size_path-IsSound :
      (sv : Server S) (path : Text) → IsSound sv → IsSound (queue_size_path sv path)
  unfolding queue_size_path
  queue_size_path-IsSound sv path h = elim (Option-cases (is_root sv.inotify path)) [
    | inl missing ↦ rw (missing, queue_size_path) h
    | inr (root, found) ↦ rw (found, queue_size_path) (either-IsSound root.destroy _ _ h h)
  ]

  flush-IsSound :
      (sv : Server S) (path : Text) (r : Option InotispyError × State S)
      → Sound r.1
      → IsSound (flush sv path r)
  unfolding flush
  flush-IsSound sv path (some x, st) h = h
  flush-IsSound sv path (none, st) h = get_events-Sound st path 0 h

  pause_path-IsSound : (sv : Server S) (path : Text) → IsSound sv → IsSound (pause_path sv path)
  unfolding pause_path pause_tree
  pause_path-IsSound sv path h =
      either-IsSound (is_some (is_root sv.inotify path)) _ _
        (flush-IsSound sv path (set_pause true sv.inotify path)
          (set_pause-Sound true sv.inotify path h))
        h

  unpause_path-IsSound : (sv : Server S) (path : Text) → IsSound sv → IsSound (unpause_path sv path)
  unfolding unpause_path unpause_tree
  unpause_path-IsSound sv path h =
      let (rv, st) = set_pause false sv.inotify path in
      either-IsSound (is_some (is_root sv.inotify path)) _ _
        (send_result-IsSound (record sv { inotify = st }) rv
          (set_pause-Sound false sv.inotify path h))
        h

  event_get_roots-IsSound : (sv : Server S) → IsSound sv → IsSound (event_get_roots sv)
  unfolding event_get_roots
  event_get_roots-IsSound sv h = either-IsSound _ _ _ h h

module _ {S : Sys} {J : JsonC} (host : Host) (sv : Server S) (req : Request J)
    (h : Sound sv.inotify) where
  with_path-EndsSound :
      (handler : Text → Option (Server S))
      → ((path : Text) → EndsSound (handler path))
      → EndsSound (with_path sv req handler)
  unfolding with_path
  with_path-EndsSound handler each = go (get_path req) refl
    where
      go : (p : Option (Option Text)) → get_path req ≡ p → EndsSound (with_path sv req handler)
      go none e = rw (e, with_path) none-EndsSound
      go (some none) e = rw (e, with_path) (some-EndsSound _ h)
      go (some (some path)) e = rw (e, with_path) (each path)

  get_events_path-IsSound : (path : Text) → IsSound (get_events_path sv req path)
  unfolding get_events_path
  get_events_path-IsSound path = either-IsSound (not (is_some (is_root sv.inotify path))) _ _ h (
      either-IsSound (int_eq (get_count req) minus_one) _ _ h
        (get_events-Sound sv.inotify path (pos_part (get_count req)) h))

  watch_path-EndsSound : (path : Text) → EndsSound (watch_path host sv req path)
  unfolding watch_path
  watch_path-EndsSound path = elim (Bool-cases (first_is slash path)) [
    | inr relative ↦ rw (relative, watch_path) (some-EndsSound _ h)
    | inl slashed ↦
        rw (slashed, watch_path)
          (if-EndsSound (is_some (is_root sv.inotify path)) _ _ (some-EndsSound _ h) (
            answer-EndsSound sv _ (λ rv st e.
              watch_tree-Sound sv.inotify st path (or_default (get_mask req) (ℤ.pos default_mask))
                (or_default (get_max_events req) host.max_inotify_events) (get_rewatch req) rv
                slashed h e)))
  ]

  event_watch-EndsSound : EndsSound (event_watch host sv req)
  unfolding event_watch
  event_watch-EndsSound = go (get_path req) refl
    where
      go : (p : Option (Option Text)) → get_path req ≡ p → EndsSound (event_watch host sv req)
      go none e = rw (e, event_watch) none-EndsSound
      go (some none) e = rw (e, event_watch) (watch_path-EndsSound host.null_text)
      go (some (some path)) e = rw (e, event_watch) (watch_path-EndsSound path)

  abbrev is_call : String → Bool
  is_call name = text_eq req.call (codes name)

  sound_with :
      (handler : Server S → Text → Server S)
      → ((path : Text) → IsSound (handler sv path))
      → EndsSound (with_path sv req (λ path. some (handler sv path)))
  sound_with handler each = with_path-EndsSound _ (λ path. some-EndsSound _ (each path))

  dispatch_event-EndsSound : EndsSound (dispatch_event host sv req)
  unfolding dispatch_event event_subscribe event_unwatch event_get_queue_size event_pause
      event_unpause event_get_events event_status
  dispatch_event-EndsSound = if-EndsSound (is_call "ping") _ _ (some-EndsSound _ h) (
      if-EndsSound (is_call "status") _ _ (some-EndsSound _ h) (
        if-EndsSound (is_call "watch") _ _ event_watch-EndsSound (
          if-EndsSound (is_call "pause") _ _
            (sound_with pause_path (λ path. pause_path-IsSound sv path h))
            (if-EndsSound (is_call "unpause") _ _
              (sound_with unpause_path (λ path. unpause_path-IsSound sv path h))
              (if-EndsSound (is_call "subscribe") _ _
                (sound_with subscribe_path (λ path. subscribe_path-IsSound sv path h))
                (if-EndsSound (is_call "unwatch") _ _
                  (with_path-EndsSound _ (λ path.
                    answer-EndsSound sv _
                      (λ rv st e. unwatch_tree-Sound sv.inotify st path rv h e)))
                  (if-EndsSound (is_call "get_events") _ _
                    (with_path-EndsSound _
                      (λ path. some-EndsSound _ (get_events_path-IsSound path)))
                    (if-EndsSound (is_call "get_queue_size") _ _
                      (sound_with queue_size_path (λ path. queue_size_path-IsSound sv path h))
                      (if-EndsSound (is_call "get_roots") _ _
                        (some-EndsSound _ (event_get_roots-IsSound sv h))
                        (some-EndsSound _ h))))))))))

module _ {S : Sys} (J : JsonC) (host : Host) (sv : Server S) (h : Sound sv.inotify) where
  parse_and_dispatch-EndsSound : (json : Text) → EndsSound (parse_and_dispatch J host sv json)
  unfolding parse_and_dispatch
  parse_and_dispatch-EndsSound json = elim (Option-cases (request_parse {J = J} json)) [
    | inl bad ↦ rw (bad, parse_and_dispatch) (some-EndsSound _ h)
    | inr (req, good) ↦ rw (good, parse_and_dispatch) (dispatch_event-EndsSound host sv req h)
  ]

  -- Whatever message arrives, its handling keeps the tables sound.
  pub zmq_handle_event-EndsSound :
      (message : Option (List ℕ)) → EndsSound (zmq_handle_event J host sv message)
  unfolding zmq_handle_event handle_text
  zmq_handle_event-EndsSound none = some-EndsSound _ h
  zmq_handle_event-EndsSound (some message) =
      let json = c_string message in
      if-EndsSound _ _ _ (some-EndsSound sv h) (
        if-EndsSound (is_junk (cut_junk json)) _ _ (some-EndsSound _ h)
          (parse_and_dispatch-EndsSound (cut_junk json)))
