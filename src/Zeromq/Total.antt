-- ===== src/Zeromq/Total.antt =====
-- When the handlers of src/zeromq.c stay inside their buffers, and the answer of a message.
use inotispy.Prelude.{
  ◌⊎◌, ℕ, ◌<◌, ◌≡◌, ◌≢◌, refl, ap, subst, true, Option, none, some, List, [], ◌∷◌, arith, inl, inr,
  length, get_elem?, Bool-cases, Option-cases, is_some,
}
use inotispy.Text.{Text, slash, first_is}
use inotispy.Request.{JsonC, Request, request_parse, get_path}
use inotispy.Reply.{json_parse, json_invalid}
use inotispy.Inotify.{Sys}
use inotispy.Inotify.Destroy.{strip_last_slash, unwatch_tree}
use inotispy.Inotify.Roots.{clean_root_path, watch_tree}
use inotispy.Zeromq.{Host, Server}
use inotispy.Zeromq.Actions.{answer}
use inotispy.Zeromq.Handlers.{
  with_path, watch_path, event_watch, event_subscribe, event_unwatch, event_get_queue_size,
  event_pause, event_unpause, event_get_events,
}
use inotispy.Zeromq.Dispatch.{
  dispatch_event, parse_and_dispatch, handle_text, zmq_handle_event, c_string, cut_junk, is_junk,
}
use inotispy.Zeromq.Replies.{RepliedOnce, dispatch_event_once, send_error_once}

get_elem?_last : (c : ℕ) (cs : Text) → is_some (get_elem? (c ∷ cs) (length cs)) ≡ true
get_elem?_last c [] = refl
get_elem?_last c (d ∷ cs) = get_elem?_last d cs

strip_last_slash_total : (c : ℕ) (cs : Text) → is_some (strip_last_slash (c ∷ cs)) ≡ true
unfolding strip_last_slash
strip_last_slash_total c cs = ground (arith, get_elem?_last c cs)

clean_root_path_total :
    (path : Text) → first_is slash path ≡ true → is_some (clean_root_path path) ≡ true
unfolding clean_root_path
clean_root_path_total [] h = cc
clean_root_path_total (c ∷ cs) h = ground (arith, strip_last_slash_total c cs)

module _ {S : Sys} {J : JsonC} (host : Host) (sv : Server S) (req : Request J) where
  watch_path_total : (path : Text) → is_some (watch_path host sv req path) ≡ true
  unfolding watch_path watch_tree answer
  watch_path_total path = elim (Bool-cases (first_is slash path)) [
    | inr relative ↦ ground (arith, relative)
    | inl absolute ↦ ground (arith, absolute, clean_root_path_total path absolute)
  ]

  unwatch_total :
      (c : ℕ) (cs : Text) → is_some (answer sv (unwatch_tree sv.inotify (c ∷ cs))) ≡ true
  unfolding unwatch_tree answer
  unwatch_total c cs = ground (arith, strip_last_slash_total c cs)

  handlers_total :
      (p : Option Text)
      → get_path req ≡ some p
      → p ≢ some []
      → (is_some (event_watch host sv req) ≡ true)
        × (is_some (event_pause sv req) ≡ true)
        × (is_some (event_unpause sv req) ≡ true)
        × (is_some (event_subscribe sv req) ≡ true)
        × (is_some (event_unwatch sv req) ≡ true)
        × (is_some (event_get_events sv req) ≡ true)
        × (is_some (event_get_queue_size sv req) ≡ true)
  unfolding event_watch event_pause event_unpause event_subscribe event_unwatch event_get_events
      event_get_queue_size with_path
  handlers_total none e h =
      rw
        (
          e, event_watch, event_pause, event_unpause, event_subscribe, event_unwatch,
          event_get_events, event_get_queue_size, with_path,
        )
        (watch_path_total host.null_text, refl, refl, refl, refl, refl, refl)
  handlers_total (some []) e h = absurd (h refl)
  handlers_total (some (c ∷ cs)) e h =
      rw
        (
          e, event_watch, event_pause, event_unpause, event_subscribe, event_unwatch,
          event_get_events, event_get_queue_size, with_path,
        )
        (watch_path_total (c ∷ cs), refl, refl, refl, unwatch_total c cs, refl, refl)

  dispatch_event_total :
      (p : Option Text)
      → get_path req ≡ some p
      → p ≢ some []
      → is_some (dispatch_event host sv req) ≡ true
  unfolding dispatch_event
  dispatch_event_total p e h =
      let (w, pa, un, su, uw, ge, qs) = handlers_total p e h in
      ground (arith, w, pa, un, su, uw, ge, qs)

  -- A request whose path is missing, or can be cleaned and is not empty, is answered, whatever
  -- its call is: its handler returns, and behind the earlier replies there is exactly one more.
  pub dispatch_event_replies :
      (p : Option Text)
      → get_path req ≡ some p
      → p ≢ some []
      → (t : Server S) × (dispatch_event host sv req ≡ some t) × RepliedOnce sv t
  dispatch_event_replies p e h = elim (Option-cases (dispatch_event host sv req)) [
    | inl missing ↦ absurd (cc (dispatch_event_total p e h, ap is_some missing))
    | inr (t, found) ↦ (t, found, (dispatch_event_once host sv req).once t found)
  ]

module _ {S : Sys} (J : JsonC) (host : Host) (sv t : Server S) where
  parse_and_dispatch_once :
      (json : Text) → parse_and_dispatch J host sv json ≡ some t → RepliedOnce sv t
  unfolding parse_and_dispatch
  parse_and_dispatch_once json e = elim (Option-cases (request_parse {J = J} json)) [
    | inl bad ↦ subst (RepliedOnce sv) (ground (arith, bad, e)) (send_error_once sv json_parse)
    | inr (req, good) ↦ (dispatch_event_once host sv req).once t (ground (arith, good, e))
  ]

  -- A message with some text before its first zero byte, if its handling does not read outside a
  -- buffer, is answered by exactly one reply behind the earlier ones.
  pub zmq_handle_event_once :
      (message : List ℕ)
      → c_string message ≢ []
      → zmq_handle_event J host sv (some message) ≡ some t
      → RepliedOnce sv t
  unfolding zmq_handle_event handle_text
  zmq_handle_event_once message some_text e =
      elim (Bool-cases (is_junk (cut_junk (c_string message)))) [
        | inl junk ↦
            subst (RepliedOnce sv)
              (ground (arith, junk, some_text, e, not_empty (c_string message)))
              (send_error_once sv json_invalid)
        | inr fine ↦
            parse_and_dispatch_once (cut_junk (c_string message))
              (ground (arith, fine, some_text, e, not_empty (c_string message)))
      ]
    where
      not_empty : (s : Text) → s ≢ [] → 0 < length s
      not_empty [] h = absurd (h refl)
      not_empty (c ∷ s) h = omega arith

module _ {S : Sys} (J : JsonC) (host : Host) (sv : Server S) where
  -- A message with no text before its first zero byte changes nothing and is not answered.
  pub zmq_handle_event_silent :
      (message : List ℕ)
      → c_string message ≡ []
      → zmq_handle_event J host sv (some message) ≡ some sv
  unfolding zmq_handle_event handle_text
  zmq_handle_event_silent message blank = rw blank

module _ {S : Sys} (J : JsonC) (host : Host) (sv t : Server S) where
  empty_or_not : (s : Text) → (s ≡ []) ⊎ (s ≢ [])
  empty_or_not [] = inl refl
  empty_or_not (c ∷ s) = inr (λ e. cc)

  -- A message whose handling does not read outside a buffer either has no text before its first
  -- zero byte, and then nothing changes and no reply is sent, or it has some, and then exactly
  -- one reply is sent behind the earlier ones.
  pub zmq_handle_event_cases :
      (message : List ℕ)
      → zmq_handle_event J host sv (some message) ≡ some t
      → (c_string message ≡ []) × (t ≡ sv) ⊎ (c_string message ≢ []) × RepliedOnce sv t
  zmq_handle_event_cases message e = elim (empty_or_not (c_string message)) [
    | inl blank ↦
        let silent = zmq_handle_event_silent J host sv message blank in
        let same : t ≡ sv = cc in inl (blank, same)
    | inr some_text ↦ inr (some_text, zmq_handle_event_once J host sv t message some_text e)
  ]
