-- ===== src/Tests/Requests.antt =====
-- Runs of the requests.
use inotispy.Prelude.{
  length, pos_part, min, map, ◌==◌, if◌then◌else◌, ℕ, ◌+◌, ◌*◌, ◌<◌, ◌≡◌, ◌≢◌, refl, ◌↔◌, ◌⊎◌, true,
  false, none, some, List, [], ◌∷◌, ◌++◌, ℤ, is_neg, arith, if◌then◌else◌,
}
use inotispy.Text.{Text, codes, text_eq}
use inotispy.Request.{
  Request, clean_path, get_path, get_rewatch, get_count, minus_one, trim_slashes,
}
use inotispy.Request.Laws.{slashes, clean_path_trims, clean_path_out_of_bounds}
use inotispy.Request.Fields.{HasInt, get_rewatch_iff, get_count_cases}
use inotispy.Inotify.{Event, is_root}
use inotispy.Zeromq.{success, events, event_to_jobj, Server, split_uptime}
use inotispy.Zeromq.Actions.{pause_path}
use inotispy.Zeromq.Answers.{pause_path_lem, get_events_path_lem}
use inotispy.Zeromq.Handlers.{get_events_path}
use inotispy.Zeromq.Dispatch.{dispatch_event, c_string, cut_junk, zmq_handle_event}
use inotispy.Zeromq.Replies.{RepliedOnce}
use inotispy.Zeromq.Total.{dispatch_event_replies, zmq_handle_event_cases}
use inotispy.Zeromq.Uptimes.{split_uptime_lem}
use inotispy.Tests.World.{srv, sys, json, object, host, value}
use inotispy.Tests.States.{root, st, root_found, st-Registry}

clean_path_trims_example : clean_path ((codes "/sr" ++ b'v' ∷ []) ++ slashes 2) ≡ some srv
clean_path_trims_example = clean_path_trims (codes "/sr") b'v' 2 (λ e. omega (arith, e))

slashes_only : clean_path (slashes 2) ≡ none
slashes_only = clean_path_out_of_bounds 0

-- The fields "rewatch" and "count" are zero.
abbrev req : Request json
req = record { call = codes "watch"; json = []; parser = object (codes "watch") srv (ℤ.pos 0) }

rewatch_of_zero :
    (get_rewatch req ≡ true) ↔ ((z : ℤ) × HasInt req (codes "rewatch") z × (z ≢ minus_one))
rewatch_of_zero = get_rewatch_iff req

count_of_zero :
    (HasInt req (codes "count") (get_count req) × (is_neg (get_count req) ≡ false))
    ⊎ ((get_count req ≡ ℤ.pos 1) × ((z : ℤ) → HasInt req (codes "count") z → z ≡ minus_one)
        ⊎ (get_count req ≡ minus_one)
          × ((z : ℤ) × HasInt req (codes "count") z × (is_neg z ≡ true) × (z ≢ minus_one)))
count_of_zero = get_count_cases req

split_uptime_lem_example :
    let up = split_uptime 90061 in
    (((up.days * 24 + up.hours) * 60 + up.mins) * 60 + up.secs ≡ 90061)
    × (up.hours < 24)
    × (up.mins < 60)
    × (up.secs < 60)
split_uptime_lem_example = split_uptime_lem 90061

abbrev server : Server sys
server = record { inotify = st; sent = [] }

pause_path_lem_example :
    ((q : Text)
      → is_root (pause_path server srv).inotify q
        ≡ (if text_eq srv q then some (record root { pause = true; queue = [] }) else is_root st q))
    × ((pause_path server srv).sent ≡ [] ++ success ∷ [])
pause_path_lem_example = pause_path_lem server srv root st-Registry root_found

dispatch_event_replies_example :
    (t : Server sys) × (dispatch_event host server req ≡ some t) × RepliedOnce server t
unfolding get_path text_eq trim_slashes
dispatch_event_replies_example = dispatch_event_replies host server req (some srv) refl (λ e. cc)

abbrev message : List ℕ
message = codes "{pause} junk"

abbrev answered : Server sys
unfolding zmq_handle_event text_eq c_string cut_junk trim_slashes is_root
answered = value server (zmq_handle_event json host server (some message))

zmq_handle_event_cases_example :
    (c_string message ≡ []) × (answered ≡ server)
    ⊎ (c_string message ≢ []) × RepliedOnce server answered
unfolding zmq_handle_event text_eq c_string cut_junk trim_slashes is_root
zmq_handle_event_cases_example = zmq_handle_event_cases json host server answered message refl

get_events_path_lem_example :
    (taken rest : List Event) × (root.queue ≡ taken ++ rest)
    × (length taken ≡ (
        if pos_part (get_count req) == 0
        then length root.queue
        else min (pos_part (get_count req)) (length root.queue)))
    × ((get_events_path server req srv).sent ≡ [] ++ events (map event_to_jobj taken) ∷ [])
    × (is_root (get_events_path server req srv).inotify srv ≡ some (record root { queue = rest }))
unfolding text_eq get_count
get_events_path_lem_example = get_events_path_lem server req srv root root_found refl refl
