-- ===== src/Inotify/Queue/History.antt =====
-- A root's queue in src/inotify.c over a history of events and of requests for them.
use mathlib.Core.List.{append-nil, append_assoc}
use inotispy.Prelude.{
  ℕ, ◌≡◌, sym, ◌∙◌, ap, Option, none, some, List, [], ◌∷◌, ◌++◌, arith, inl, inr,
}
use inotispy.Text.{Text}
use inotispy.Text.Laws.{text_eq_refl}
use inotispy.Reply.{InotispyError}
use inotispy.Inotify.{Event, InEvent, Root, Sys, State, is_root}
use inotispy.Inotify.Queue.{make_event, enqueue, get_events}
use inotispy.Inotify.Queue.Fifo.{enqueue_lem, get_events_lem}

-- What happens to a queue: an event of the kernel, in a directory, or a request for events.
pub data Use : Type 0 where
  put : InEvent → Text → Use
  take : ℕ → Use

-- The events that were handed out, those that were accepted, and the state at the end.
pub record Outcome (S : Sys) : Type 0 where
  pub given : List Event
  pub accepted : List Event
  pub state : State S

unfoldable pub accept : Option InotispyError → Event → List Event → List Event
accept none event events = event ∷ events
accept (some e) event events = events

unfoldable pub hand_out : Option (List Event) → List Event → List Event
hand_out none events = events
hand_out (some taken) events = taken ++ events

module _ {S : Sys} (k : Text) where
  -- The history of the root of a path.
  unfoldable pub serve : List Use → State S → Outcome S
  unfolding accept hand_out
  serve [] st = record { given = []; accepted = []; state = st }
  serve (put event path ∷ uses) st =
      let (rv, st') = enqueue st (is_root st k) event path in
      let rest = serve uses st' in
      record {
        given = rest.given;
        accepted = accept rv (make_event event path) rest.accepted;
        state = rest.state;
      }
  serve (take count ∷ uses) st =
      let (taken, st') = get_events st k count in
      let rest = serve uses st' in
      record { given = hand_out taken rest.given; accepted = rest.accepted; state = rest.state }

  -- Over any history of events and of requests for the events of a root that stands under its own
  -- path, the root stays in place, and the events handed out, followed by those still queued, are
  -- exactly those queued at first, followed by those that were accepted, in order: none is lost,
  -- none is handed out twice, none overtakes another.
  pub serve_lem :
      (uses : List Use) (st : State S) (root : Root)
      → is_root st k ≡ some root
      → root.path ≡ k
      → (last : Root) × (is_root (serve uses st).state k ≡ some last)
        × (last.path ≡ k)
        × ((serve uses st).given ++ last.queue ≡ root.queue ++ (serve uses st).accepted)
  unfolding serve
  serve_lem [] st root found named = (root, found, named, sym (append-nil root.queue))
  serve_lem (put event path ∷ uses) st root found named =
      elim (enqueue_lem st k root found named event path) [
        | inl (full, same) ↦
            let (last, here, own, sum) = serve_lem uses st root found named in
            rw (found, same) (last, here, own, sum)
        | inr (room, ok, next) ↦
            let e = make_event event path in
            let longer = record root { queue = root.queue ++ e ∷ [] } in
            let st' = (enqueue st (some root) event path).1 in
            let at_k : is_root st' k ≡ some longer = next k ∙ ground (arith, text_eq_refl k) in
            let (last, here, own, sum) = serve_lem uses st' longer at_k named in
            rw (found, ok)
              (last, here, own, sum ∙ append_assoc root.queue (e ∷ []) (serve uses st').accepted)
      ]
  serve_lem (take count ∷ uses) st root found named =
      elim (get_events_lem st k root found named count) [
        | inl (nothing, same) ↦
            let (last, here, own, sum) = serve_lem uses st root found named in
            rw same (last, here, own, sum)
        | inr (taken, left, split, size, given, next) ↦
            let shorter = record root { queue = left } in
            let st' = (get_events st k count).1 in
            let (last, here, own, sum) = serve_lem uses st' shorter next named in
            rw given (
              last,
              here,
              own,
              append_assoc taken (serve uses st').given last.queue
                  ∙ ap (λ q. taken ++ q) sum
                  ∙ sym (append_assoc taken left (serve uses st').accepted)
                  ∙ ap (λ q. q ++ (serve uses st').accepted) (sym split),
            )
      ]
