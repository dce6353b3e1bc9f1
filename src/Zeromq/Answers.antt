-- ===== src/Zeromq/Answers.antt =====
-- About the answers of src/zeromq.c to get_roots, pause and get_events.
use inotispy.Prelude.{
  ◌≡◌, refl, ap, true, Option, none, some, List, [], ◌∷◌, ◌++◌, arith, inl, inr, length, ◌==◌,
  Bool-cases, is_some, if◌then◌else◌, false, map, min, int_eq, pos_part,
}
use inotispy.Text.{Text, codes, slash, first_is, text_eq}
use inotispy.Text.Laws.{text_eq_refl, text_eq_iff}
use inotispy.Glib.{member}
use inotispy.Inotify.{Event, Root, Sys, is_root}
use inotispy.Request.{JsonC, Request, get_count, minus_one}
use inotispy.Inotify.Queue.Fifo.{get_events_lem}
use inotispy.Zeromq.Handlers.{get_events_path}
use inotispy.Inotify.Registry.{HasRegistry}
use inotispy.Inotify.Queue.{get_events, dequeue, dequeue_count, pop_events, pause_tree, set_pause}
use inotispy.Inotify.Roots.{get_roots}
use inotispy.Inotify.Sound.{Sound}
use inotispy.Zeromq.{events, event_to_jobj, roots, success, Server, send}
use inotispy.Zeromq.Actions.{event_list, before_eol, event_get_roots, pause_path, flush}

before_eol_all :
    (keys : List Text)
    → ((k : Text) → member text_eq k keys ≡ true → first_is slash k ≡ true)
    → before_eol (keys ++ codes "EOL" ∷ []) ≡ keys
unfolding before_eol text_eq
before_eol_all [] h = refl
before_eol_all (k ∷ keys) h = elim (Bool-cases (text_eq k (codes "EOL"))) [
  | inl e ↦ absurd (ground (arith, h k, text_eq_refl k, text_eq_iff k (codes "EOL"), e))
  | inr e ↦ ground (arith, e, before_eol_all keys (λ j m. h j (ground (arith, m))))
]

pop_all : (queue : List Event) → (pop_events (length queue) queue).1 ≡ []
unfolding pop_events
pop_all [] = refl
pop_all (e ∷ queue) = pop_all queue

no_length {ℓ} : {A : Type ℓ} (xs : List A) → (length xs == 0) ≡ true → xs ≡ []
no_length [] e = refl
no_length (x ∷ xs) e = ground arith

module _ {S : Sys} (sv : Server S) where
  -- On tables that keep their invariant, the request for the roots is answered by exactly the
  -- paths of the roots in the table, and changes nothing.
  pub event_get_roots_lem :
      Sound sv.inotify → event_get_roots sv ≡ send sv (roots (S.roots_hash.keys sv.inotify.roots))
  unfolding event_get_roots get_roots
  event_get_roots_lem h =
      let keys = S.roots_hash.keys sv.inotify.roots in
      let all =
        before_eol_all keys (λ k m. slashed k (S.roots_hash.lookup sv.inotify.roots k) refl m) in
      elim (Bool-cases (length keys == 0)) [
        | inl nothing ↦ ground (
          arith,
          h.pending.counted,
          S.roots_hash.size-keys sv.inotify.roots,
          nothing,
          no_length keys nothing,
          all,
        )
        | inr something ↦
            ground
              (arith, h.pending.counted, S.roots_hash.size-keys sv.inotify.roots, something, all)
      ]
    where
      slashed :
          (k : Text) (o : Option Root)
          → S.roots_hash.lookup sv.inotify.roots k ≡ o
          → member text_eq k (S.roots_hash.keys sv.inotify.roots) ≡ true
          → first_is slash k ≡ true
      slashed k none e m = absurd (cc (S.roots_hash.member-keys sv.inotify.roots k, ap is_some e))
      slashed k (some r) e m = h.registry.absolute k r e

  -- On a table of roots that keeps its invariant, a pause of a root sets its pause flag, empties
  -- its queue, leaves all other roots as they are, and is answered by success.
  pub pause_path_lem :
      (k : Text) (root : Root)
      → HasRegistry sv.inotify
      → is_root sv.inotify k ≡ some root
      → ((q : Text)
          → is_root (pause_path sv k).inotify q ≡ (
              if text_eq k q
              then some (record root { pause = true; queue = [] })
              else is_root sv.inotify q))
        × ((pause_path sv k).sent ≡ sv.sent ++ success ∷ [])
  unfolding pause_path pause_tree set_pause flush is_root get_events dequeue dequeue_count
  pause_path_lem k root g found =
      let paused = record root { pause = true } in
      let table = S.roots_hash.replace sv.inotify.roots k paused in
      let named = g.named k root found in
      let there = S.roots_hash.lookup-replace sv.inotify.roots k paused in
      elim (Bool-cases (length root.queue == 0)) [
        | inl nothing ↦ (
          λ q. ground (
            arith,
            found,
            nothing,
            there k,
            there q,
            text_eq_refl k,
            no_length root.queue nothing,
          ),
          ground (arith, found, nothing, there k, text_eq_refl k),
        )
        | inr something ↦ (
          λ q. ground (
            arith,
            found,
            something,
            there k,
            there q,
            text_eq_refl k,
            named,
            pop_all root.queue,
            S.roots_hash.lookup-replace table root.path (record paused { queue = [] }) q,
          ),
          ground (arith, found, something, there k, text_eq_refl k),
        )
      ]

module _ {S : Sys} {J : JsonC} (sv : Server S) (req : Request J) where
  -- A request for the events of a root that stands under its own path, whose count is not
  -- refused, is answered by the oldest events of its queue in order, all of them if the count is
  -- 0 and else as many as are there up to the count, and exactly the others stay in the queue.
  pub get_events_path_lem :
      (k : Text) (root : Root)
      → is_root sv.inotify k ≡ some root
      → root.path ≡ k
      → int_eq (get_count req) minus_one ≡ false
      → (taken rest : List Event) × (root.queue ≡ taken ++ rest)
        × (length taken ≡ (
            if pos_part (get_count req) == 0
            then length root.queue
            else min (pos_part (get_count req)) (length root.queue)))
        × ((get_events_path sv req k).sent ≡ sv.sent ++ events (map event_to_jobj taken) ∷ [])
        × (is_root (get_events_path sv req k).inotify k ≡ some (record root { queue = rest }))
  unfolding get_events_path event_list
  get_events_path_lem k root found named fine =
      elim (get_events_lem sv.inotify k root found named (pos_part (get_count req))) [
        | inl (nothing, same) ↦ (
          [],
          [],
          nothing,
          ground (arith, nothing),
          ground (arith, found, fine, same),
          ground (arith, found, fine, same, nothing),
        )
        | inr (taken, rest, split, size, given, left) ↦ (
          taken,
          rest,
          split,
          size,
          ground (arith, found, fine, given),
          ground (arith, found, fine, left),
        )
      ]
