-- ===== src/Inotify/Queue/Fifo.antt =====
-- About the order and the limit of a root's queue in src/inotify.c.
use inotispy.Prelude.{
  ℕ, ◌≡◌, refl, sym, ◌⊎◌, true, false, none, some, List, [], ◌∷◌, ◌++◌, arith, inl, inr, ge_ℤ,
  length, Bool-cases, if◌then◌else◌, min, ◌==◌,
}
use inotispy.Text.{Text, text_eq}
use inotispy.Text.Laws.{text_eq_refl}
use inotispy.Reply.{inotify_root_queue_full}
use inotispy.Inotify.{Event, InEvent, Root, Sys, State, is_root}
use inotispy.Inotify.Registry.Queues.{pop_events_split, length-pop_events}
use inotispy.Inotify.Queue.{make_event, pop_events, dequeue_count, enqueue, get_events}

dequeue_count-min :
    (count len : ℕ) → dequeue_count count len ≡ (if count == 0 then len else min count len)
unfolding dequeue_count
dequeue_count-min count len = ground arith

module _ {S : Sys} (st : State S) (k : Text) (root : Root) (found : is_root st k ≡ some root)
    (named : root.path ≡ k) where
  -- For a root that stands under its own path: if its queue has reached the limit the new event
  -- is refused as an overflow and nothing changes. Otherwise it goes to the end of that root's
  -- queue, and no other root changes.
  pub enqueue_lem :
      (event : InEvent) (path : Text)
      → (ge_ℤ (length root.queue) root.max_events ≡ true)
          × (enqueue st (some root) event path ≡ (some inotify_root_queue_full, st))
        ⊎ (ge_ℤ (length root.queue) root.max_events ≡ false)
          × ((enqueue st (some root) event path).0 ≡ none)
          × ((q : Text)
              → is_root (enqueue st (some root) event path).1 q ≡ (
                  if text_eq k q
                  then some (record root { queue = root.queue ++ make_event event path ∷ [] })
                  else is_root st q))
  unfolding enqueue is_root
  enqueue_lem event path = elim (Bool-cases (ge_ℤ (length root.queue) root.max_events)) [
    | inl full ↦ inl (full, ground (arith, full))
    | inr room ↦ inr (
      room,
      ground (arith, room),
      λ q. ground (
        arith,
        room,
        named,
        S.roots_hash.lookup-replace st.roots root.path
            (record root { queue = root.queue ++ make_event event path ∷ [] }) q,
      ),
    )
  ]

  -- For a root that stands under its own path: a request for `count` events of an empty queue
  -- gives none and changes nothing. Of any other queue it gives the oldest events in order, all
  -- of them if `count` is 0 and else as many as are there up to `count`, and exactly the others
  -- stay in the queue.
  pub get_events_lem :
      (count : ℕ)
      → (root.queue ≡ []) × (get_events st k count ≡ (none, st))
        ⊎ ((taken rest : List Event) × (root.queue ≡ taken ++ rest)
            × (length taken
                ≡ (if count == 0 then length root.queue else min count (length root.queue)))
            × ((get_events st k count).0 ≡ some taken)
            × (is_root (get_events st k count).1 k ≡ some (record root { queue = rest })))
  unfolding get_events is_root
  get_events_lem count = elim (Bool-cases (length root.queue == 0)) [
    | inl nothing ↦ inl (no_length root.queue nothing, ground (arith, found, nothing))
    | inr something ↦
        let n = dequeue_count count (length root.queue) in
        let (taken, rest) = pop_events n root.queue in
        inr (
          taken,
          rest,
          sym (pop_events_split n root.queue),
          ground
              (arith, length-pop_events n root.queue, dequeue_count-min count (length root.queue)),
          ground (arith, found, something),
          ground (
            arith,
            found,
            something,
            named,
            text_eq_refl k,
            S.roots_hash.lookup-replace st.roots root.path (record root { queue = rest }) k,
          ),
        )
  ]
    where
      no_length : (xs : List Event) → (length xs == 0) ≡ true → xs ≡ []
      no_length [] e = refl
      no_length (x ∷ xs) e = ground arith
