-- ===== src/Inotify/Registry/Queues.antt =====
-- The queue operations of src/inotify.c, and the invariant of the roots.
use inotispy.Prelude.{
  ℕ, zero, suc, ◌+◌, ◌≤◌, ◌≡◌, refl, Bool, false, some, List, [], ◌∷◌, ◌++◌, arith, inl, inr, ℤ,
  pos_part, ge_ℤ, length, length-append, Bool-cases, Option-cases, min,
}
use inotispy.Text.{Text}
use inotispy.Inotify.{Event, InEvent, Root, Sys, State, is_root}
use inotispy.Inotify.Registry.{HasRegistry, Registry-set}
use inotispy.Inotify.Queue.{
  make_event, pop_events, dequeue_count, enqueue, dequeue, get_events, set_pause,
}

-- Popping takes the front of the queue and leaves the rest.
pub pop_events_split :
    (n : ℕ) (queue : List Event) → (pop_events n queue).0 ++ (pop_events n queue).1 ≡ queue
unfolding pop_events
pop_events_split zero queue = refl
pop_events_split (suc n) [] = refl
pop_events_split (suc n) (e ∷ queue) = rw (pop_events_split n queue)

pub length-pop_events :
    (n : ℕ) (queue : List Event) → length (pop_events n queue).0 ≡ min n (length queue)
unfolding pop_events
length-pop_events zero queue = omega arith
length-pop_events (suc n) [] = omega arith
length-pop_events (suc n) (e ∷ queue) = omega (arith, length-pop_events n queue)

pub length-pop_events_rest :
    (n : ℕ) (queue : List Event) → length (pop_events n queue).1 ≤ length queue
unfolding pop_events
length-pop_events_rest zero queue = omega arith
length-pop_events_rest (suc n) [] = omega arith
length-pop_events_rest (suc n) (e ∷ queue) = omega (arith, length-pop_events_rest n queue)

ge_ℤ_room : (n : ℕ) (z : ℤ) → ge_ℤ n z ≡ false → n + 1 ≤ pos_part z
ge_ℤ_room n (ℤ.pos z) h = ground arith
ge_ℤ_room n (ℤ.negsuc z) h = cc

module _ {S : Sys} where
  pub enqueue-HasRegistry :
      (st : State S) (k : Text) (root : Root) (event : InEvent) (path : Text)
      → is_root st k ≡ some root
      → HasRegistry st
      → HasRegistry (enqueue st (some root) event path).1
  unfolding enqueue is_root
  enqueue-HasRegistry st k root event path found h =
      elim (Bool-cases (ge_ℤ (length root.queue) root.max_events)) [
        | inl full ↦ ground (arith, full)
        | inr room ↦
            let new = record root { queue = root.queue ++ make_event event path ∷ [] } in
            ground (
              arith,
              room,
              Registry-set st.roots h root.path root new
                  (ground (arith, found, h.named k root found)) refl
                  (omega (
                    arith,
                    length-append root.queue (make_event event path ∷ []),
                    ge_ℤ_room (length root.queue) root.max_events room,
                  )),
            )
      ]

  pub dequeue-HasRegistry :
      (st : State S) (k : Text) (root : Root) (count : ℕ)
      → is_root st k ≡ some root
      → HasRegistry st
      → HasRegistry (dequeue st root count).1
  unfolding dequeue is_root
  dequeue-HasRegistry st k root count found h =
      let n = dequeue_count count (length root.queue) in
      let new = record root { queue = (pop_events n root.queue).1 } in
      ground (
        arith,
        Registry-set st.roots h root.path root new (ground (arith, found, h.named k root found))
            refl (omega (arith, length-pop_events_rest n root.queue, h.bounded k root found)),
      )

  pub get_events-HasRegistry :
      (st : State S) (path : Text) (count : ℕ)
      → HasRegistry st
      → HasRegistry (get_events st path count).1
  unfolding get_events
  get_events-HasRegistry st path count h = elim (Option-cases (is_root st path)) [
    | inl missing ↦ ground (arith, missing)
    | inr (root, found) ↦ ground (arith, found, dequeue-HasRegistry st path root count found h)
  ]

  pub set_pause-HasRegistry :
      (flag : Bool) (st : State S) (path : Text)
      → HasRegistry st
      → HasRegistry (set_pause flag st path).1
  unfolding set_pause
  set_pause-HasRegistry flag st path h = elim (Option-cases (is_root st path)) [
    | inl missing ↦ ground (arith, missing)
    | inr (root, found) ↦ ground (
      arith,
      found,
      Registry-set st.roots h path root (record root { pause = flag }) (unfold is_root in found)
          (h.named path root (unfold is_root in found))
          (h.bounded path root (unfold is_root in found)),
    )
  ]
