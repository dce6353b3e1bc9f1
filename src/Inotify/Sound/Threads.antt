-- ===== src/Inotify/Sound/Threads.antt =====
-- The threads of src/inotify.c: which step each makes when it runs. A thread runs as a whole.
use inotispy.Prelude.{ℕ, ◌≡◌, sym, subst, Bool, some, List, ◌∷◌, ◌++◌}
use inotispy.Text.{Text}
use inotispy.Inotify.{Task, watch_tree_task, destroy_root_task, memclean_task, Sys, State, is_root}
use inotispy.Inotify.Keeps.{watch_tree_thread-HasAgree}
use inotispy.Inotify.Keeps.Removal.{destroy_root_thread-HasAgree, memclean_thread-HasAgree}
use inotispy.Inotify.Registry.{Registry}
use inotispy.Inotify.Registry.Frame.{roots-watch_tree_thread, roots-memclean_thread}
use inotispy.Inotify.Registry.Steps.{destroy_root_thread-HasRegistry}
use inotispy.Inotify.Pending.{Pending}
use inotispy.Inotify.Pending.Frame.{watch_tree_thread-Quiet, memclean_thread-Quiet}
use inotispy.Inotify.Pending.Steps.{HasPending-of_Quiet}
use inotispy.Inotify.Pending.Threads.{
  Pending-take, Pending-destroyed, Pending-watched, destroy_root_thread-HasPending,
}
use inotispy.Inotify.Watching.{watch_tree_thread}
use inotispy.Inotify.Destroy.{destroy_root_thread}
use inotispy.Inotify.Memclean.{memclean_thread}
use inotispy.Inotify.Sound.{Sound}

module _ {S : Sys} where
  -- The start routine of a thread, with its argument.
  pub data Thread : Task → State S → State S → Type 0 where
    watches :
        {st t : State S} (fuel : ℕ) (path key : Text) (cleanup : Bool)
        → watch_tree_thread fuel st path key cleanup ≡ some t
        → Thread (watch_tree_task path key cleanup) st t
    destroys :
        {st : State S} (path : Text)
        → Thread (destroy_root_task path) st (destroy_root_thread st path)
    cleans : {st : State S} → Thread memclean_task st (memclean_thread st)

  abbrev pub with_tasks : State S → List Task → State S
  with_tasks st tasks = record st { tasks = tasks }

  take-Sound :
      (st : State S) (before after : List Task) (task : Task)
      → st.tasks ≡ before ++ task ∷ after
      → Sound st
      → Sound (with_tasks st (before ++ after))
  take-Sound st before after task e h = record {
    agree = h.agree;
    registry = h.registry;
    pending =
        Pending-take st.roots st.num_watched_roots before after task
          (subst (λ tasks. Pending S st.roots tasks st.num_watched_roots) e h.pending);
  }

  -- Any of the threads that wait can run next, and the tables stay sound.
  pub Thread-Sound :
      (st : State S) (before after : List Task) (task : Task) (t : State S)
      → st.tasks ≡ before ++ task ∷ after
      → Thread task (with_tasks st (before ++ after)) t
      → Sound st
      → Sound t
  Thread-Sound st before after task t e (watches fuel path key cleanup done) h =
      let s = with_tasks st (before ++ after) in
      let g = take-Sound st before after (watch_tree_task path key cleanup) e h in
      let slashed =
        Pending-watched st.roots st.num_watched_roots before after path key cleanup
          (subst (λ tasks. Pending S st.roots tasks st.num_watched_roots) e h.pending) in
      record {
        agree = watch_tree_thread-HasAgree fuel s t path key cleanup slashed g.agree done;
        registry =
            subst (Registry S) (sym (roots-watch_tree_thread fuel s t path key cleanup done))
              g.registry;
        pending =
            HasPending-of_Quiet s t (watch_tree_thread-Quiet fuel s t path key cleanup done)
              g.pending;
      }
  Thread-Sound st before after task t e (destroys path) h =
      let s = with_tasks st (before ++ after) in
      let g = take-Sound st before after (destroy_root_task path) e h in
      let ((root, found, doomed), nobody) =
        Pending-destroyed st.roots st.num_watched_roots before after path
          (subst (λ tasks. Pending S st.roots tasks st.num_watched_roots) e h.pending) in
      record {
        agree = destroy_root_thread-HasAgree s path g.agree;
        registry = destroy_root_thread-HasRegistry s path g.registry;
        pending =
            destroy_root_thread-HasPending s path root (unfold is_root in found) nobody g.pending;
      }
  Thread-Sound st before after task t e cleans h =
      let s = with_tasks st (before ++ after) in
      let g = take-Sound st before after memclean_task e h in
      record {
        agree = memclean_thread-HasAgree s g.agree;
        registry = subst (Registry S) (sym (roots-memclean_thread s)) g.registry;
        pending = HasPending-of_Quiet s (memclean_thread s) (memclean_thread-Quiet s) g.pending;
      }
