-- ===== src/Daemon/Safety.antt =====
-- What the invariant of the daemon of src/main.c rules out.
use inotispy.Prelude.{
  ◌≤◌, ◌≡◌, ◌≢◌, ◌⊎◌, inl, inr, Bool, Bool-cases, subst, true, false, some, List, ◌∷◌, ◌++◌, arith,
  ℤ, pos_part, length,
}
use inotispy.Text.{Text, codes, text_eq, slash, first_is, starts_with, with_slash}
use inotispy.Text.Laws.{contains_of-starts_with, text_eq_iff, text_eq→eq}
use inotispy.Reply.{InotispyError}
use inotispy.Inotify.Roots.{watch_root}
use inotispy.Inotify.Roots.Requests.{watch_root_below_slash}
use inotispy.Request.{JsonC}
use inotispy.Inotify.{Root, Watch, Task, destroy_root_task, Sys, is_root}
use inotispy.Inotify.Pending.{Pending, destroyers}
use inotispy.Inotify.Pending.Threads.{Pending-destroyed}
use inotispy.Zeromq.{Host}
use inotispy.Daemon.{Daemon, Reach}
use inotispy.Daemon.Invariant.{Reach-Sound}

module _ {S : Sys} {J : JsonC} {host : Host} (d : Daemon S) (reached : Reach J host d) where
  -- At every moment of a daemon that main has started, with no dump file or with one of which the
  -- lines that are found can be read and have absolute paths, whatever steps its event loop with
  -- its reloads of the configuration, its handler of SIGHUP and its threads (each as a whole),
  -- and the world made: a root stands under its own path, which is absolute, and its queue holds
  -- no more events than its limit; a negative limit admits none.
  pub reach_queue_bounded :
      (k : Text) (r : Root)
      → is_root d.server.inotify k ≡ some r
      → (r.path ≡ k) × (first_is slash k ≡ true) × (length r.queue ≤ pos_part r.max_events)
  unfolding is_root
  reach_queue_bounded k r found =
      let g = (Reach-Sound J host d reached).registry in
      (g.named k r found, g.absolute k r found, g.bounded k r found)

  -- At every moment of a daemon that main has started, with no dump file or with one of which the
  -- lines that are found can be read and have absolute paths, whatever steps its event loop with
  -- its reloads of the configuration, its handler of SIGHUP and its threads (each as a whole),
  -- and the world made: no root lies in the tree of another root that is not "/": the path of
  -- that one is no prefix, with a slash behind it, of the path of the other. A root "/" may have
  -- been added above roots that were there, but as long as it is a root every further request to
  -- watch a path is refused and changes nothing.
  pub reach_roots_apart :
      (j k : Text) (r s : Root)
      → is_root d.server.inotify j ≡ some r
      → is_root d.server.inotify k ≡ some s
      → (path : Text) (mask max_events : ℤ) (rewatch : Bool)
      → (j ≢ codes "/") × (starts_with k (with_slash j) ≡ false)
        ⊎ (j ≡ codes "/")
          × ((e : InotispyError) × (watch_root d.server.inotify path mask max_events rewatch
                ≡ (some e, d.server.inotify)))
  unfolding is_root
  reach_roots_apart j k r s found found' path mask max_events rewatch =
      let g = (Reach-Sound J host d reached).registry in
      elim (Bool-cases (text_eq j (codes "/"))) [
        | inl whole ↦
            let slash_root = text_eq→eq j (codes "/") whole in
            inr (
              slash_root,
              watch_root_below_slash d.server.inotify path mask max_events rewatch r
                  (subst (λ key. is_root d.server.inotify key ≡ some r) slash_root found),
            )
        | inr other ↦ inl (
          λ e. ground (arith, other, e, text_eq_iff j (codes "/")),
          ground
              (arith, g.separated j k r s found found', contains_of-starts_with k (with_slash j)),
        )
      ]

  -- At every moment of a daemon that main has started, with no dump file or with one of which the
  -- lines that are found can be read and have absolute paths, whatever steps its event loop with
  -- its reloads of the configuration, its handler of SIGHUP and its threads (each as a whole),
  -- and the world made: a watch that is found by its path is the watch of that path, which is
  -- absolute, and is found by its descriptor too. So no path leads to a watch that is gone from
  -- the table by descriptors.
  pub reach_watch_known :
      (p : Text) (w : Watch)
      → S.path_hash.lookup d.server.inotify.path_to_watch p ≡ some w
      → (w.path ≡ p)
        × (S.wd_hash.lookup d.server.inotify.wd_to_watch w.wd ≡ some w)
        × (first_is slash p ≡ true)
  reach_watch_known p w found =
      let a = (Reach-Sound J host d reached).agree in
      let known = a.backed p w found in
      (
        a.named p w found,
        known,
        subst (λ q. first_is slash q ≡ true) (a.named p w found) (a.absolute w.wd w known),
      )

  -- At every moment of a daemon that main has started, with no dump file or with one of which the
  -- lines that are found can be read and have absolute paths, whatever steps its event loop with
  -- its reloads of the configuration, its handler of SIGHUP and its threads (each as a whole),
  -- and the world made: a thread that waits to destroy a root finds that root in the table,
  -- marked to be destroyed, and no other waiting thread is to destroy it.
  pub reach_destroyer_alone :
      (before after : List Task) (k : Text)
      → d.server.inotify.tasks ≡ before ++ destroy_root_task k ∷ after
      → ((r : Root) × (is_root d.server.inotify k ≡ some r) × (r.destroy ≡ true))
        × (destroyers k (before ++ after) ≡ 0)
  unfolding is_root
  reach_destroyer_alone before after k e =
      let st = d.server.inotify in
      Pending-destroyed st.roots st.num_watched_roots before after k (
        subst (λ tasks. Pending S st.roots tasks st.num_watched_roots) e
          (Reach-Sound J host d reached).pending)

  -- At every moment of a daemon that main has started, with no dump file or with one of which the
  -- lines that are found can be read and have absolute paths, whatever steps its event loop with
  -- its reloads of the configuration, its handler of SIGHUP and its threads (each as a whole),
  -- and the world made: the count of watched roots is the number of roots in the table.
  pub reach_roots_counted :
      d.server.inotify.num_watched_roots ≡ ℤ.pos (S.roots_hash.size d.server.inotify.roots)
  reach_roots_counted = (Reach-Sound J host d reached).pending.counted
