-- ===== src/Tests/Tables.antt =====
-- Runs on the queues, the roots and the watch tables.
use inotispy.Prelude.{
  inl, ◌≡◌, ◌≢◌, refl, ◌⊎◌, inr, true, false, not, ◌&&◌, ◌||◌, none, some, List, [], ◌∷◌, ◌++◌,
  ◌==◌, ℤ, min, inc_ℤ, to_u32, ge_ℤ, length, if◌then◌else◌,
}
use inotispy.Text.{Text, codes, slash, first_is, text_eq, starts_with, strstr, contains, with_slash}
use inotispy.Reply.{
  InotispyError, inotify_root_queue_full, inotify_root_not_watched, failed_to_create_new_thread,
}
use inotispy.Inotify.{Root, Event, watch_tree_task, State, is_root}
use inotispy.Inotify.Paths.{belongs_to, find_root_key, path_to_root}
use inotispy.Inotify.Paths.Laws.{path_to_root-some, path_to_root_complete}
use inotispy.Inotify.Queue.{make_event, enqueue, get_events}
use inotispy.Inotify.Queue.History.{Use, put, take, serve, serve_lem}
use inotispy.Inotify.Queue.Fifo.{enqueue_lem, get_events_lem}
use inotispy.Inotify.Watching.{make_root}
use inotispy.Inotify.Destroy.{destroy_root_thread, unwatch_tree}
use inotispy.Inotify.Destroy.Clears.{
  watched-destroy_root_thread, is_root-destroy_root_thread, unwatch_tree_slash,
}
use inotispy.Inotify.Roots.{watch_root}
use inotispy.Inotify.Roots.Requests.{watch_root_lem, watch_root_refused}
use inotispy.Inotify.Memclean.{is_a_dir, memclean_thread}
use inotispy.Inotify.Memclean.Cleans.{watched-memclean_thread}
use inotispy.Tests.World.{srv, sub, files, sys, sys-RmWatchKeepsDisk}
use inotispy.Tests.States.{root, st, root_found, st-Registry, written}

sub_leads_to_root :
    (k : Text) × (is_root st k ≡ some root) × ((k ≡ codes "/") ⊎ (belongs_to sub k ≡ true))
unfolding path_to_root find_root_key is_root text_eq belongs_to contains strstr starts_with
sub_leads_to_root = path_to_root-some st sub root refl

path_to_root_complete_example : path_to_root st sub ≢ none
unfolding starts_with
path_to_root_complete_example = path_to_root_complete st sub srv root root_found (inr (inl refl))

enqueue_lem_example :
    (ge_ℤ (length root.queue) root.max_events ≡ true)
      × (enqueue st (some root) written srv ≡ (some inotify_root_queue_full, st))
    ⊎ (ge_ℤ (length root.queue) root.max_events ≡ false)
      × ((enqueue st (some root) written srv).0 ≡ none)
      × ((q : Text)
          → is_root (enqueue st (some root) written srv).1 q ≡ (
              if text_eq srv q
              then some (record root { queue = root.queue ++ make_event written srv ∷ [] })
              else is_root st q))
enqueue_lem_example = enqueue_lem st srv root root_found refl written srv

get_events_lem_example :
    (root.queue ≡ []) × (get_events st srv 5 ≡ (none, st))
    ⊎ ((taken rest : List Event) × (root.queue ≡ taken ++ rest)
        × (length taken ≡ (if 5 == 0 then length root.queue else min 5 (length root.queue)))
        × ((get_events st srv 5).0 ≡ some taken)
        × (is_root (get_events st srv 5).1 srv ≡ some (record root { queue = rest })))
get_events_lem_example = get_events_lem st srv root root_found refl 5

watched-destroy_root_thread_example :
    sys.path_hash.lookup (destroy_root_thread st srv).path_to_watch sub ≡ (
      if text_eq srv sub || starts_with sub (with_slash srv)
      then none
      else sys.path_hash.lookup st.path_to_watch sub)
watched-destroy_root_thread_example = watched-destroy_root_thread st srv sub

is_root-destroy_root_thread_example :
    is_root (destroy_root_thread st srv) srv ≡ (if text_eq srv srv then none else is_root st srv)
is_root-destroy_root_thread_example = is_root-destroy_root_thread st srv srv

unwatch_tree_slash_example : unwatch_tree st (codes "/") ≡ some (some inotify_root_not_watched, st)
unwatch_tree_slash_example = unwatch_tree_slash st st-Registry

watched-memclean_thread_example : sys.path_hash.lookup (memclean_thread st).path_to_watch sub ≡ (
    if first_is slash sub && not (is_a_dir st sub)
    then none
    else sys.path_hash.lookup st.path_to_watch sub)
watched-memclean_thread_example = watched-memclean_thread sys-RmWatchKeepsDisk st sub

-- What a root of this name and this state look like after a successful watch.
abbrev Watched : State sys → Type 0
Watched t =
    ((q : Text)
      → is_root t q ≡ (
          if text_eq files q
          then some (make_root files (to_u32 (ℤ.pos 8)) (ℤ.pos 4) false)
          else is_root st q))
    × (t.num_watched_roots ≡ inc_ℤ st.num_watched_roots)
    × (t.path_to_watch ≡ st.path_to_watch)
    × (t.wd_to_watch ≡ st.wd_to_watch)

watch_root_lem_example :
    ((watch_root st files (ℤ.pos 8) (ℤ.pos 4) false).0 ≡ none)
      × Watched (watch_root st files (ℤ.pos 8) (ℤ.pos 4) false).1
      × ((watch_root st files (ℤ.pos 8) (ℤ.pos 4) false).1.tasks
          ≡ watch_tree_task files files false ∷ st.tasks)
    ⊎ (((watch_root st files (ℤ.pos 8) (ℤ.pos 4) false).0 ≡ some failed_to_create_new_thread)
          × Watched (watch_root st files (ℤ.pos 8) (ℤ.pos 4) false).1
          × ((watch_root st files (ℤ.pos 8) (ℤ.pos 4) false).1.tasks ≡ st.tasks)
        ⊎ ((e : InotispyError) × (e ≢ failed_to_create_new_thread)
            × (watch_root st files (ℤ.pos 8) (ℤ.pos 4) false ≡ (some e, st))))
watch_root_lem_example = watch_root_lem st files (ℤ.pos 8) (ℤ.pos 4) false

-- The path does not lie below /srv, which it contains.
watch_root_refused_example :
    (e : InotispyError) × (watch_root st (codes "/mnt/srv/x") (ℤ.pos 8) (ℤ.pos 4) false
      ≡ (some e, st))
unfolding contains strstr starts_with
watch_root_refused_example =
    watch_root_refused st (codes "/mnt/srv/x") (ℤ.pos 8) (ℤ.pos 4) false srv root root_found refl

-- The third new event is refused, for the queue is full then.
abbrev history : List Use
history = put written srv ∷ put written srv ∷ put written srv ∷ take 2 ∷ put written srv ∷ []

serve_lem_example :
    (last : Root) × (is_root (serve srv history st).state srv ≡ some last)
    × (last.path ≡ srv)
    × ((serve srv history st).given ++ last.queue ≡ root.queue ++ (serve srv history st).accepted)
serve_lem_example = serve_lem srv history st root root_found refl
