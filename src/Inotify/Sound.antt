-- ===== src/Inotify/Sound.antt =====
-- The invariant of all tables of src/inotify.c, and its operations.
pub mod Threads
use mathlib.Core.List.{Memᴰ}
use inotispy.Prelude.{
  ℕ, ◌≡◌, refl, sym, ◌∙◌, ap, subst, Bool, true, false, Option, none, some, List, [], ◌∷◌, ◌++◌,
  arith, inl, inr, ℤ, int_eq, take, length, Bool-cases, Option-cases, if◌then◌else◌,
}
use inotispy.Text.{Text, slash, first_is, codes, text_eq}
use inotispy.Reply.{InotispyError}
use inotispy.Inotify.{InEvent, Root, Sys, State, spawn, memclean_task}
use inotispy.Inotify.Dump.{dump_roots}
use inotispy.Inotify.Agree.{HasAgree, Agree-new}
use inotispy.Inotify.Keeps.{do_watch_tree-HasAgree, spawn-HasAgree}
use inotispy.Inotify.Keeps.Removal.{dump_roots-HasAgree}
use inotispy.Inotify.Keeps.Steps.{
  handle_in_event-HasAgree, watch_root-HasAgree, unwatch_root-HasAgree, get_events-HasAgree,
  set_pause-HasAgree,
}
use inotispy.Inotify.Registry.{Registry, HasRegistry, Registry-new}
use inotispy.Inotify.Registry.Queues.{get_events-HasRegistry, set_pause-HasRegistry}
use inotispy.Inotify.Registry.Frame.{roots-spawn, roots-do_watch_tree, roots-dump_roots}
use inotispy.Inotify.Registry.Steps.{
  handle_in_event-HasRegistry, watch_root-HasRegistry, unwatch_root-HasRegistry,
}
use inotispy.Inotify.Pending.{HasPending, Pending-new, Pending-memclean}
use inotispy.Inotify.Pending.Frame.{dump_roots-Quiet}
use inotispy.Inotify.Pending.Steps.{
  HasPending-of_Quiet, do_watch_tree-HasPending, get_events-HasPending, set_pause-HasPending,
  handle_in_event-HasPending,
}
use inotispy.Inotify.Pending.Requests.{watch_root-HasPending, unwatch_root-HasPending}
use inotispy.Inotify.Watching.{do_watch_tree}
use inotispy.Inotify.Queue.{get_events, set_pause}
use inotispy.Inotify.Destroy.{strip_last_slash, unwatch_root, unwatch_tree}
use inotispy.Inotify.Roots.{clean_root_path, watch_root, watch_tree}
use inotispy.Inotify.Memclean.{memclean, rewatch_each, rewatch_roots}
use inotispy.Inotify.Events.{handle_in_event, handle_in_events, handle_event}
use inotispy.Inotify.Setup.{Entry, empty_tables, rewatch_entry, rewatch_entries, setup}

-- The watch tables agree, the roots are registered properly, and the threads have what they need.
pub record Sound {S : Sys} (st : State S) : Type 0 where
  pub agree : HasAgree st
  pub registry : HasRegistry st
  pub pending : HasPending st

-- Cutting off a slash leaves a path absolute, unless nothing is left.
clean_root_path_absolute :
    (path p : Text)
    → first_is slash path ≡ true
    → clean_root_path path ≡ some p
    → first_is slash p ≡ true
unfolding clean_root_path strip_last_slash text_eq
clean_root_path_absolute [] p slashed e = absurd (cc)
clean_root_path_absolute (c ∷ []) p slashed e = ground arith
clean_root_path_absolute (c ∷ d ∷ path) p slashed e = ground arith

module _ {S : Sys} where
  pub empty_tables-Sound : (world : S.World) → Sound (empty_tables {S = S} world)
  unfolding empty_tables
  empty_tables-Sound world = record {
    agree = Agree-new;
    registry = Registry-new;
    pending = Pending-new;
  }

  pub handle_in_event-Sound :
      (st : State S) (event : InEvent) → Sound st → Sound (handle_in_event st event)
  handle_in_event-Sound st event h = record {
    agree = handle_in_event-HasAgree st event h.agree;
    registry = handle_in_event-HasRegistry st event h.registry;
    pending = handle_in_event-HasPending st event h.agree h.registry h.pending;
  }

  handle_in_events-Sound :
      (st : State S) (events : List InEvent) → Sound st → Sound (handle_in_events st events)
  unfolding handle_in_events
  handle_in_events-Sound st [] h = h
  handle_in_events-Sound st (event ∷ events) h =
      handle_in_events-Sound (handle_in_event st event) events (handle_in_event-Sound st event h)

  pub handle_event-Sound :
      (st : State S) (read : Option (List InEvent)) → Sound st → Sound (handle_event st read)
  unfolding handle_event
  handle_event-Sound st none h = h
  handle_event-Sound st (some events) h = handle_in_events-Sound st events h

  pub get_events-Sound :
      (st : State S) (path : Text) (count : ℕ) → Sound st → Sound (get_events st path count).1
  get_events-Sound st path count h = record {
    agree = get_events-HasAgree st path count h.agree;
    registry = get_events-HasRegistry st path count h.registry;
    pending = get_events-HasPending st path count h.registry h.pending;
  }

  pub set_pause-Sound :
      (flag : Bool) (st : State S) (path : Text) → Sound st → Sound (set_pause flag st path).1
  set_pause-Sound flag st path h = record {
    agree = set_pause-HasAgree flag st path h.agree;
    registry = set_pause-HasRegistry flag st path h.registry;
    pending = set_pause-HasPending flag st path h.pending;
  }

  pub dump_roots-Sound : (st : State S) → Sound st → Sound (dump_roots st)
  dump_roots-Sound st h = record {
    agree = dump_roots-HasAgree st h.agree;
    registry = subst (Registry S) (sym (roots-dump_roots st)) h.registry;
    pending = HasPending-of_Quiet st (dump_roots st) (dump_roots-Quiet st) h.pending;
  }

  pub do_watch_tree-Sound :
      (st : State S) (path key : Text) (cleanup : Bool)
      → first_is slash path ≡ true
      → Sound st
      → Sound (do_watch_tree st path key cleanup).1
  do_watch_tree-Sound st path key cleanup slashed h = record {
    agree = do_watch_tree-HasAgree st path key cleanup h.agree;
    registry = subst (Registry S) (sym (roots-do_watch_tree st path key cleanup)) h.registry;
    pending = do_watch_tree-HasPending st path key cleanup slashed h.pending;
  }

  watch_root-Sound :
      (st : State S) (path : Text) (mask max_events : ℤ) (rewatch : Bool)
      → first_is slash path ≡ true
      → Sound st
      → Sound (watch_root st path mask max_events rewatch).1
  watch_root-Sound st path mask max_events rewatch slashed h = record {
    agree = watch_root-HasAgree st path mask max_events rewatch h.agree;
    registry = watch_root-HasRegistry st path mask max_events rewatch slashed h.registry;
    pending = watch_root-HasPending st path mask max_events rewatch slashed h.pending;
  }

  pub watch_tree-Sound :
      (st t : State S) (path : Text) (mask max_events : ℤ) (rewatch : Bool)
      (rv : Option InotispyError)
      → first_is slash path ≡ true
      → Sound st
      → watch_tree st path mask max_events rewatch ≡ some (rv, t)
      → Sound t
  unfolding watch_tree
  watch_tree-Sound st t path mask max_events rewatch rv slashed h e =
      elim (Option-cases (clean_root_path path)) [
        | inl bad ↦ absurd (ground (arith, bad, e))
        | inr (p, good) ↦
            let same : (watch_root st p mask max_events rewatch).1 ≡ t = ground (arith, good, e) in
            subst Sound same (
              watch_root-Sound st p mask max_events rewatch
                (clean_root_path_absolute path p slashed good) h)
      ]

  pub unwatch_tree-Sound :
      (st t : State S) (path : Text) (rv : Option InotispyError)
      → Sound st
      → unwatch_tree st path ≡ some (rv, t)
      → Sound t
  unfolding unwatch_tree
  unwatch_tree-Sound st t path rv h e = elim (Option-cases (strip_last_slash path)) [
    | inl bad ↦ absurd (ground (arith, bad, e))
    | inr (p, good) ↦
        let same : (unwatch_root st p).1 ≡ t = ground (arith, good, e) in
        subst Sound same (record {
          agree = unwatch_root-HasAgree st p h.agree;
          registry = unwatch_root-HasRegistry st p h.registry;
          pending = unwatch_root-HasPending st p h.registry h.pending;
        })
  ]

  if_Sound : (b : Bool) (s t : State S) → Sound s → Sound t → Sound (if b then s else t)
  if_Sound true s t h k = h
  if_Sound false s t h k = k

  spawn_memclean-HasPending : (st : State S) → HasPending st → HasPending (spawn st memclean_task).1
  unfolding spawn
  spawn_memclean-HasPending st h =
      ground (arith, h, Pending-memclean st.roots st.tasks st.num_watched_roots h)

  pub memclean-Sound : (st : State S) → Sound st → Sound (memclean st)
  unfolding memclean
  memclean-Sound st h = if_Sound st.in_memclean st (spawn st memclean_task).1 h (record {
    agree = spawn-HasAgree st memclean_task h.agree;
    registry = subst (Registry S) (sym (roots-spawn st memclean_task)) h.registry;
    pending = spawn_memclean-HasPending st h.pending;
  })

  rewatch_each-Sound :
      (roots : List Root) (st : State S)
      → ((r : Root) → Memᴰ r roots → first_is slash r.path ≡ true)
      → Sound st
      → Sound (rewatch_each roots st)
  unfolding rewatch_each
  rewatch_each-Sound [] st slashed h = h
  rewatch_each-Sound (root ∷ roots) st slashed h =
      rewatch_each-Sound roots (do_watch_tree st root.path root.path true).1
        (λ r m. slashed r (Memᴰ.tail m))
        (do_watch_tree-Sound st root.path root.path true (slashed root (Memᴰ.head refl)) h)

  pub rewatch_roots-Sound : (st : State S) → Sound st → Sound (rewatch_roots st)
  unfolding rewatch_roots
  rewatch_roots-Sound st h =
      if_Sound st.in_root_rewatch st (rewatch_each (S.roots_hash.values st.roots) st) h (
        rewatch_each-Sound (S.roots_hash.values st.roots) st
          (λ r m.
            let (k, found) = S.roots_hash.values_sound st.roots r m in
            subst (λ p. first_is slash p ≡ true) (sym (h.registry.named k r found))
              (h.registry.absolute k r found))
          h)
