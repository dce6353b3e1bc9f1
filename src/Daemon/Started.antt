-- ===== src/Daemon/Started.antt =====
-- About the tables that main of src/main.c hands to its event loop.
use inotispy.Prelude.{
  ℕ, zero, suc, ◌≡◌, sym, subst, true, Option, none, some, List, arith, inl, inr, ℤ, int_eq, ◌||◌,
  Bool-cases, Option-cases, OnSome, OnSome-bind, OnSome-intro, bind_some,
}
use inotispy.Text.{Text, codes, slash, first_is}
use inotispy.Inotify.{Sys, State}
use inotispy.Inotify.Roots.{watch_tree}
use inotispy.Inotify.Setup.{Entry, AllSlashed, empty_tables, rewatch_entry}
use inotispy.Inotify.Setup.Stream.{Stream, opened}
use inotispy.Inotify.Setup.Reading.{
  IsAbsoluteDump, next_entry, entries_read, read_entries, setup_file,
}
use inotispy.Inotify.Sound.{Sound, empty_tables-Sound, watch_tree-Sound, dump_roots-Sound}
use inotispy.Config.{Config, Files}
use inotispy.Log.{Logger}
use inotispy.Main.{Process, update_config, alarm_handler}
use inotispy.Main.Outcome.{OnGoing, OnGoing-next, OnGoing-or_crash, OnGoing-of, OnGoing-if}
use inotispy.Main.Options.{default_options, parse_options}
use inotispy.Main.Start.{Machine, is_linux, prepare, start_log, start_tables, start}

some_injective : {a b : List Entry} → some a ≡ some b → a ≡ b
some_injective e = cc

module _ {S : Sys} where
  rewatch_entry-Sound :
      (st t : State S) (entry : Entry)
      → first_is slash entry.path ≡ true
      → Sound st
      → rewatch_entry st entry ≡ some t
      → Sound t
  unfolding rewatch_entry
  rewatch_entry-Sound st t entry slashed h e =
      elim (Bool-cases (int_eq entry.mask (ℤ.pos 0) || int_eq entry.max_events (ℤ.pos 0))) [
        | inl blank ↦ let same : st ≡ t = ground (arith, blank, e) in subst Sound same h
        | inr full ↦
            elim (Option-cases (watch_tree st entry.path entry.mask entry.max_events true)) [
              | inl bad ↦ absurd (ground (arith, bad, full, e))
              | inr ((rv, s), done) ↦
                  let same : s ≡ t = ground (arith, done, full, e) in
                  subst Sound same (
                    watch_tree-Sound st s entry.path entry.mask entry.max_events true rv slashed h
                      done)
            ]
      ]

  read_entries-Sound :
      (size : ℕ) (file : Text) (rounds : ℕ) (st : State S) (s : Stream) (entries : List Entry)
      → entries_read size file rounds st s ≡ some entries
      → AllSlashed entries
      → Sound st
      → OnSome Sound (read_entries size file rounds st s)
  unfolding read_entries entries_read
  read_entries-Sound size file zero st s entries e slashed h = tt
  read_entries-Sound size file (suc rounds) st s entries e slashed h =
      elim (Option-cases (next_entry size file st s)) [
        | inl at_end ↦ rw (at_end, read_entries) h
        | inr ((parsed, s'), found) ↦
            let (entry, line, e₁) = bind_some parsed _ entries (rw (found, entries_read) at e) in
            let (st', watched, e₂) = bind_some (rewatch_entry st entry) _ entries e₁ in
            let (others, later, e₃) =
              bind_some (entries_read size file rounds st' s') _ entries e₂ in
            let (slash_here, slash_there) = subst AllSlashed (sym (some_injective e₃)) slashed in
            rw (found, line, watched, read_entries)
              (read_entries-Sound size file rounds st' s' others later slash_there
                (rewatch_entry-Sound st st' entry slash_here h watched))
      ]

  pub alarm_handler-Sound :
      (files : Files) (now : Text) (process : Process S)
      → Sound process.inotify
      → OnSome (λ p. Sound p.inotify) (alarm_handler files now process)
  unfolding alarm_handler
  alarm_handler-Sound files now process h =
      OnSome-bind (λ _. Unit {0}) (λ p. Sound p.inotify)
        (update_config files now process.config process.log) _
        (OnSome-intro (λ _. Unit {0}) _ λ _ _. tt) λ settings _. dump_roots-Sound process.inotify h

module _ (S : Sys) where
  setup_file-Sound :
      (size rounds : ℕ) (world : S.World) (file : Option Text)
      → IsAbsoluteDump S size rounds world file
      → OnSome Sound (setup_file {S = S} size rounds world file)
  unfolding setup_file
  setup_file-Sound size rounds world none h = empty_tables-Sound world
  setup_file-Sound size rounds world (some text) (entries, found, slashed) =
      read_entries-Sound size text rounds (empty_tables world) opened entries found slashed
        (empty_tables-Sound world)

  start_tables-Sound :
      (m : Machine) (world : S.World) (config : Config) (log : Logger)
      → IsAbsoluteDump S m.stdio_size m.rounds world m.root_dump
      → OnGoing (λ p. Sound p.inotify) (start_tables {S = S} m world (config, log))
  unfolding start_tables
  start_tables-Sound m world config log h =
      let kept = λ (p : Process S). Sound p.inotify in
      OnGoing-or_crash Sound kept (setup_file {S = S} m.stdio_size m.rounds world m.root_dump) _
        (setup_file-Sound m.stdio_size m.rounds world m.root_dump h)
        λ st sound.
          let p : Process S = record {
            inotify = st;
            config = config;
            log = log;
            config_dump = codes "";
          } in
          OnGoing-if kept m.zmq_starts _ _
            (OnGoing-of kept (alarm_handler m.files m.now p)
              (alarm_handler-Sound m.files m.now p sound))
            tt

  -- The tables are sound when the loop begins.
  pub start-Sound :
      (m : Machine) (world : S.World)
      → IsAbsoluteDump S m.stdio_size m.rounds world m.root_dump
      → OnGoing (λ p. Sound p.inotify) (start {S = S} m world)
  unfolding start start_tables
  start-Sound m world h =
      OnGoing-if _ (is_linux m.sysname) _ _
        (OnGoing-next _ (parse_options m.opts default_options) _ λ options.
          OnGoing-if _ options.help _ _ tt (
            OnGoing-next _ (prepare m options) _ λ options.
              OnGoing-next _ (start_log m options) _
                λ (config, log). start_tables-Sound m world config log h))
        tt
