-- ===== src/Client/Results.antt =====
-- About the results of the commands of bin/inotispyctl.c.
use inotispy.Prelude.{
  ◌≡◌, refl, Bool, true, false, Option, none, some, List, [], ◌∷◌, ◌++◌, ℕ, leb, length, arith,
  if◌then◌else◌,
}
use inotispy.Text.{Text, codes, text_eq}
use inotispy.Client.{Link, ReplyJson, exited, Client}
use inotispy.Client.Commands.{
  watch, unwatch, pause_root, unpause_root, flush_queue, list_queue_size, list_roots, get_status,
  zmq_ping,
}
use inotispy.Client.Dispatch.{print_help, requires, with_dir, with_dir_and_count, dispatch}

-- The number of arguments that a command takes; `none` is no command.
abbrev pub arity : Text → Option ℕ
arity command =
    if text_eq command (codes "ping")
    then some 0
    else if text_eq command (codes "status")
    then some 0
    else if text_eq command (codes "list_roots")
    then some 0
    else if text_eq command (codes "list_queues")
    then some 0
    else if text_eq command (codes "get_events")
    then some 2
    else if text_eq command (codes "queue_size")
    then some 1
    else if text_eq command (codes "flush_queue")
    then some 1
    else if text_eq command (codes "watch")
    then some 1
    else if text_eq command (codes "unwatch")
    then some 1
    else if text_eq command (codes "pause")
    then some 1
    else if text_eq command (codes "unpause")
    then some 1
    else none

abbrev pub fits : List Text → Option ℕ → Bool
fits args none = false
fits args (some n) = leb n (length args)

module _ (L : Link) (J : ReplyJson) (help_text version_text : Text) where
  -- It ends in exit(1), and the world is as it was: nothing was sent.
  abbrev pub Refuses : Client L.World (Unit {0}) → Type 0
  Refuses m = (w : L.World) (out : Text) → (out' : Text) × (m w out ≡ exited 1 w out')

  if-Refuses :
      (b : Bool) (args : List Text) (n n' : Option ℕ) (m m' : Client L.World (Unit {0}))
      → (fits args n ≡ false → Refuses m)
      → (fits args n' ≡ false → Refuses m')
      → fits args (if b then n else n') ≡ false
      → Refuses (if b then m else m')
  if-Refuses true args n n' m m' h h' = h
  if-Refuses false args n n' m m' h h' = h'

  requires-Refuses : (message : Text) → Refuses (requires L J help_text version_text message)
  unfolding print_help
  requires-Refuses message w out = (_, refl)

  with_dir-Refuses :
      (name : Text) (args : List Text) (run : Text → Client L.World (Unit {0}))
      → fits args (some 1) ≡ false
      → Refuses (with_dir L J help_text version_text name args run)
  unfolding print_help
  with_dir-Refuses name [] run h = λ w out. (_, refl)
  with_dir-Refuses name (dir ∷ args) run h = absurd (ground (arith, h))

  with_dir_and_count-Refuses :
      (args : List Text)
      → fits args (some 2) ≡ false
      → Refuses (with_dir_and_count L J help_text version_text args)
  unfolding print_help
  with_dir_and_count-Refuses [] h = λ w out. (_, refl)
  with_dir_and_count-Refuses (dir ∷ []) h = λ w out. (_, refl)
  with_dir_and_count-Refuses (dir ∷ count ∷ args) h = absurd (ground (arith, h))

  always_fits :
      (args : List Text) (m : Client L.World (Unit {0})) → fits args (some 0) ≡ false → Refuses m
  always_fits args m h = absurd (ground (arith, h))

  -- A command that the client does not know, or that has fewer arguments than it takes, ends in
  -- an exit with status 1, and the world is as it was: nothing is sent.
  pub dispatch-Refuses :
      (command : Text) (args : List Text)
      → fits args (arity command) ≡ false
      → Refuses (dispatch L J help_text version_text command args)
  unfolding dispatch
  dispatch-Refuses command args =
      if-Refuses (text_eq command (codes "ping")) args _ _ _ _ (always_fits args (zmq_ping L J)) (
        if-Refuses (text_eq command (codes "status")) args _ _ _ _
          (always_fits args (get_status L J))
          (if-Refuses (text_eq command (codes "list_roots")) args _ _ _ _
            (always_fits args (list_roots L J false))
            (if-Refuses (text_eq command (codes "list_queues")) args _ _ _ _
              (always_fits args (list_roots L J true))
              (if-Refuses (text_eq command (codes "get_events")) args _ _ _ _
                (with_dir_and_count-Refuses args)
                (if-Refuses (text_eq command (codes "queue_size")) args _ _ _ _
                  (with_dir-Refuses (codes "queue_size") args (list_queue_size L J))
                  (if-Refuses (text_eq command (codes "flush_queue")) args _ _ _ _
                    (with_dir-Refuses (codes "flush_queue") args (flush_queue L J))
                    (if-Refuses (text_eq command (codes "watch")) args _ _ _ _
                      (with_dir-Refuses (codes "watch") args (watch L J))
                      (if-Refuses (text_eq command (codes "unwatch")) args _ _ _ _
                        (with_dir-Refuses (codes "unwatch") args (unwatch L J))
                        (if-Refuses (text_eq command (codes "pause")) args _ _ _ _
                          (with_dir-Refuses (codes "pause") args (pause_root L J))
                          (if-Refuses (text_eq command (codes "unpause")) args _ _ _ _
                            (with_dir-Refuses (codes "unpause") args (unpause_root L J))
                            (λ _.
                              requires-Refuses
                                (codes "ERROR: Unknown command: " ++ command))))))))))))
