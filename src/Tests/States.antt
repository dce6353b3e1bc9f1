-- ===== src/Tests/States.antt =====
-- A state of the small system: the root /srv with one queued event, itself and /srv/sub watched.
use inotispy.Prelude.{none, ◌≡◌, refl, true, false, some, [], ◌∷◌, ℤ, arith}
use inotispy.Text.{codes, text_eq, contains}
use inotispy.Inotify.{Event, InEvent, Root, Watch, State, is_root}
use inotispy.Inotify.Registry.{Registry, Registry-new, Registry-add}
use inotispy.Tests.World.{srv, sub, sys}

abbrev pub queued : Event
queued = record { wd = ℤ.pos 1; mask = 0x8; cookie = 0; len = 16; path = srv; name = codes "a" }

abbrev pub root : Root
root = record {
  path = srv;
  mask = 0x8;
  max_events = ℤ.pos 3;
  queue = queued ∷ [];
  destroy = false;
  pause = false;
  rewatch = true;
  persist = false;
}

abbrev pub srv_watch : Watch
srv_watch = record { wd = ℤ.pos 1; path = srv }

abbrev pub sub_watch : Watch
sub_watch = record { wd = ℤ.pos 2; path = sub }

abbrev pub with_root : Root → State sys
with_root r = record {
  roots = sys.roots_hash.replace sys.roots_hash.new srv r;
  wd_to_watch =
      sys.wd_hash.replace (sys.wd_hash.replace sys.wd_hash.new (ℤ.pos 1) srv_watch) (ℤ.pos 2)
        sub_watch;
  path_to_watch =
      sys.path_hash.replace (sys.path_hash.replace sys.path_hash.new srv srv_watch) sub sub_watch;
  num_watched_roots = ℤ.pos 1;
  in_memclean = false;
  in_root_rewatch = false;
  num_root_rewatch = 0;
  tasks = [];
  dump = none;
  world = 3;
}

abbrev pub st : State sys
st = with_root root

pub root_found : is_root st srv ≡ some root
unfolding is_root text_eq
root_found = refl

-- What the kernel reports of a file and of a directory in /srv.
abbrev pub written : InEvent
written = record { wd = ℤ.pos 1; mask = 0x8; cookie = 0; len = 16; name = codes "b" }

abbrev pub made : InEvent
made = record { wd = ℤ.pos 1; mask = 0x40000100; cookie = 0; len = 16; name = codes "new" }

abbrev pub moved : InEvent
moved = record { wd = ℤ.pos 1; mask = 0x40000040; cookie = 7; len = 16; name = codes "sub" }

pub st-Registry : Registry sys st.roots
unfolding text_eq contains
st-Registry =
    Registry-add sys.roots_hash.new Registry-new root refl (omega arith) refl (λ q r e. absurd (cc))
