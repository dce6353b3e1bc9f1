-- ===== src/Inotify.antt =====
-- src/inotify.h and the declarations of src/inotify.c: the structs, the global tables, and what the
-- daemon calls of GLib and of the system. The functions of inotify.c are in the modules below.
pub mod Paths
pub mod Queue
pub mod Watching
pub mod Events
pub mod Dump
pub mod Destroy
pub mod Roots
pub mod Memclean
pub mod Agree
pub mod Keeps
pub mod Registry
pub mod Pending
pub mod Sound
pub mod Setup
use inotispy.Prelude.{
  ℕ, ◌≡◌, Bool, true, false, not, Option, none, some, List, ◌∷◌, ◌==◌, ℤ, bit_and, int_eq, map,
  if◌then◌else◌,
}
use inotispy.Text.{Text, text_eq}
use inotispy.Glib.{GHash}

-- Event queue node (struct inotify_queue_node).
pub record Event : Type 0 where
  pub wd : ℤ
  pub mask : ℕ
  pub cookie : ℕ
  pub len : ℕ
  pub path : Text
  pub name : Text

-- What the kernel reports (struct inotify_event).
pub record InEvent : Type 0 where
  pub wd : ℤ
  pub mask : ℕ
  pub cookie : ℕ
  pub len : ℕ
  pub name : Text

-- struct inotify_root; the flags hold 0 or 1, and the queue its events, the oldest first.
pub record Root : Type 0 where
  pub path : Text
  pub mask : ℕ
  pub max_events : ℤ
  pub queue : List Event
  pub destroy : Bool
  pub pause : Bool
  pub rewatch : Bool
  pub persist : Bool

-- struct inotify_watch
pub record Watch : Type 0 where
  pub wd : ℤ
  pub path : Text

-- A thread that has been created: its start routine and its argument. A root is named by its path.
pub data Task : Type 0 where
  watch_tree_task : Text → Text → Bool → Task
  destroy_root_task : Text → Task
  memclean_task : Task

-- d_type of a directory entry, and the file type that stat(2) and lstat(2) report.
pub data FileType : Type 0 where
  directory link other unknown_type : FileType

pub record Dirent : Type 0 where
  pub d_name : Text
  pub d_type : FileType

-- The system calls. A call that can fail returns what C returns.
pub record Kernel : Type 1 where
  pub World : Type 0
  pub opendir : World → Text → Option (List Dirent)
  pub stat : World → Text → Option FileType
  pub lstat : World → Text → FileType
  pub inotify_add_watch : World → Text → ℕ → ℤ × World
  pub inotify_rm_watch : World → ℤ → ℤ × World
  -- fopen of the dump file for writing.
  pub fopen_dump : World → Bool
  pub pthread_create : World → ℤ × World

pub record Sys : Type 1 where
  pub kernel : Kernel
  pub open kernel use *
  pub roots_hash : GHash Text Root text_eq
  pub wd_hash : GHash ℤ Watch int_eq
  pub path_hash : GHash Text Watch text_eq

-- One line of the dump file.
pub record DumpLine : Type 0 where
  pub path : Text
  pub mask : ℕ
  pub max_events : ℤ

-- The global variables of inotify.c, the threads that wait to run, the dump file and the system.
pub record State (S : Sys) : Type 0 where
  pub roots : S.roots_hash.Table
  pub wd_to_watch : S.wd_hash.Table
  pub path_to_watch : S.path_hash.Table
  pub num_watched_roots : ℤ
  pub in_memclean : Bool
  pub in_root_rewatch : Bool
  pub num_root_rewatch : ℕ
  pub tasks : List Task
  pub dump : Option (List DumpLine)
  pub world : S.World

-- Bits of an event mask (sys/inotify.h).
abbrev pub in_attrib : ℕ
in_attrib = 0x4

abbrev pub in_close_write : ℕ
in_close_write = 0x8

abbrev pub in_close_nowrite : ℕ
in_close_nowrite = 0x10

abbrev pub in_moved_from : ℕ
in_moved_from = 0x40

abbrev pub in_moved_to : ℕ
in_moved_to = 0x80

abbrev pub in_create : ℕ
in_create = 0x100

abbrev pub in_delete : ℕ
in_delete = 0x200

abbrev pub in_unmount : ℕ
in_unmount = 0x2000

abbrev pub in_q_overflow : ℕ
in_q_overflow = 0x4000

abbrev pub in_ignored : ℕ
in_ignored = 0x8000

abbrev pub in_dont_follow : ℕ
in_dont_follow = 0x2000000

abbrev pub in_isdir : ℕ
in_isdir = 0x40000000

-- (mask & bits) != 0
unfoldable pub has : ℕ → ℕ → Bool
has mask bits = not (bit_and mask bits == 0)

module _ {S : Sys} where
  -- inotify_is_root
  unfoldable pub is_root : State S → Text → Option Root
  is_root st path = S.roots_hash.lookup st.roots path

  -- A write through a `Root *` that was looked up under `path`.
  unfoldable pub set_root : State S → Text → Root → State S
  set_root st path root = record st { roots = S.roots_hash.replace st.roots path root }

  unfoldable pub modify_root : State S → Text → (Root → Root) → State S
  unfolding is_root set_root
  modify_root st path f = elim (is_root st path) [
    | none ↦ st
    | some root ↦ set_root st path (f root)
  ]

  -- pthread_create with a start routine, `true` if the thread runs.
  unfoldable pub spawn : State S → Task → Bool × State S
  spawn st task =
      let (rv, world) = S.pthread_create st.world in
      if int_eq rv (ℤ.pos 0)
      then (true, record st { world = world; tasks = task ∷ st.tasks })
      else (false, record st { world = world })
