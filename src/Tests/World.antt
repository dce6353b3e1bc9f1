-- ===== src/Tests/World.antt =====
-- A small system: three directories, /srv, /srv/sub and /files, a kernel that numbers its watches, and a
-- parser that reads the call of a request between two braces.
use inotispy.Prelude.{
  is_some, ℕ, suc, ◌-◌, ◌≡◌, refl, true, ◌||◌, Option, none, some, List, [], ◌∷◌, ℤ, int_eq_iff,
  take, drop, length, arith, ◌⊎◌, inl, inr, subst, Bool-cases, if◌then◌else◌,
}
use inotispy.Text.{Text, codes, text_eq}
use inotispy.Text.Laws.{text_eq_iff, text_eq→eq}
use inotispy.Glib.Assoc.{assoc_hash}
use inotispy.Request.{JsonType, json_object, json_string, json_int, JsonC}
use inotispy.Inotify.{directory, other, Dirent, Kernel, Sys, Root, Watch}
use inotispy.Inotify.Watching.Ends.{HasLimits, AllNamed}
use inotispy.Inotify.Memclean.Cleans.{RmWatchKeepsDisk}
use inotispy.Inotify.Setup.{Entry}
use inotispy.Zeromq.{Host}

abbrev pub srv : Text
srv = codes "/srv"

abbrev pub sub : Text
sub = codes "/srv/sub"

abbrev pub files : Text
files = codes "/files"

abbrev pub entries : List Dirent
entries =
    (record { d_name = codes "."; d_type = directory })
    ∷ (record { d_name = codes "sub"; d_type = directory })
    ∷ (record { d_name = codes "file"; d_type = other })
    ∷ []

-- The world is the next descriptor.
abbrev pub open_dir : ℕ → Text → Option (List Dirent)
open_dir w path =
    if text_eq path srv
    then some entries
    else if text_eq path sub
    then some []
    else if text_eq path files
    then some []
    else none

abbrev pub kernel : Kernel
kernel = record {
  World = ℕ;
  opendir = open_dir;
  stat = λ w path.
      if text_eq path srv || text_eq path sub || text_eq path files then some directory else none;
  lstat = λ w path. other;
  inotify_add_watch = λ w path mask. (ℤ.pos w, suc w);
  inotify_rm_watch = λ w wd. (ℤ.pos 0, w);
  fopen_dump = λ w. true;
  pthread_create = λ w. (ℤ.pos 0, w);
}

abbrev pub sys : Sys
sys = record {
  kernel = kernel;
  roots_hash = assoc_hash Root text_eq_iff;
  wd_hash = assoc_hash Watch int_eq_iff;
  path_hash = assoc_hash Watch text_eq_iff;
}

-- What can be opened.
open_dir_cases :
    (w : ℕ) (p : Text) (dirs : List Dirent)
    → open_dir w p ≡ some dirs
    → (p ≡ srv) × (entries ≡ dirs) ⊎ ((p ≡ sub) × ([] ≡ dirs) ⊎ (p ≡ files) × ([] ≡ dirs))
open_dir_cases w p dirs e = elim (Bool-cases (text_eq p srv)) [
  | inl is_srv ↦ inl (text_eq→eq p srv is_srv, ground (arith, is_srv, e))
  | inr no_srv ↦ elim (Bool-cases (text_eq p sub)) [
    | inl is_sub ↦ inr (inl (text_eq→eq p sub is_sub, ground (arith, no_srv, is_sub, e)))
    | inr no_sub ↦ elim (Bool-cases (text_eq p files)) [
      | inl is_files ↦
          inr (inr (text_eq→eq p files is_files, ground (arith, no_srv, no_sub, is_files, e)))
      | inr no_files ↦ absurd (ground (arith, no_srv, no_sub, no_files, e))
    ]
  ]
]

pub sys-HasLimits : HasLimits sys 100
sys-HasLimits = record {
  short = λ w p dirs e. elim (open_dir_cases w p dirs e) [
    | inl (is_srv, same) ↦ rw is_srv (omega arith)
    | inr (inl (is_sub, same)) ↦ rw is_sub (omega arith)
    | inr (inr (is_files, same)) ↦ rw is_files (omega arith)
  ];
  all_named = λ w p dirs e. elim (open_dir_cases w p dirs e) [
    | inl (is_srv, same) ↦ subst AllNamed same (omega arith, (omega arith, (omega arith, tt)))
    | inr (inl (is_sub, same)) ↦ subst AllNamed same tt
    | inr (inr (is_files, same)) ↦ subst AllNamed same tt
  ];
}

pub sys-RmWatchKeepsDisk : RmWatchKeepsDisk sys
sys-RmWatchKeepsDisk = record { same_stat = λ w wd p. refl }

-- What the parser builds: a request with its call, its path and a number under all other keys.
pub data Json : Type 0 where
  string : Text → Json
  number : ℤ → Json
  object : Text → Text → ℤ → Json

abbrev pub field : Json → Text → Option Json
field (object call path n) key =
    if text_eq key (codes "call")
    then some (string call)
    else if text_eq key (codes "path")
    then some (string path)
    else some (number n)
field _ key = none

abbrev pub type_of : Json → JsonType
type_of (string s) = json_string
type_of (number n) = json_int
type_of (object call path n) = json_object

abbrev pub string_of : Json → Text
string_of (string s) = s
string_of _ = []

abbrev pub int_of : Json → ℤ
int_of (number n) = n
int_of _ = ℤ.pos 0

abbrev pub json : JsonC
json = record {
  Obj = Json;
  tokener_parse = λ text. some (object (take (length text - 2) (drop 1 text)) srv (ℤ.pos 2));
  object_get = field;
  get_type = type_of;
  get_string = string_of;
  get_int = int_of;
}

abbrev pub host : Host
host = record {
  max_inotify_events = ℤ.pos 65536;
  pid = 42;
  seconds_up = 90061;
  null_text = codes "(null)";
}

abbrev pub entry : Entry
entry = record { path = srv; mask = ℤ.pos 0x8; max_events = ℤ.pos 2 }

abbrev pub entry_of_files : Entry
entry_of_files = record { path = files; mask = ℤ.pos 0x8; max_events = ℤ.pos 9 }

-- A value that is there.
abbrev pub value {ℓ} : {A : Type ℓ} → A → Option A → A
value a none = a
value a (some b) = b

pub value_there {ℓ} : {A : Type ℓ} (a : A) (o : Option A) → is_some o ≡ true → o ≡ some (value a o)
value_there a none h = cc
value_there a (some b) h = refl
