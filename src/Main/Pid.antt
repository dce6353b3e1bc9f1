-- ===== src/Main/Pid.antt =====
-- The pid file: check_pid, clear_pid and write_pid of src/main.c, of the text in the file, where
-- `none` is no file.
use inotispy.Prelude.{
  Bool, true, false, Option, none, some, [], ◌∷◌, ◌==◌, ℤ, length, if◌then◌else◌,
}
use inotispy.Text.{Text, up_to_zero, fgets, strip_newline}
use inotispy.Main.Outcome.{Outcome, goes_on, exits, crashes}
use inotispy.Text.Decimal.{print_int, atoi}

-- unlink(2) succeeds or not.
unfoldable pub clear_pid : Bool → Option Text → Bool × Option Text
clear_pid unlinks file = if unlinks then (true, none) else (false, file)

-- The part of check_pid behind the reading of the pid: /proc has a directory for it or not.
unfoldable pub check_running : (ℤ → Bool) → Bool → Option Text → ℤ → Outcome (Option Text)
unfolding clear_pid
check_running running unlinks file pid =
    if running pid
    then exits 1
    else (let (cleared, file) = clear_pid unlinks file in if cleared then goes_on file else exits 1)

-- `char line[8]` has room for seven characters. CONFIG is not set yet, and is read if the file is
-- empty; a line that starts with a zero has no last character.
unfoldable pub check_pid : (ℤ → Bool) → Bool → Option Text → Outcome (Option Text)
check_pid running unlinks none = goes_on none
check_pid running unlinks (some []) = crashes
check_pid running unlinks (some (c ∷ text)) =
    let line = up_to_zero ((fgets 7 (c ∷ text)).0) in
    if length line == 0
    then crashes
    else check_running running unlinks (some (c ∷ text)) (atoi (strip_newline line))

unfoldable pub write_pid : Bool → ℤ → Option Text → Outcome (Option Text)
unfolding print_int
write_pid opens pid file = if opens then goes_on (some (print_int pid)) else exits 1
