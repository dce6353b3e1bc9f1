-- ===== src/Main/Start/Second.antt =====
-- About the pid file of src/main.c: what a second start of the daemon finds in it.
use inotispy.Prelude.{
  ℕ, ◌≤◌, ◌<◌, ◌^◌, ◌≡◌, refl, ◌∙◌, ap, Bool, true, false, some, [], ◌∷◌, ◌==◌, ℤ, arith, length,
}
use inotispy.Text.{Text}
use inotispy.Text.Decimal.{print_nat, print_int, atoi}
use inotispy.Text.Decimal.RoundTrip.{
  NonEmpty, print_nat-length-lt, print_nat-NonEmpty, atoi-print_int,
}
use inotispy.Text.Lines.{
  OneLine, print_int-OneLine, fgets_whole, up_to_zero_whole, strip_newline_whole,
}
use inotispy.Main.Outcome.{goes_on, exits}
use inotispy.Inotify.{Sys}
use inotispy.Main.Options.{Options, default_options, parse_options}
use inotispy.Main.Start.{Machine, is_linux, prepare, start}
use inotispy.Main.Pid.{check_running, check_pid}

not_empty : (c : ℕ) (s : Text) → (length (c ∷ s) == 0) ≡ false
not_empty c s = ground arith

check_pid_of :
    (running : ℤ → Bool) (unlinks : Bool) (s : Text)
    → NonEmpty s
    → OneLine s
    → length s ≤ 7
    → check_pid running unlinks (some s) ≡ check_running running unlinks (some s) (atoi s)
unfolding check_pid
check_pid_of running unlinks [] h one_line fits = absurd (omega arith)
check_pid_of running unlinks (c ∷ s) h one_line fits =
    rw
      (
        fgets_whole 7 (c ∷ s) one_line fits,
        up_to_zero_whole (c ∷ s) one_line,
        strip_newline_whole (c ∷ s) one_line,
        not_empty c s,
      )
      refl

-- The pid that was written is the pid that is checked.
pub check_pid-print_int :
    (running : ℤ → Bool) (unlinks : Bool) (pid : ℕ)
    → pid < 10 ^ 7
    → check_pid running unlinks (some (print_int (ℤ.pos pid)))
      ≡ check_running running unlinks (some (print_int (ℤ.pos pid))) (ℤ.pos pid)
unfolding print_int
check_pid-print_int running unlinks pid small =
    check_pid_of running unlinks (print_nat pid) (print_nat-NonEmpty pid)
      (print_int-OneLine (ℤ.pos pid)) (print_nat-length-lt 6 pid small)
    ∙ ap (check_running running unlinks (some (print_nat pid)))
        (atoi-print_int (ℤ.pos pid) (omega arith))

module _ {S : Sys} where
  -- On Linux, with the daemon mode and without the help among the options: if the pid file holds
  -- the print of a pid below ten million, and that process runs, the start exits with status 1.
  pub second_daemon_exits :
      (m : Machine) (world : S.World) (options : Options) (pid : ℕ)
      → is_linux m.sysname ≡ true
      → parse_options m.opts default_options ≡ goes_on options
      → options.help ≡ false
      → options.daemon_mode ≡ true
      → m.pid_text options.pid_file ≡ some (print_int (ℤ.pos pid))
      → pid < 10 ^ 7
      → m.running (ℤ.pos pid) ≡ true
      → start {S = S} m world ≡ exits 1
  unfolding start prepare check_running
  second_daemon_exits m world options pid linux parsed no_help daemon written small alive =
      rw
        (
          linux,
          parsed,
          no_help,
          daemon,
          written,
          check_pid-print_int m.running m.unlinks pid small,
          alive,
        )
        refl
