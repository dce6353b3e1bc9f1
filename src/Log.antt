-- ===== src/Log.antt =====
-- src/log.h and src/log.c: the levels, and the log file and syslog to which a message goes.
pub mod Keeps
use inotispy.Prelude.{
  ℕ, Bool, true, false, ◌&&◌, Option, none, some, List, [], ◌∷◌, ◌++◌, ℤ, leb, int_eq, lt_ℤ, not,
  ◌>>=◌, if◌then◌else◌,
}
use inotispy.Text.{Text, codes, newline, strip_newline}
use inotispy.Text.Decimal.{print_int}
use inotispy.Config.{Config}

-- enum log_levels
abbrev pub log_level_error : ℤ
log_level_error = ℤ.pos 1

abbrev pub log_level_warn : ℤ
log_level_warn = ℤ.pos 2

abbrev pub log_level_notice : ℤ
log_level_notice = ℤ.pos 3

abbrev pub log_level_debug : ℤ
log_level_debug = ℤ.pos 4

abbrev pub log_level_trace : ℤ
log_level_trace = ℤ.pos 5

-- The priorities of syslog.h: a smaller number is more urgent.
unfoldable pub level_to_syslog_priority : ℤ → ℕ
level_to_syslog_priority level =
    if int_eq level log_level_error
    then 3
    else if int_eq level log_level_warn
    then 4
    else if int_eq level log_level_notice
    then 5
    else if int_eq level log_level_debug
    then 6
    else if int_eq level log_level_trace
    then 7
    else 5

unfoldable pub level_str : ℤ → Text
level_str level =
    if int_eq level log_level_error
    then codes "ERROR"
    else if int_eq level log_level_warn
    then codes "WARN"
    else if int_eq level log_level_notice
    then codes "NOTICE"
    else if int_eq level log_level_debug
    then codes "DEBUG"
    else if int_eq level log_level_trace
    then codes "TRACE"
    else codes "UNKNOWN"

-- A message that syslog(3) was given, and its priority.
pub record Syslogged : Type 0 where
  pub priority : ℕ
  pub text : Text

-- The statics of log.c: the level and the open log file (`none` is NULL); with what has been
-- written to the files, the oldest first, and with the mask and the messages of syslog.
pub record Logger : Type 0 where
  pub log_level : ℤ
  pub logger : Option Text
  pub written : List (Text × Text)
  pub logmask : ℕ
  pub sent : List Syslogged

-- `time_str`, of the text that ctime(3) gives.
abbrev pub time_str : Text → Text
time_str t = strip_newline t

-- The format "[%s] [%s] %s\n".
unfoldable pub log_line : Text → ℤ → Text → Text
unfolding level_str
log_line now level msg =
    codes "["
    ++ (time_str now ++ (codes "] [" ++ (level_str level ++ (codes "] " ++ (msg ++ newline ∷ [])))))

-- fprintf(logger, …), which needs an open file.
abbrev pub write_to : Logger → Text → Option Text → Option Logger
write_to log line none = none
write_to log line (some file) = some (record log { written = log.written ++ (file, line) ∷ [] })

abbrev pub write_log : Logger → Text → Option Logger
write_log log line = write_to log line log.logger

-- syslog(3) passes on what setlogmask lets through. The message is its format; it is taken to hold
-- no conversion.
unfoldable pub send_syslog : Logger → ℕ → Text → Logger
send_syslog log priority msg =
    if leb priority log.logmask
    then record log { sent = log.sent ++ (record { priority = priority; text = msg }) ∷ [] }
    else log

-- `none` is a write through the null pointer.
unfoldable pub log_msg : Config → Text → ℤ → Text → Logger → Option Logger
unfolding log_line send_syslog level_to_syslog_priority
log_msg config now level msg log =
    if lt_ℤ log.log_level level
    then some log
    else ((if config.logging_enabled then write_log log (log_line now level msg) else some log)
        >>= λ log. some (
            if config.log_syslog
            then send_syslog log (level_to_syslog_priority config.log_level) msg
            else log))

-- The format "Log level %d is invalid".
abbrev pub invalid_level : ℤ → Text
invalid_level level = codes "Log level " ++ (print_int level ++ codes " is invalid")

unfoldable pub set_log_level : Config → Text → ℤ → Logger → Option Logger
unfolding log_msg
set_log_level config now level log =
    if not (lt_ℤ level log_level_error) && not (lt_ℤ log_level_trace level)
    then some (record log { log_level = level })
    else log_msg config now log_level_warn (invalid_level level) log

-- The result is whether the file was opened; if it was not, the mask of syslog stays.
unfoldable pub init_logger : (Text → Bool) → Config → Logger → Bool × Logger
unfolding level_to_syslog_priority
init_logger fopen config log =
    if fopen config.log_file
    then (
      true,
      record log {
        log_level = config.log_level;
        logger = some config.log_file;
        logmask =
            if config.log_syslog then level_to_syslog_priority config.log_level else log.logmask;
      },
    )
    else (false, record log { log_level = config.log_level; logger = none })

-- fclose(3) goes through the null pointer of a log that is not open; a closed file is `none` here.
-- sync(2) leaves what is modelled as it is.
unfoldable pub close_logger : Logger → Option Logger
close_logger log = elim log.logger [ none ↦ none | some file ↦ some (record log { logger = none }) ]
