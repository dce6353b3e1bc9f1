-- ===== src/Zeromq/Uptimes.antt =====
-- The uptime that EVENT_status of src/zeromq.c reports.
use inotispy.Prelude.{ℕ, ◌+◌, ◌*◌, ◌<◌, ◌≡◌, arith}
use inotispy.Zeromq.{split_uptime}

-- The days, hours, minutes and seconds of the reported uptime add up to the seconds since the
-- start, with fewer than 24 hours, 60 minutes and 60 seconds.
pub split_uptime_lem :
    (secs : ℕ)
    → let up = split_uptime secs in
      (((up.days * 24 + up.hours) * 60 + up.mins) * 60 + up.secs ≡ secs)
      × (up.hours < 24)
      × (up.mins < 60)
      × (up.secs < 60)
unfolding split_uptime
split_uptime_lem secs = (omega arith, omega arith, omega arith, omega arith)
