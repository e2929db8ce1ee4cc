-- ===== src/Mods/Timer/Laws.antt =====
-- The period of a timer.
mod Examples
use libthreads_c.Base.{ℕ, ◌+◌, ◌*◌, ◌<◌, ◌^◌, ◌≡◌, arith}
use libthreads_c.Mods.Timer.{timer_set, millisecs_to_nanosecs}

-- The seconds and nanoseconds that are stored add up to the period that was asked for, the
-- nanoseconds are less than a second, as timer_settime wants them, and the timer goes off once.
-- This holds for every period below 9000000000000 ms, for which the product in nanoseconds fits a
-- signed 64-bit `long`.
pub timer_set_lem :
    (tid millisecs : ℕ)
    → millisecs < 9000000000000
    → let timer = timer_set tid millisecs in
      (timer.it_value.tv_sec * 1000000000 + timer.it_value.tv_nsec ≡ millisecs * 1000000)
      × (timer.it_value.tv_nsec < 1000000000)
      × (timer.it_interval.tv_sec + timer.it_interval.tv_nsec ≡ 0)
      × (millisecs_to_nanosecs millisecs < 2 ^ 63)
unfolding timer_set
timer_set_lem tid millisecs small = (omega arith, omega arith, omega arith, omega arith)
