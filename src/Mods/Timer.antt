-- ===== src/Mods/Timer.antt =====
-- mods/timer.c: the one-shot timer. A `long` is signed 64-bit; the conversions are modelled for the
-- periods whose product with 1000000 does not overflow. The timer system calls are events.
pub mod Laws
use libthreads_c.Base.{ℕ, ◌*◌, ◌/◌, ◌%◌}

abbrev pub millisecs_to_nanosecs : ℕ → ℕ
millisecs_to_nanosecs msec = msec * 1000000

abbrev pub secs_in_millisecs : ℕ → ℕ
secs_in_millisecs msec = millisecs_to_nanosecs msec / 1000000000

abbrev pub nanosecs_in_millisecs : ℕ → ℕ
nanosecs_in_millisecs msec = millisecs_to_nanosecs msec % 1000000000

pub record Timespec : Type 0 where
  pub tv_sec : ℕ
  pub tv_nsec : ℕ

-- `struct Timer`, less the kernel's `timer_t`: the interval, and whom the event is for.
pub record Timer : Type 0 where
  pub it_interval : Timespec
  pub it_value : Timespec
  pub signo : ℕ
  pub tid : ℕ

abbrev pub sigalrm : ℕ
sigalrm = 14

-- `tid` is what gettid() returns on the kernel thread that makes the call.
unfoldable pub timer_set : ℕ → ℕ → Timer
timer_set tid millisecs = record {
  it_interval = record { tv_sec = 0; tv_nsec = 0 };
  it_value = record {
    tv_sec = secs_in_millisecs millisecs;
    tv_nsec = nanosecs_in_millisecs millisecs;
  };
  signo = sigalrm;
  tid = tid;
}
