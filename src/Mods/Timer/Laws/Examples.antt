-- ===== src/Mods/Timer/Laws/Examples.antt =====
-- A timer of 1500 ms.
use libthreads_c.Base.{◌+◌, ◌*◌, ◌<◌, ◌^◌, ◌≡◌, arith}
use libthreads_c.Mods.Timer.{timer_set, millisecs_to_nanosecs}
use libthreads_c.Mods.Timer.Laws.{timer_set_lem}

timer_set_lem_example :
    ((timer_set 9 1500).it_value.tv_sec * 1000000000 + (timer_set 9 1500).it_value.tv_nsec
      ≡ 1500 * 1000000)
    × ((timer_set 9 1500).it_value.tv_nsec < 1000000000)
    × ((timer_set 9 1500).it_interval.tv_sec + (timer_set 9 1500).it_interval.tv_nsec ≡ 0)
    × (millisecs_to_nanosecs 1500 < 2 ^ 63)
timer_set_lem_example = timer_set_lem 9 1500 (omega arith)
