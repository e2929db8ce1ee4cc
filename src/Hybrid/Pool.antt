-- ===== src/Hybrid/Pool.antt =====
-- hybrid/src/mmsched.c: the dispatchers' kernel threads. The text is that of many-many/src/mmsched.c, and so are
-- the definitions, on the state and with the conventions of ManyMany/Pool.
use libthreads_c.Base.{ℕ, Option}
use libthreads_c.ManyMany.Pool as Same
use libthreads_c.ManyMany.Pool.{Scheduler}
pub use libthreads_c.ManyMany.Pool.{Pool}

abbrev pub mmsched_create : Pool → Option (Scheduler × Pool)
mmsched_create p = Same.mmsched_create p

abbrev pub mmsched_destroy : Scheduler → Pool → Pool
mmsched_destroy sched p = Same.mmsched_destroy sched p

abbrev pub mmsched_init : ℕ → Pool → Option Pool
mmsched_init nb_scheds p = Same.mmsched_init nb_scheds p

abbrev pub mmsched_deinit : Pool → Pool
mmsched_deinit p = Same.mmsched_deinit p
