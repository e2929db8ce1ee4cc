-- ===== src/ManyMany/Examples/Scheduling.antt =====
-- The dispatcher's steps and the pending signals on concrete worlds.
use libthreads_c.Base.{◌≡◌, ◌<◌, ◌≤◌, ◌^◌, ◌||◌, ◌==◌, refl, has, [], ◌∷◌, arith}
use libthreads_c.ManyMany.World.{World, Thread, Mutex, Returns, exited, wait_join, wait_mutex}
use libthreads_c.ManyMany.Pending.{td_set_sig_pending, td_get_sig_pending}
use libthreads_c.ManyMany.Pending.Laws.{signals, signals-td_set_sig_pending, td_get_sig_pending_lem}
use libthreads_c.ManyMany.Sched.{send_pending_signals}
use libthreads_c.ManyMany.Sched.Send.{Sent, send_pending_signals_lem}
use libthreads_c.ManyMany.Examples.{plain, plain_mutex, plain_spin, scene, pair}

abbrev two : World
two = pair plain plain

abbrev signalled : Thread
signalled = record plain { pend_sig = 514 }

abbrev beside_signalled : World
beside_signalled = pair plain signalled

abbrev queued : World
queued = scene plain plain plain_mutex plain_spin (200 ∷ 250 ∷ [])

abbrev joiner : Thread
joiner = record plain { state = wait_join; wait_for = 200 }

abbrev locked : Thread
locked = record plain { mem_lock = 0 }

abbrev joining : World
joining = pair joiner locked

abbrev waiter : Thread
waiter = record plain { state = wait_mutex; wait_for = 300 }

abbrev locked_mutex : Mutex
locked_mutex = record { owner = 200; waitll = 100 ∷ []; mem_lock = 0 }

abbrev waiting : World
waiting = scene waiter plain locked_mutex plain_spin []

abbrev leaver : Thread
leaver = record plain { state = exited; join_thread = 200 }

abbrev leaving : World
leaving = pair leaver plain

abbrev blocked : Thread
blocked = record plain { state = exited; mem_lock = 0 }

send_pending_signals_lem_example :
    Returns (Sent beside_signalled 200 signalled) (send_pending_signals 200 beside_signalled)
send_pending_signals_lem_example =
    send_pending_signals_lem beside_signalled 200 signalled (record { not_null = refl; at = refl })
      refl (omega arith)

signals-td_set_sig_pending_example :
    has 10 (signals (td_set_sig_pending 514 10)) ≡ ((10 == 10) || has 10 (signals 514))
signals-td_set_sig_pending_example =
    signals-td_set_sig_pending 514 10 10 (omega arith) (omega arith) (omega arith) (omega arith)

td_get_sig_pending_lem_example :
    (signals 514 ≡ (td_get_sig_pending 514).0 ∷ signals (td_get_sig_pending 514).1)
    × ((td_get_sig_pending 514).1 < 2 ^ 32)
    × (1 ≤ (td_get_sig_pending 514).0)
    × ((td_get_sig_pending 514).0 ≤ 32)
td_get_sig_pending_lem_example = td_get_sig_pending_lem 514 (omega arith) (omega arith)
