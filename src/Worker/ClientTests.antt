-- ===== src/Worker/ClientTests.antt =====
-- A worker that takes a client, and one whose client is late.
use avant.Base.Map
use avant.Base.Set
use avant.Base.{ℕ, ◌≡◌, refl, ℤ, pos, true, some, arith, nat_eq, int_eq}
use avant.Connection.{on_alloc}
use avant.ConnectionMgr.{init, alloc_connection, bind_index, get_conn, get_conn_by_gid, deref}
use avant.ConnectionMgr.Init.{constructed, init-IsWf}
use avant.Timer.{
  Timer, new_timer, add, put, mark_delete, is_valid, emplace, erase_it, index_emplace,
}
use avant.Timer.Indexed.{no_timers, no_timers-IsIndexed}
use avant.Timer.Lookup.{add-IsIndexed}
use avant.Worker.{WorkerState, stream_task}
use avant.Worker.Client.{Surroundings, on_new_client_fd, run_timers}
use avant.Worker.Accept.{IsOutcome, on_new_client_fd-IsOutcome}
use avant.Worker.Shut.{IsShut}
use avant.Worker.Timeout.{run_timers_closes}
use avant.Worker.Tests.{head, head-in_set, head-at_end, fresh, one_live-IsWf, worker, client}

abbrev all_well : Surroundings
all_well = record {
  begin = head;
  use_ssl = true;
  ctx_made = true;
  poller_adds = true;
  ssl_made = true;
}

abbrev no_client : WorkerState
no_client = record worker { worker_connection_mgr = (init true fresh 2 constructed).1 }

on_new_client_fd-IsOutcome_example :
    IsOutcome all_well stream_task
      (λ fd w. w)
      (pos 9)
      514
      no_client
      (on_new_client_fd all_well stream_task (λ fd w. w) (pos 9) 514 no_client)
unfolding init
on_new_client_fd-IsOutcome_example =
    on_new_client_fd-IsOutcome all_well stream_task (λ fd w. w) (pos 9) 514 no_client
      (record { in_set = head-in_set; at_end = head-at_end }) (init-IsWf fresh 2).0
      no_timers-IsIndexed refl (ground (arith, Map.find-nil {V = ℕ} (pos 9)))

late : Timer ℤ
late = new_timer 513 100 (pos 1) 5 (some (pos 7))

-- the client of descriptor 7, with its timer of 5 seconds
abbrev waiting : WorkerState
unfolding late
waiting = record worker { m_conn_timeout_timer_manager = (add (some late) no_timers).1 }

run_timers_closes_example :
    IsShut
      (pos 7)
      2
      client
      (run_timers 105 waiting).1.worker_connection_mgr
      (run_timers 105 waiting).1.deleted_events
    × (Set.contains (pos 7) (run_timers 105 waiting).0 ≡ true)
unfolding late add new_timer put mark_delete is_valid emplace erase_it index_emplace no_timers
    Map.find Map.assign Map.erase get_conn_by_gid get_conn deref init alloc_connection bind_index
    on_alloc Set.insert Set.erase
run_timers_closes_example =
    run_timers_closes 105 513 2 (pos 7) late client waiting
      (record { wf = one_live-IsWf; made = refl })
      (add-IsIndexed late no_timers no_timers-IsIndexed) (ground arith) (ground arith) refl refl
      (ground arith) refl refl refl refl
