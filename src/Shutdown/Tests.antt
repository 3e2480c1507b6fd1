-- ===== src/Shutdown/Tests.antt =====
-- Tests of the shutdown.
use mathlib.Core.List.{Perm}
use mathlib.Core.List.Perm
use light_rpc.Prelude.{
  ℕ, suc, ◌<◌, ◌≡◌, refl, List, [], ◌∷◌, ◌++◌, none, some, true, false, arith, inl, inr,
}
use light_rpc.Prelude.Assoc.{lookup}
use light_rpc.Prelude.Eq.{nat_eq}
use light_rpc.Codec.{encode, encode_data}
use light_rpc.Buffer.{Written, wrote}
use light_rpc.Connection
use light_rpc.EventLoop.{testing}
use light_rpc.EventLoop.Functors
use light_rpc.EventLoop.Functors.{in_hand}
use light_rpc.ThreadPool.{Pool, wait_for_tasks}
use light_rpc.Server.{Task}
use light_rpc.TcpServer.{TcpServer}
use light_rpc.TcpServer.Steps.{IsSound}
use light_rpc.Shutdown.{
  goes_away, accept_stops, stops_all, RpcServer, Event, main_runs, loop_tests, loop_polls,
  loop_swaps, loop_executes, apply, run, stop_steps,
}
use light_rpc.Shutdown.Order.{to_queue, stop_functors, schedule, stop_in_order, stop_can_skip_all}
use light_rpc.Shutdown.Goodbye.{says_goodbye}
use light_rpc.Tests.Data.{response_proto}

abbrev all_written : ℕ → Written
all_written fd = wrote 4

abbrev clear : ℕ → ℕ
clear n = 0

suc_signals : (n : ℕ) → 0 < suc n
suc_signals n = omega arith

abbrev idle_pool : Pool Task
idle_pool = record {
  is_closed = false;
  tasks = [];
  workers = [];
  active_tasks = 0;
  max_queue_size = 1;
}

-- A server with one connection.
abbrev serving : TcpServer
serving = record {
  listen_fd = 3;
  shut_down = false;
  accept_channel = none;
  connections = (5, Connection.create 5) ∷ [];
  stopped = false;
  opened = 5 ∷ [];
  closed = [];
}

serving-IsSound : IsSound serving
unfolding Connection.create lookup
serving-IsSound = record {
  uniq = (refl, tt);
  live = (refl, tt);
  once = Perm.refl (5 ∷ []);
  quiet = inl refl;
}

-- Its loop stands at the test of `quit_`.
abbrev stopping : RpcServer
stopping = record {
  main = stop_steps;
  loop = record {
    loop = record { quit = false; wakeup_fd = 7; signal = 0; pending_functors = [] };
    place = testing;
    queued = [];
    ran = [];
    owed = 0;
  };
  tcp_server = serving;
}

stopping-IsSound : Functors.IsSound stopping.loop
stopping-IsSound = record { fifo = refl; woken = inr (inl refl) }

abbrev some_events : List Event
some_events =
    main_runs idle_pool
    ∷ main_runs idle_pool
    ∷ loop_tests
    ∷ loop_polls []
    ∷ loop_swaps
    ∷ main_runs idle_pool
    ∷ main_runs idle_pool
    ∷ loop_executes
    ∷ []

stop_in_order_example :
    (run response_proto all_written suc clear some_events stopping).loop.ran
      ++ (in_hand (run response_proto all_written suc clear some_events stopping).loop.place
          ++ ((run response_proto all_written suc clear some_events
                stopping).loop.loop.pending_functors
              ++ to_queue (run response_proto all_written suc clear some_events stopping).main))
    ≡ stop_functors
stop_in_order_example =
    stop_in_order response_proto all_written suc clear suc_signals some_events stopping refl
      stopping-IsSound refl

stop_can_skip_all_example :
    ((run response_proto all_written suc clear (schedule idle_pool) stopping).main ≡ [])
    × ((run response_proto all_written suc clear (schedule idle_pool) stopping).loop.ran ≡ [])
    × ((run response_proto all_written suc clear
          (schedule idle_pool)
          stopping).tcp_server.connections
        ≡ serving.connections)
    × ((run response_proto all_written suc clear (schedule idle_pool) stopping).tcp_server.closed
        ≡ [])
unfolding wait_for_tasks
stop_can_skip_all_example =
    stop_can_skip_all response_proto all_written suc clear suc_signals idle_pool stopping refl refl
      refl

abbrev told : TcpServer
told =
    apply response_proto all_written goes_away
      (apply response_proto all_written accept_stops serving)

abbrev ended : TcpServer
ended = apply response_proto all_written stops_all (record told { stopped = true })

says_goodbye_example :
    (lookup 5 told.connections
      ≡ some (Connection.send (0 ∷ 0 ∷ 0 ∷ 0 ∷ []) (wrote 4) (Connection.create 5)))
    × (ended.connections ≡ [])
    × Perm ended.opened ended.closed
unfolding encode encode_data lookup
says_goodbye_example =
    says_goodbye response_proto all_written (0 ∷ 0 ∷ 0 ∷ 0 ∷ []) 5 (Connection.create 5) serving
      refl serving-IsSound refl refl
