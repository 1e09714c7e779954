-- ===== src/SshProxy/Listeners/Tests.antt =====
-- Tests of the listeners.
use forge_proxy.Base.{true, false, List, [], ◌∷◌, some, ◌≡◌, ◌≢◌, ◌⊎◌, refl}
use forge_proxy.SshProxy.Listeners.{
  binding, waiting, unasked, awaits, in_time, State, start, Move, listens, appends, spawns,
  done_binding, begins_shutdown, closes_next, group_done, accepts, loop_ends, conn_ends, step,
  Reach, begins, moves, steps,
}
use forge_proxy.SshProxy.Listeners.Closed.{steps-closed}

abbrev serving : State
serving = record {
  run = waiting;
  shutdown = unasked;
  closed = false;
  listeners = 22 ∷ [];
  sockets = 22 ∷ [];
  loops = 22 ∷ [];
  conns = 0;
  is_cancelled = false;
}

serving-Reach : Reach (22 ∷ []) serving
unfolding start step
serving-Reach =
    moves (moves (moves (moves begins listens refl) appends refl) spawns refl) done_binding refl

abbrev ending : List Move
ending = accepts 22 ∷ closes_next ∷ closes_next ∷ loop_ends 22 ∷ conn_ends ∷ group_done ∷ []

abbrev ended : State
ended = record {
  run = waiting;
  shutdown = in_time;
  closed = true;
  listeners = [];
  sockets = [];
  loops = [];
  conns = 0;
  is_cancelled = false;
}

-- A port that `Run` binds while the shutdown runs stays open.
late_listener :
    steps (listens ∷ begins_shutdown ∷ closes_next ∷ appends ∷ spawns ∷ []) (start (22 ∷ []))
    ≡ some (record {
      run = binding [];
      shutdown = awaits;
      closed = true;
      listeners = 22 ∷ [];
      sockets = 22 ∷ [];
      loops = 22 ∷ [];
      conns = 0;
      is_cancelled = false;
    })
unfolding steps step start
late_listener = refl

steps-closed_example :
    (ended.sockets ≡ []) × ((ended.shutdown ≢ in_time) ⊎ ((ended.loops ≡ []) × (ended.conns ≡ 0)))
unfolding steps step
steps-closed_example = steps-closed serving ended ending serving-Reach tt refl refl tt
