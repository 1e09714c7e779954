-- ===== src/SshProxy/Listeners.antt =====
-- internal/sshproxy/server.go: the listeners. `Run` and `Shutdown` work on the same server from two
-- goroutines, and the accept loops and connections are counted by its wait group; every step of one of
-- them is a move.
pub mod Covered
pub mod Quiet
pub mod Closed
pub mod Tests
use forge_proxy.Base.{
  ℕ, suc, ◌-◌, Bool, true, false, not, ◌&&◌, ◌||◌, ◌==◌, ltb, List, [], ◌∷◌, ◌++◌, Option, none,
  some, ◌≡◌, if◌then◌else◌,
}

-- Where `Run` stands: it binds the ports that are left, has bound one that is not in the list yet, has
-- put it there and not yet begun to accept, waits for the end of its context, or has returned.
pub data Run : Type 0 where
  binding : List ℕ → Run
  bound listed : ℕ → List ℕ → Run
  waiting returned : Run
  failed : ℕ → Run

-- Where `Shutdown` stands: it has the listeners that it still closes, waits for the group, or has
-- returned, in time or not.
pub data Shutdown : Type 0 where
  unasked : Shutdown
  closing : List ℕ → Shutdown
  awaits in_time too_late : Shutdown

-- `Server`, the open sockets, and the group: the accept loops by their ports and the connections.
pub record State : Type 0 where
  pub run : Run
  pub shutdown : Shutdown
  pub closed : Bool
  pub listeners : List ℕ
  pub sockets : List ℕ
  pub loops : List ℕ
  pub conns : ℕ
  pub is_cancelled : Bool

abbrev pub first : List ℕ → Run
first [] = returned
first (p ∷ ps) = binding (p ∷ ps)

unfoldable pub start : List ℕ → State
start ports = record {
  run = first ports;
  shutdown = unasked;
  closed = false;
  listeners = [];
  sockets = [];
  loops = [];
  conns = 0;
  is_cancelled = false;
}

-- What can happen. An accept loop ends when its socket is closed, or for another reason.
pub data Move : Type 0 where
  listens listen_fails appends spawns done_binding run_cancelled cancels : Move
  begins_shutdown closes_next group_done gives_up : Move
  accepts loop_ends loop_breaks : ℕ → Move
  conn_ends : Move

unfoldable pub is_in : ℕ → List ℕ → Bool
is_in x [] = false
is_in x (y ∷ ys) = (y == x) || is_in x ys

unfoldable pub without : ℕ → List ℕ → List ℕ
without x [] = []
without x (y ∷ ys) = let rest = without x ys in if y == x then ys else y ∷ rest

-- The step of a goroutine, where it can be made.
after_listen : Run → State → Option State
after_listen (binding (p ∷ ps)) s = some (record s { run = bound p ps; sockets = p ∷ s.sockets })
after_listen _ s = none

-- A failure counts only while the server is not closed.
after_failure : Run → State → Option State
after_failure (binding (p ∷ ps)) s =
    some (record s { run = if s.closed then returned else failed p })
after_failure _ s = none

after_append : Run → State → Option State
after_append (bound p ps) s = some (record s { run = listed p ps; listeners = p ∷ s.listeners })
after_append _ s = none

after_spawn : Run → State → Option State
after_spawn (listed p ps) s = some (record s { run = binding ps; loops = p ∷ s.loops })
after_spawn _ s = none

after_binding : Run → State → Option State
after_binding (binding []) s = some (record s { run = waiting })
after_binding _ s = none

after_waiting : Run → State → Option State
after_waiting waiting s = if s.is_cancelled then some (record s { run = returned }) else none
after_waiting _ s = none

after_asking : Shutdown → State → Option State
after_asking unasked s =
    some (record s { closed = true; shutdown = closing s.listeners; listeners = [] })
after_asking _ s = none

after_closing : Shutdown → State → Option State
unfolding without
after_closing (closing (p ∷ ps)) s =
    some (record s { shutdown = closing ps; sockets = without p s.sockets })
after_closing (closing []) s = some (record s { shutdown = awaits })
after_closing _ s = none

is_done : State → Bool
is_done s = elim s.loops [ [] ↦ s.conns == 0 | p ∷ ps ↦ false ]

after_awaiting : Bool → Shutdown → State → Option State
unfolding is_done
after_awaiting true awaits s = if is_done s then some (record s { shutdown = in_time }) else none
after_awaiting false awaits s = some (record s { shutdown = too_late })
after_awaiting _ _ s = none

unfoldable pub step : Move → State → Option State
unfolding after_listen after_failure after_append after_spawn after_binding after_waiting
    after_asking after_closing after_awaiting is_in without
step listens s = after_listen s.run s
step listen_fails s = after_failure s.run s
step appends s = after_append s.run s
step spawns s = after_spawn s.run s
step done_binding s = after_binding s.run s
step run_cancelled s = after_waiting s.run s
step cancels s = some (record s { is_cancelled = true })
step begins_shutdown s = after_asking s.shutdown s
step closes_next s = after_closing s.shutdown s
step group_done s = after_awaiting true s.shutdown s
step gives_up s = after_awaiting false s.shutdown s
step (accepts p) s =
    if is_in p s.loops && is_in p s.sockets then some (record s { conns = suc s.conns }) else none
step (loop_ends p) s =
    if is_in p s.loops && not (is_in p s.sockets)
    then some (record s { loops = without p s.loops })
    else none
step (loop_breaks p) s =
    if is_in p s.loops then some (record s { loops = without p s.loops }) else none
step conn_ends s = if ltb 0 s.conns then some (record s { conns = s.conns - 1 }) else none

-- The states that a server for some ports can come to.
pub data Reach (ports : List ℕ) : State → Type 0 where
  begins : Reach ports (start ports)
  moves : {s t : State} → Reach ports s → (mv : Move) → step mv s ≡ some t → Reach ports t

unfoldable pub steps : List Move → State → Option State
unfolding step
steps [] s = some s
steps (mv ∷ mvs) s = elim (step mv s) [ none ↦ none | some t ↦ steps mvs t ]
