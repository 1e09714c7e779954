-- ===== src/SshProxy/Forward/Channel.antt =====
-- internal/sshproxy/forward.go: `proxyChannel` as a state machine. Its goroutines are the two request
-- loops, the four copies and the function itself, which share the lock `replying`. The moves of the
-- two ends of the connection are those that the SSH library lets the goroutines see.
use forge_proxy.Base.{ℕ, suc, ◌-◌, Bool, true, false, not, ◌&&◌, ◌||◌, ◌==◌, ◌≡◌, ltb}

-- Where the function itself stands: it waits for the upstream to close, for the copies from there,
-- and for the lock; under the lock it closes the client's side and the upstream's; then it waits for
-- the other goroutines.
pub data Main : Type 0 where
  await_close drain_from want_lock closing_client closing_up unlocking await_drain returned : Main

-- Where the loop over the client's requests stands: it waits for one, or holds the lock before it
-- sends it on, while it waits for the answer, and before it replies.
pub data Loop : Type 0 where
  idle taken sent answered over : Loop

pub data Lock : Type 0 where
  free loop_has main_has : Lock

-- What is on its way is counted: requests of each side that no loop has taken yet, what the upstream
-- has written that is not copied yet, and what the window of the client leaves room for, which both
-- streams share. `up_asking` is a request of the upstream that the loop is sending to the client, and
-- `up_lost` is whether such a request could not be sent. `client_left` is that the client has closed
-- the channel or has lost its connection.
pub record State : Type 0 where
  pub main : Main
  pub loop : Loop
  pub lock : Lock
  pub up_loop_done : Bool
  pub up_asking : Bool
  pub up_lost : Bool
  pub out_done : Bool
  pub err_done : Bool
  pub in_done : Bool
  pub in_err_done : Bool
  pub client_closed : Bool
  pub up_chan_closed : Bool
  pub client_ended : Bool
  pub client_left : Bool
  pub up_eof : Bool
  pub up_closed : Bool
  pub requests : ℕ
  pub up_requests : ℕ
  pub out_left : ℕ
  pub err_left : ℕ
  pub room : ℕ

abbrev pub start : State
start = record {
  main = await_close;
  loop = idle;
  lock = free;
  up_loop_done = false;
  up_asking = false;
  up_lost = false;
  out_done = false;
  err_done = false;
  in_done = false;
  in_err_done = false;
  client_closed = false;
  up_chan_closed = false;
  client_ended = false;
  client_left = false;
  up_eof = false;
  up_closed = false;
  requests = 0;
  up_requests = 0;
  out_left = 0;
  err_left = 0;
  room = 0;
}

-- The first ten moves are those of the two ends. `client_reads` makes room in the window of the
-- client; `client_answers` lets `SendRequest` return, at once where the upstream wants no reply and with
-- the client's reply otherwise; `client_ends` is the end of the client's streams and requests, which
-- also answers the close of its side; `client_leaves` is the client's own close of the channel or the
-- loss of its connection, after which a copy to the client breaks off and a request to it fails.
pub data Move : Type 0 where
  client_sends client_reads client_answers client_ends client_leaves up_writes up_writes_err
        up_sends up_ends_output up_closes :
      Move
  loop_takes loop_declines loop_sends up_answers loop_replies loop_ends : Move
  up_loop_sends up_loop_fails up_loop_ends : Move
  out_copies out_ends out_breaks err_copies err_ends err_breaks in_ends in_err_ends : Move
  main_sees_close main_drained main_locks main_closes_client main_closes_up main_unlocks : Move
  main_returns : Move

abbrev pub is_main : Main → Main → Bool
is_main await_close await_close = true
is_main drain_from drain_from = true
is_main want_lock want_lock = true
is_main closing_client closing_client = true
is_main closing_up closing_up = true
is_main unlocking unlocking = true
is_main await_drain await_drain = true
is_main returned returned = true
is_main _ _ = false

abbrev pub is_loop : Loop → Loop → Bool
is_loop idle idle = true
is_loop taken taken = true
is_loop sent sent = true
is_loop answered answered = true
is_loop over over = true
is_loop _ _ = false

abbrev pub is_free : Lock → Bool
is_free free = true
is_free loop_has = false
is_free main_has = false

abbrev pub holds : Loop → Bool
holds idle = false
holds taken = true
holds sent = true
holds answered = true
holds over = false

-- Whether a move can be made.
unfoldable pub can : Move → State → Bool
can client_sends s = not s.client_ended
can client_ends s = not s.client_ended
can client_reads s = not s.client_left
can client_answers s = s.up_asking
can client_leaves s = not s.client_left
can up_writes s = not s.up_eof && not s.up_closed
can up_writes_err s = not s.up_eof && not s.up_closed
can up_sends s = not s.up_closed
can up_ends_output s = not s.up_eof
can up_closes s = not s.up_closed
can loop_takes s = is_loop s.loop idle && is_free s.lock && ltb 0 s.requests
can loop_declines s = is_loop s.loop taken
can loop_sends s = is_loop s.loop taken
can up_answers s = is_loop s.loop sent
can loop_replies s = is_loop s.loop answered
can loop_ends s = is_loop s.loop idle && s.client_ended && (s.requests == 0)
can up_loop_sends s = not s.up_loop_done && not s.up_asking && ltb 0 s.up_requests
can up_loop_fails s = s.up_asking && s.client_left
can up_loop_ends s = not s.up_loop_done && not s.up_asking && s.up_closed && (s.up_requests == 0)
can out_copies s = not s.out_done && ltb 0 s.out_left && ltb 0 s.room && not s.client_left
can out_ends s = not s.out_done && (s.up_eof || s.up_closed) && (s.out_left == 0)
can out_breaks s = not s.out_done && s.client_left
can err_copies s = not s.err_done && ltb 0 s.err_left && ltb 0 s.room && not s.client_left
can err_ends s = not s.err_done && (s.up_eof || s.up_closed) && (s.err_left == 0)
can err_breaks s = not s.err_done && s.client_left
can in_ends s = not s.in_done && (s.client_ended || s.up_closed)
can in_err_ends s = not s.in_err_done && (s.client_ended || s.up_closed)
can main_sees_close s = is_main s.main await_close && s.up_loop_done
can main_drained s = is_main s.main drain_from && s.out_done && s.err_done
can main_locks s = is_main s.main want_lock && is_free s.lock
can main_closes_client s = is_main s.main closing_client
can main_closes_up s = is_main s.main closing_up
can main_unlocks s = is_main s.main unlocking
can main_returns s =
    is_main s.main await_drain
    && is_loop s.loop over
    && s.up_loop_done
    && s.in_done
    && s.in_err_done

-- The state after a move.
unfoldable pub next : Move → State → State
next client_sends s = record s { requests = suc s.requests }
next client_ends s = record s { client_ended = true }
next client_reads s = record s { room = suc s.room }
next client_answers s = record s { up_asking = false }
next client_leaves s = record s { client_ended = true; client_left = true }
next up_writes s = record s { out_left = suc s.out_left }
next up_writes_err s = record s { err_left = suc s.err_left }
next up_sends s = record s { up_requests = suc s.up_requests }
next up_ends_output s = record s { up_eof = true }
next up_closes s = record s { up_closed = true }
next loop_takes s = record s { loop = taken; lock = loop_has; requests = s.requests - 1 }
next loop_declines s = record s { loop = answered }
next loop_sends s = record s { loop = sent }
next up_answers s = record s { loop = answered }
next loop_replies s = record s { loop = idle; lock = free }
next loop_ends s = record s { loop = over }
next up_loop_sends s = record s { up_asking = true; up_requests = s.up_requests - 1 }
next up_loop_fails s = record s { up_asking = false; up_lost = true }
next up_loop_ends s = record s { up_loop_done = true }
next out_copies s = record s { out_left = s.out_left - 1; room = s.room - 1 }
next out_ends s = record s { out_done = true }
next out_breaks s = record s { out_done = true }
next err_copies s = record s { err_left = s.err_left - 1; room = s.room - 1 }
next err_ends s = record s { err_done = true }
next err_breaks s = record s { err_done = true }
next in_ends s = record s { in_done = true }
next in_err_ends s = record s { in_err_done = true }
next main_sees_close s = record s { main = drain_from }
next main_drained s = record s { main = want_lock }
next main_locks s = record s { main = closing_client; lock = main_has }
next main_closes_client s = record s { main = closing_up; client_closed = true }
next main_closes_up s = record s { main = unlocking; up_chan_closed = true }
next main_unlocks s = record s { main = await_drain; lock = free }
next main_returns s = record s { main = returned }

-- The states that the channel pair can come to.
pub data Reach : State → Type 0 where
  begins : Reach start
  moves : {s t : State} → Reach s → (mv : Move) → can mv s ≡ true → t ≡ next mv s → Reach t
