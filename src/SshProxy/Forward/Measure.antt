-- ===== src/SshProxy/Forward/Measure.antt =====
-- A bound on the moves of a channel pair.
use forge_proxy.Base.{ℕ, zero, suc, ◌+◌, ◌-◌, ◌*◌, ◌≤◌, Bool, true, false, ◌≡◌, arith}
use forge_proxy.SshProxy.Forward.Channel.{
  Loop, idle, taken, sent, answered, over, State, Move, client_sends, client_reads, client_answers,
  client_ends, client_leaves, up_writes, up_writes_err, up_sends, up_ends_output, up_closes,
  loop_takes, loop_declines, loop_sends, up_answers, loop_replies, loop_ends, up_loop_sends,
  up_loop_fails, up_loop_ends, out_copies, out_ends, out_breaks, err_copies, err_ends, err_breaks,
  in_ends, in_err_ends, main_sees_close, main_drained, main_locks, main_closes_client,
  main_closes_up, main_unlocks, main_returns, can, next,
}
use forge_proxy.SshProxy.Forward.Invariant.{rank}

-- The moves of the goroutines, and what they wait for: the answer to a request that was sent to the
-- upstream, which comes at the latest when the upstream closes; room in the window of the client, where
-- something is left to copy and there is none; the client's answer to a request; and the end of the
-- client's streams, once the client's side is closed.
abbrev pub IsOwn : Move → State → Type 0
IsOwn client_sends s = ⊥
IsOwn client_ends s = s.client_closed ≡ true
IsOwn client_leaves s = ⊥
IsOwn client_reads s = (s.room ≡ 0) × (1 ≤ s.out_left + s.err_left)
IsOwn up_writes s = ⊥
IsOwn up_writes_err s = ⊥
IsOwn up_sends s = ⊥
IsOwn up_ends_output s = ⊥
IsOwn up_closes s = ⊥
IsOwn _ s = Unit

abbrev weight : Loop → ℕ
weight idle = 1
weight taken = 4
weight sent = 3
weight answered = 2
weight over = 0

abbrev no_room : ℕ → ℕ
no_room zero = 1
no_room (suc n) = 0

abbrev open_still : Bool → ℕ
open_still true = 0
open_still false = 1

-- A bound on the moves that are left.
unfoldable pub measure : State → ℕ
measure s =
    (7 - rank s.main)
    + weight s.loop
    + 4 * s.requests
    + 2 * s.up_requests
    + (1 - open_still s.up_asking)
    + 2 * s.out_left
    + 2 * s.err_left
    + no_room s.room
    + open_still s.up_loop_done
    + open_still s.out_done
    + open_still s.err_done
    + open_still s.in_done
    + open_still s.in_err_done
    + open_still s.client_ended

pub next-measure :
    (mv : Move) (s : State) → can mv s ≡ true → IsOwn mv s → suc (measure (next mv s)) ≤ measure s
unfolding next can measure
next-measure client_sends s h o = absurd o
next-measure client_ends s h o = ground arith
next-measure client_reads s h o = ground arith
next-measure client_answers s h o = ground arith
next-measure client_leaves s h o = absurd o
next-measure up_writes s h o = absurd o
next-measure up_writes_err s h o = absurd o
next-measure up_sends s h o = absurd o
next-measure up_ends_output s h o = absurd o
next-measure up_closes s h o = absurd o
next-measure loop_takes s h o = ground arith
next-measure loop_declines s h o = ground arith
next-measure loop_sends s h o = ground arith
next-measure up_answers s h o = ground arith
next-measure loop_replies s h o = ground arith
next-measure loop_ends s h o = ground arith
next-measure up_loop_sends s h o = ground arith
next-measure up_loop_fails s h o = ground arith
next-measure up_loop_ends s h o = ground arith
next-measure out_copies s h o = ground arith
next-measure out_ends s h o = ground arith
next-measure out_breaks s h o = ground arith
next-measure err_copies s h o = ground arith
next-measure err_ends s h o = ground arith
next-measure err_breaks s h o = ground arith
next-measure in_ends s h o = ground arith
next-measure in_err_ends s h o = ground arith
next-measure main_sees_close s h o = ground arith
next-measure main_drained s h o = ground arith
next-measure main_locks s h o = ground arith
next-measure main_closes_client s h o = ground arith
next-measure main_closes_up s h o = ground arith
next-measure main_unlocks s h o = ground arith
next-measure main_returns s h o = ground arith
