-- ===== src/SshProxy/Forward/Progress.antt =====
-- internal/sshproxy/forward.go: which move a channel pair can make once the upstream has closed.
use forge_proxy.Base.{
  ℕ, zero, suc, ltb, ◌==◌, Bool-cases, true, false, ◌≡◌, ◌≢◌, ◌⊎◌, inl, inr, refl, arith,
}
use forge_proxy.SshProxy.Forward.Channel.{
  Main, await_close, drain_from, want_lock, closing_client, closing_up, unlocking, await_drain,
  returned, Loop, idle, taken, sent, answered, over, free, State, Move, client_reads,
  client_answers, client_ends, loop_takes, loop_sends, up_answers, loop_replies, loop_ends,
  up_loop_sends, up_loop_ends, out_copies, out_breaks, out_ends, err_copies, err_breaks, err_ends,
  in_ends, in_err_ends, main_sees_close, main_drained, main_locks, main_closes_client,
  main_closes_up, main_unlocks, main_returns, holds, can,
}
use forge_proxy.SshProxy.Forward.Invariant.{Inv, owner}
use forge_proxy.SshProxy.Forward.Measure.{IsOwn}

-- A move that comes without a further cause. A copy from the client may break off once the upstream
-- has closed, when the client sends something more; it is sure to end at the end of the client's streams.
abbrev pub IsSure : Move → State → Type 0
IsSure in_ends s = s.client_ended ≡ true
IsSure in_err_ends s = s.client_ended ≡ true
IsSure mv s = IsOwn mv s

-- A move that is sure to come can be made.
abbrev pub Moves : State → Type 0
Moves s = (mv : Move) × IsSure mv s × (can mv s ≡ true)

pub sure-IsOwn : (mv : Move) (s : State) → IsSure mv s → IsOwn mv s
sure-IsOwn in_ends s h = tt
sure-IsOwn in_err_ends s h = tt
sure-IsOwn mv s h = h

zero_or_more : (n : ℕ) → ((n == 0) ≡ true) ⊎ (ltb 0 n ≡ true)
zero_or_more zero = inl refl
zero_or_more (suc n) = inr (ground arith)

-- The loop that holds the lock goes on.
holder-Moves : (s : State) (l : Loop) → s.loop ≡ l → holds l ≡ true → Moves s
unfolding can
holder-Moves s idle e h = absurd cc
holder-Moves s taken e h = (loop_sends, tt, ground arith)
holder-Moves s sent e h = (up_answers, tt, ground arith)
holder-Moves s answered e h = (loop_replies, tt, ground arith)
holder-Moves s over e h = absurd cc

idle-Moves : (s : State) → s.loop ≡ idle → s.lock ≡ free → s.client_ended ≡ true → Moves s
unfolding can
idle-Moves s e f c = elim (zero_or_more s.requests) [
  | inl none_left ↦ (loop_ends, tt, ground arith)
  | inr some_left ↦ (loop_takes, tt, ground arith)
]

loop-Moves :
    (s : State) (l : Loop)
    → s.loop ≡ l
    → s.lock ≡ owner (holds s.loop) false
    → s.client_ended ≡ true
    → (s.loop ≡ over) ⊎ Moves s
loop-Moves s over e o c = inl e
loop-Moves s idle e o c = inr (idle-Moves s e (ground arith) c)
loop-Moves s taken e o c = inr (holder-Moves s taken e refl)
loop-Moves s sent e o c = inr (holder-Moves s sent e refl)
loop-Moves s answered e o c = inr (holder-Moves s answered e refl)

up_loop-Moves : (s : State) → s.up_closed ≡ true → (s.up_loop_done ≡ true) ⊎ Moves s
unfolding can
up_loop-Moves s c = elim (Bool-cases s.up_loop_done) [
  | inl done ↦ inl done
  | inr runs ↦ inr (elim (Bool-cases s.up_asking) [
    | inl asks ↦ (client_answers, tt, asks)
    | inr quiet ↦ elim (zero_or_more s.up_requests) [
      | inl none_left ↦ (up_loop_ends, tt, ground arith)
      | inr some_left ↦ (up_loop_sends, tt, ground arith)
    ]
  ])
]

-- A copy goes on where the client has room, breaks off where it has left, and else waits for room.
out-Moves : (s : State) → s.up_closed ≡ true → (s.out_done ≡ true) ⊎ Moves s
unfolding can
out-Moves s c = elim (Bool-cases s.out_done) [
  | inl done ↦ inl done
  | inr runs ↦ inr (elim (Bool-cases s.client_left) [
    | inl left ↦ (out_breaks, tt, ground arith)
    | inr here ↦ elim (zero_or_more s.out_left) [
      | inl none_left ↦ (out_ends, tt, ground arith)
      | inr some_left ↦ elim (zero_or_more s.room) [
        | inl full ↦ (client_reads, (ground arith, ground arith), ground arith)
        | inr room ↦ (out_copies, tt, ground arith)
      ]
    ]
  ])
]

err-Moves : (s : State) → s.up_closed ≡ true → (s.err_done ≡ true) ⊎ Moves s
unfolding can
err-Moves s c = elim (Bool-cases s.err_done) [
  | inl done ↦ inl done
  | inr runs ↦ inr (elim (Bool-cases s.client_left) [
    | inl left ↦ (err_breaks, tt, ground arith)
    | inr here ↦ elim (zero_or_more s.err_left) [
      | inl none_left ↦ (err_ends, tt, ground arith)
      | inr some_left ↦ elim (zero_or_more s.room) [
        | inl full ↦ (client_reads, (ground arith, ground arith), ground arith)
        | inr room ↦ (err_copies, tt, ground arith)
      ]
    ]
  ])
]

in-Moves :
    (s : State) → s.client_ended ≡ true → ((s.in_done ≡ true) × (s.in_err_done ≡ true)) ⊎ Moves s
unfolding can
in-Moves s c = elim (Bool-cases s.in_done) [
  | inl done ↦ elim (Bool-cases s.in_err_done) [
    | inl also ↦ inl (done, also)
    | inr runs ↦ inr (in_err_ends, c, ground arith)
  ]
  | inr runs ↦ inr (in_ends, c, ground arith)
]

lock-Moves : (s : State) (l : Loop) → s.loop ≡ l → Inv s → s.main ≡ want_lock → Moves s
unfolding can
lock-Moves s l e i m = elim (Bool-cases (holds l)) [
  | inl held ↦ holder-Moves s l e held
  | inr lets ↦ (main_locks, tt, ground (arith, i))
]

drain-Moves : (s : State) → Inv s → s.main ≡ await_drain → Moves s
unfolding can
drain-Moves s i m = elim (Bool-cases s.client_ended) [
  | inr goes_on ↦ (client_ends, ground (arith, i), ground arith)
  | inl ended ↦ elim (loop-Moves s s.loop refl (ground (arith, i)) ended) [
    | inr mv ↦ mv
    | inl done ↦ elim (in-Moves s ended) [
      | inr mv ↦ mv
      | inl both ↦ (main_returns, tt, ground (arith, i, both))
    ]
  ]
]

-- Once the upstream has closed, some move can be made until the function returns.
pub Inv-Moves :
    (s : State) (m : Main) → s.main ≡ m → Inv s → s.up_closed ≡ true → m ≢ returned → Moves s
unfolding can
Inv-Moves s await_close e i c n = elim (up_loop-Moves s c) [
  | inl done ↦ (main_sees_close, tt, ground arith)
  | inr mv ↦ mv
]
Inv-Moves s drain_from e i c n = elim (out-Moves s c) [
  | inr mv ↦ mv
  | inl done ↦ elim (err-Moves s c) [ inl also ↦ (main_drained, tt, ground arith) | inr mv ↦ mv ]
]
Inv-Moves s want_lock e i c n = lock-Moves s s.loop refl i e
Inv-Moves s closing_client e i c n = (main_closes_client, tt, ground arith)
Inv-Moves s closing_up e i c n = (main_closes_up, tt, ground arith)
Inv-Moves s unlocking e i c n = (main_unlocks, tt, ground arith)
Inv-Moves s await_drain e i c n = drain-Moves s i e
Inv-Moves s returned e i c n = absurd (n refl)
