-- ===== src/SshProxy/Forward/Invariant.antt =====
-- What holds in every state that a channel pair can come to.
use forge_proxy.Base.{
  ℕ, ◌≤◌, Bool, true, false, ◌&&◌, ◌||◌, ◌≡◌, ◌⊎◌, inl, refl, sym, subst, arith, leb,
}
use forge_proxy.SshProxy.Forward.Channel.{
  Main, await_close, drain_from, want_lock, closing_client, closing_up, unlocking, await_drain,
  returned, over, Lock, free, loop_has, main_has, State, start, Move, client_sends, client_reads,
  client_answers, client_ends, client_leaves, up_writes, up_writes_err, up_sends, up_ends_output,
  up_closes, loop_takes, loop_declines, loop_sends, up_answers, loop_replies, loop_ends,
  up_loop_sends, up_loop_fails, up_loop_ends, out_copies, out_ends, out_breaks, err_copies,
  err_ends, err_breaks, in_ends, in_err_ends, main_sees_close, main_drained, main_locks,
  main_closes_client, main_closes_up, main_unlocks, main_returns, holds, can, next, Reach, begins,
  moves,
}

-- How far the function has come.
abbrev pub rank : Main → ℕ
rank await_close = 0
rank drain_from = 1
rank want_lock = 2
rank closing_client = 3
rank closing_up = 4
rank unlocking = 5
rank await_drain = 6
rank returned = 7

abbrev main_holds : Main → Bool
main_holds closing_client = true
main_holds closing_up = true
main_holds unlocking = true
main_holds _ = false

abbrev pub owner : Bool → Bool → Lock
owner true _ = loop_has
owner false true = main_has
owner false false = free

pub record Inv (s : State) : Type 0 where
  pub owned : s.lock ≡ owner (holds s.loop) (main_holds s.main)
  pub one_owner : (holds s.loop && main_holds s.main) ≡ false
  pub requests_first : (rank s.main ≡ 0) ⊎ (s.up_loop_done ≡ true)
  pub copies_first : (rank s.main ≤ 1) ⊎ ((s.out_done ≡ true) × (s.err_done ≡ true))
  pub closed_client : s.client_closed ≡ leb 4 (rank s.main)
  pub closed_up : s.up_chan_closed ≡ leb 5 (rank s.main)
  pub forwarded :
      (s.up_loop_done ≡ false)
      ⊎ ((s.up_requests ≡ 0) × (s.up_asking ≡ false) × (s.up_closed ≡ true))
  pub lost : (s.up_lost ≡ false) ⊎ (s.client_left ≡ true)
  pub out_copied :
      (s.out_done ≡ false)
      ⊎ ((s.client_left ≡ true) ⊎ ((s.out_left ≡ 0) × ((s.up_eof || s.up_closed) ≡ true)))
  pub err_copied :
      (s.err_done ≡ false)
      ⊎ ((s.client_left ≡ true) ⊎ ((s.err_left ≡ 0) × ((s.up_eof || s.up_closed) ≡ true)))
  pub all_over : (rank s.main ≤ 6) ⊎ ((s.loop ≡ over) × (s.in_done ≡ true) × (s.in_err_done ≡ true))

start-Inv : Inv start
start-Inv = record {
  owned = refl;
  one_owner = refl;
  requests_first = inl refl;
  copies_first = inl (omega arith);
  closed_client = refl;
  closed_up = refl;
  forwarded = inl refl;
  lost = inl refl;
  out_copied = inl refl;
  err_copied = inl refl;
  all_over = inl (omega arith);
}

pub next-Inv : (mv : Move) (s : State) → Inv s → can mv s ≡ true → Inv (next mv s)
unfolding next can
next-Inv client_sends s i h = ground arith
next-Inv client_ends s i h = ground arith
next-Inv client_reads s i h = ground arith
next-Inv client_answers s i h = ground arith
next-Inv client_leaves s i h = ground arith
next-Inv up_writes s i h = ground arith
next-Inv up_writes_err s i h = ground arith
next-Inv up_sends s i h = ground arith
next-Inv up_ends_output s i h = ground arith
next-Inv up_closes s i h = ground arith
next-Inv loop_takes s i h = ground arith
next-Inv loop_declines s i h = ground arith
next-Inv loop_sends s i h = ground arith
next-Inv up_answers s i h = ground arith
next-Inv loop_replies s i h = ground arith
next-Inv loop_ends s i h = ground arith
next-Inv up_loop_sends s i h = ground arith
next-Inv up_loop_fails s i h = ground arith
next-Inv up_loop_ends s i h = ground arith
next-Inv out_copies s i h = ground arith
next-Inv out_ends s i h = ground arith
next-Inv out_breaks s i h = ground arith
next-Inv err_copies s i h = ground arith
next-Inv err_ends s i h = ground arith
next-Inv err_breaks s i h = ground arith
next-Inv in_ends s i h = ground arith
next-Inv in_err_ends s i h = ground arith
next-Inv main_sees_close s i h = ground arith
next-Inv main_drained s i h = ground arith
next-Inv main_locks s i h = ground arith
next-Inv main_closes_client s i h = ground arith
next-Inv main_closes_up s i h = ground arith
next-Inv main_unlocks s i h = ground arith
next-Inv main_returns s i h = ground arith

pub Reach-Inv : {s : State} → Reach s → Inv s
Reach-Inv begins = start-Inv
Reach-Inv (moves {s} r mv enabled e) = subst Inv (sym e) (next-Inv mv s (Reach-Inv r) enabled)

-- The client has closed the channel itself or lost its connection, or else all was copied.
abbrev pub AllCopied : State → ℕ → Type 0
AllCopied s left = (s.client_left ≡ true) ⊎ (left ≡ 0)

-- The client's side is closed only when the upstream has closed and every request from it, its exit
-- status included, has been sent on and has returned, without a failure unless the client has closed
-- the channel itself or lost its connection; when all that the upstream has written to both of its
-- streams has been copied, under the same exception; and while no request of the client is between
-- being sent on and being replied to.
pub closed_in_order :
    {s : State}
    → Reach s
    → (s.client_closed ≡ true
        → (s.up_closed ≡ true)
          × (s.up_requests ≡ 0)
          × (s.up_asking ≡ false)
          × ((s.client_left ≡ true) ⊎ (s.up_lost ≡ false))
          × AllCopied s s.out_left
          × AllCopied s s.err_left)
      × (s.main ≡ closing_client → holds s.loop ≡ false)
closed_in_order {s} r =
    let i = Reach-Inv r in (λ closed. ground (arith, i), λ closing. ground (arith, i))
