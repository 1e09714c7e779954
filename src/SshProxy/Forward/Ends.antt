-- ===== src/SshProxy/Forward/Ends.antt =====
-- internal/sshproxy/forward.go: the end of a channel pair, over any order of its moves.
use forge_proxy.Base.{
  ℕ, zero, suc, ◌≤◌, true, List, [], ◌∷◌, length, ◌≡◌, ◌≢◌, ◌⊎◌, inl, inr, refl, arith,
}
use forge_proxy.SshProxy.Forward.Channel.{
  Main, await_close, drain_from, want_lock, closing_client, closing_up, unlocking, await_drain,
  returned, State, Move, can, next, Reach,
}
use forge_proxy.SshProxy.Forward.Invariant.{Inv, next-Inv, Reach-Inv}
use forge_proxy.SshProxy.Forward.Measure.{IsOwn, measure, next-measure}
use forge_proxy.SshProxy.Forward.Progress.{IsSure, sure-IsOwn, Moves, Inv-Moves}

is_returned : (m : Main) → (m ≡ returned) ⊎ (m ≢ returned)
is_returned await_close = inr (λ e. cc)
is_returned drain_from = inr (λ e. cc)
is_returned want_lock = inr (λ e. cc)
is_returned closing_client = inr (λ e. cc)
is_returned closing_up = inr (λ e. cc)
is_returned unlocking = inr (λ e. cc)
is_returned await_drain = inr (λ e. cc)
is_returned returned = inl refl

-- A sequence of own moves, in any order that can be scheduled.
abbrev pub AreOwn : List Move → State → Type 0
AreOwn [] s = Unit
AreOwn (mv ∷ mvs) s = IsOwn mv s × (can mv s ≡ true) × AreOwn mvs (next mv s)

unfoldable pub after : List Move → State → State
unfolding next
after [] s = s
after (mv ∷ mvs) s = after mvs (next mv s)

length-AreOwn : (mvs : List Move) (s : State) → AreOwn mvs s → length mvs ≤ measure s
length-AreOwn [] s h = omega arith
length-AreOwn (mv ∷ mvs) s (own, enabled, rest) =
    omega (arith, length-AreOwn mvs (next mv s) rest, next-measure mv s enabled own)

next-up_closed : (mv : Move) (s : State) → s.up_closed ≡ true → (next mv s).up_closed ≡ true
unfolding next
next-up_closed mv s c = ground arith

after-Inv :
    (mvs : List Move) (s : State)
    → Inv s
    → s.up_closed ≡ true
    → AreOwn mvs s
    → Inv (after mvs s) × ((after mvs s).up_closed ≡ true)
unfolding after
after-Inv [] s i c h = (i, c)
after-Inv (mv ∷ mvs) s i c (own, enabled, rest) =
    after-Inv mvs (next mv s) (next-Inv mv s i enabled) (next-up_closed mv s c) rest

abbrev Finishes : State → Type 0
Finishes s = (mvs : List Move) × AreOwn mvs s × ((after mvs s).main ≡ returned)

first-Finishes : (s : State) (m : Moves s) → Finishes (next m.0 s) → Finishes s
unfolding after
first-Finishes s (mv, sure, enabled) (mvs, rest, done) =
    (mv ∷ mvs, (sure-IsOwn mv s sure, enabled, rest), done)

finishes : (n : ℕ) (s : State) → measure s ≤ n → Inv s → s.up_closed ≡ true → Finishes s
finishes zero s few i c = elim (is_returned s.main) [
  | inl done ↦ ([], tt, (unfold after in done))
  | inr goes_on ↦
      let (mv, sure, enabled) = Inv-Moves s s.main refl i c goes_on in
      absurd (omega (arith, next-measure mv s enabled (sure-IsOwn mv s sure)))
]
finishes (suc n) s few i c = elim (is_returned s.main) [
  | inl done ↦ ([], tt, (unfold after in done))
  | inr goes_on ↦
      let (mv, sure, enabled) = Inv-Moves s s.main refl i c goes_on in
      first-Finishes s (mv, sure, enabled)
        (finishes n (next mv s) (omega (arith, next-measure mv s enabled (sure-IsOwn mv s sure)))
          (next-Inv mv s i enabled) (next-up_closed mv s c))
]

-- When the upstream has closed the channel, `proxyChannel` can return, from every state that the
-- pair can come to, with a client that does what is waited for.
pub Reach-Finishes :
    {s : State}
    → Reach s
    → s.up_closed ≡ true
    → (mvs : List Move) × AreOwn mvs s × ((after mvs s).main ≡ returned)
Reach-Finishes {s} r c = finishes (measure s) s (omega arith) (Reach-Inv r) c

-- When the upstream has closed the channel, `proxyChannel` returns in whatever order its goroutines
-- run, provided that what they wait for comes: a sequence of moves is never longer than the measure of
-- the state, and where it has not come to the return, another move is sure to come. The moves are
-- those of the goroutines and four of the two ends: a request that was sent to the upstream is
-- answered; the client makes room in its window where something is left to copy and there is none; it
-- answers a request that is sent to it; and its streams end once its side is closed. A client that
-- keeps the channel open and does none of this can hold up the return.
pub teardown_ends :
    {s : State}
    → Reach s
    → s.up_closed ≡ true
    → (mvs : List Move) → AreOwn mvs s
    → (length mvs ≤ measure s)
      × (((after mvs s).main ≡ returned)
          ⊎ ((mv : Move) × IsSure mv (after mvs s) × (can mv (after mvs s) ≡ true)))
teardown_ends {s} r c mvs own =
    let (i, closed) = after-Inv mvs s (Reach-Inv r) c own in
    let t = after mvs s in
    (
      length-AreOwn mvs s own,
      elim (is_returned t.main) [
        | inl done ↦ inl done
        | inr goes_on ↦ inr (Inv-Moves t t.main refl i closed goes_on)
      ],
    )
