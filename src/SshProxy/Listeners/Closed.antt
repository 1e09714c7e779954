-- ===== src/SshProxy/Listeners/Closed.antt =====
-- What `Shutdown` closes.
use forge_proxy.Base.{ℕ, ◌+◌, ◌≤◌, List, [], ◌∷◌, some, ◌≡◌, ◌≢◌, ◌⊎◌, inl, inr, refl, subst, arith}
use forge_proxy.SshProxy.Listeners.{
  Run, binding, bound, listed, waiting, returned, failed, Shutdown, unasked, closing, awaits,
  in_time, too_late, State, Move, begins_shutdown, after_asking, step, Reach, steps,
}
use forge_proxy.SshProxy.Listeners.Covered.{
  count, pending, to_close, Each, step-Covered, Reach-Covered,
}
use forge_proxy.SshProxy.Listeners.Quiet.{IsSettled, Quiet, Kept, steps-Kept, after-Kept}

-- `Shutdown` has closed what it took.
abbrev pub HasClosed : Shutdown → Type 0
HasClosed unasked = ⊥
HasClosed (closing ps) = ⊥
HasClosed awaits = Unit
HasClosed in_time = Unit
HasClosed too_late = Unit

none_counted : (l : List ℕ) → ((x : ℕ) → count x l ≤ 0) → l ≡ []
unfolding count
none_counted [] h = refl
none_counted (y ∷ ys) h = absurd (ground (arith, h y))

settled-pending : (r : Run) → IsSettled r → pending r ≡ []
unfolding pending
settled-pending (binding ps) h = refl
settled-pending (bound p ps) h = absurd h
settled-pending (listed p ps) h = refl
settled-pending waiting h = refl
settled-pending returned h = refl
settled-pending (failed p) h = refl

closed-to_close : (d : Shutdown) → HasClosed d → to_close d ≡ []
unfolding to_close
closed-to_close unasked h = refl
closed-to_close (closing ps) h = absurd h
closed-to_close awaits h = refl
closed-to_close in_time h = refl
closed-to_close too_late h = refl

Kept-closed : (s : State) → Kept s → HasClosed s.shutdown → s.sockets ≡ []
unfolding count
Kept-closed s (c, q) h = none_counted s.sockets (λ x. small x (c x))
  where
    small :
        (x : ℕ)
        → count x s.sockets
          ≤ count x (pending s.run) + count x s.listeners + count x (to_close s.shutdown)
        → count x s.sockets ≤ 0
    small x =
        rw (settled-pending s.run q.settled, q.unlisted, closed-to_close s.shutdown h) (λ l. l)

is_in_time : (d : Shutdown) → (d ≡ in_time) ⊎ (d ≢ in_time)
is_in_time unasked = inr (λ e. cc)
is_in_time (closing ps) = inr (λ e. cc)
is_in_time awaits = inr (λ e. cc)
is_in_time in_time = inl refl
is_in_time too_late = inr (λ e. cc)

Quiet-done : (s : State) → Quiet s → (s.shutdown ≢ in_time) ⊎ ((s.loops ≡ []) × (s.conns ≡ 0))
Quiet-done s q = elim (is_in_time s.shutdown) [ inl e ↦ inr (q.done e) | inr n ↦ inl n ]

asked-Quiet :
    (s : State) → IsSettled s.run → s.shutdown ≡ unasked → Each Quiet (after_asking s.shutdown s)
unfolding after_asking
asked-Quiet s settled e =
    rw e (record { settled = settled; begun = tt; unlisted = refl; done = λ q. cc })

-- The shutdown begins when `Run` has no port left to bind. When it has closed what it took, no socket of
-- the server is open, whatever the goroutines do in between and afterwards; and once it has returned in
-- time, no accept loop and no connection is left, and none comes any more.
pub steps-closed :
    {ports : List ℕ} (s t : State) (mvs : List Move)
    → Reach ports s
    → IsSettled s.run
    → s.shutdown ≡ unasked
    → steps (begins_shutdown ∷ mvs) s ≡ some t
    → HasClosed t.shutdown
    → (t.sockets ≡ []) × ((t.shutdown ≢ in_time) ⊎ ((t.loops ≡ []) × (t.conns ≡ 0)))
unfolding steps step
steps-closed s t mvs r settled e run closed =
    let kept : Kept t = subst (Each Kept) run (
      after-Kept (after_asking s.shutdown s) mvs (λ u. steps-Kept mvs u)
        (step-Covered begins_shutdown s (Reach-Covered r)) (asked-Quiet s settled e)) in
    (Kept-closed t kept closed, Quiet-done t kept.1)
