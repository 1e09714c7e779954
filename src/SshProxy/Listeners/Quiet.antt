-- ===== src/SshProxy/Listeners/Quiet.antt =====
-- What a shutdown keeps that begins when `Run` has bound its ports.
use forge_proxy.Base.{
  ℕ, suc, Bool, true, false, ◌&&◌, ◌==◌, List, [], ◌∷◌, Option, none, some, ◌≡◌, ◌≢◌, refl, sym, ap,
  ◌∙◌, subst, arith,
}
use forge_proxy.SshProxy.Listeners.{
  Run, binding, bound, listed, waiting, returned, failed, Shutdown, unasked, closing, awaits,
  in_time, too_late, State, Move, listens, listen_fails, appends, spawns, done_binding,
  run_cancelled, cancels, begins_shutdown, closes_next, group_done, gives_up, accepts, loop_ends,
  loop_breaks, conn_ends, is_in, without, after_listen, after_failure, after_append, after_spawn,
  after_binding, after_waiting, after_asking, after_closing, is_done, after_awaiting, step, steps,
}
use forge_proxy.SshProxy.Listeners.Covered.{Covered, Each, if-Each, step-Covered}

-- `Run` has no port left to bind and none under way.
abbrev pub IsSettled : Run → Type 0
IsSettled (binding []) = Unit
IsSettled (binding (p ∷ ps)) = ⊥
IsSettled (bound p ps) = ⊥
IsSettled (listed p ps) = ⊥
IsSettled waiting = Unit
IsSettled returned = Unit
IsSettled (failed p) = Unit

abbrev pub Begun : Shutdown → Type 0
Begun unasked = ⊥
Begun _ = Unit

-- What holds from the beginning of the shutdown on, when `Run` is settled then.
pub record Quiet (s : State) : Type 0 where
  pub settled : IsSettled s.run
  pub begun : Begun s.shutdown
  pub unlisted : s.listeners ≡ []
  pub done : s.shutdown ≡ in_time → (s.loops ≡ []) × (s.conns ≡ 0)

binding-Quiet : (r : Run) (s : State) → s.run ≡ r → Quiet s → Each Quiet (after_binding r s)
unfolding after_binding
binding-Quiet (binding []) s e q = record {
  settled = tt;
  begun = q.begun;
  unlisted = q.unlisted;
  done = q.done;
}
binding-Quiet (binding (p ∷ ps)) s e q = tt
binding-Quiet (bound p ps) s e q = tt
binding-Quiet (listed p ps) s e q = tt
binding-Quiet waiting s e q = tt
binding-Quiet returned s e q = tt
binding-Quiet (failed p) s e q = tt

waiting-Quiet : (r : Run) (s : State) → Quiet s → Each Quiet (after_waiting r s)
unfolding after_waiting
waiting-Quiet waiting s q =
    if-Each Quiet s.is_cancelled (record s { run = returned })
      (λ e. record { settled = tt; begun = q.begun; unlisted = q.unlisted; done = q.done })
waiting-Quiet (binding ps) s q = tt
waiting-Quiet (bound p ps) s q = tt
waiting-Quiet (listed p ps) s q = tt
waiting-Quiet returned s q = tt
waiting-Quiet (failed p) s q = tt

-- The moves of `Run` that bind a port cannot be made.
none_left :
    (f : Run → State → Option State) (s : State)
    → ((r : Run) → IsSettled r → f r s ≡ none)
    → Quiet s
    → Each Quiet (f s.run s)
none_left f s h q = subst (Each Quiet) (sym (h s.run q.settled)) tt

listen-none : (r : Run) (s : State) → IsSettled r → after_listen r s ≡ none
unfolding after_listen
listen-none (binding []) s h = refl
listen-none (binding (p ∷ ps)) s h = absurd h
listen-none (bound p ps) s h = refl
listen-none (listed p ps) s h = refl
listen-none waiting s h = refl
listen-none returned s h = refl
listen-none (failed p) s h = refl

failure-none : (r : Run) (s : State) → IsSettled r → after_failure r s ≡ none
unfolding after_failure
failure-none (binding []) s h = refl
failure-none (binding (p ∷ ps)) s h = absurd h
failure-none (bound p ps) s h = refl
failure-none (listed p ps) s h = refl
failure-none waiting s h = refl
failure-none returned s h = refl
failure-none (failed p) s h = refl

append-none : (r : Run) (s : State) → IsSettled r → after_append r s ≡ none
unfolding after_append
append-none (binding ps) s h = refl
append-none (bound p ps) s h = absurd h
append-none (listed p ps) s h = refl
append-none waiting s h = refl
append-none returned s h = refl
append-none (failed p) s h = refl

spawn-none : (r : Run) (s : State) → IsSettled r → after_spawn r s ≡ none
unfolding after_spawn
spawn-none (binding ps) s h = refl
spawn-none (bound p ps) s h = refl
spawn-none (listed p ps) s h = absurd h
spawn-none waiting s h = refl
spawn-none returned s h = refl
spawn-none (failed p) s h = refl

asking-Quiet : (d : Shutdown) (s : State) → s.shutdown ≡ d → Quiet s → Each Quiet (after_asking d s)
unfolding after_asking
asking-Quiet unasked s e q = absurd (subst Begun e q.begun)
asking-Quiet (closing ps) s e q = tt
asking-Quiet awaits s e q = tt
asking-Quiet in_time s e q = tt
asking-Quiet too_late s e q = tt

-- A shutdown that goes on, and has not ended in time.
goes_on :
    (s : State) (d : Shutdown) (open_still : List ℕ)
    → Begun d
    → d ≢ in_time
    → Quiet s
    → Quiet (record s { shutdown = d; sockets = open_still })
goes_on s d open_still b n q = record {
  settled = q.settled;
  begun = b;
  unlisted = q.unlisted;
  done = λ e. absurd (n e);
}

closing-Quiet : (d : Shutdown) (s : State) → Quiet s → Each Quiet (after_closing d s)
unfolding after_closing
closing-Quiet unasked s q = tt
closing-Quiet (closing []) s q = goes_on s awaits s.sockets tt (λ e. cc) q
closing-Quiet (closing (p ∷ ps)) s q = goes_on s (closing ps) (without p s.sockets) tt (λ e. cc) q
closing-Quiet awaits s q = tt
closing-Quiet in_time s q = tt
closing-Quiet too_late s q = tt

is_done-empty :
    (loops : List ℕ) (s : State)
    → s.loops ≡ loops
    → is_done s ≡ true
    → (s.loops ≡ []) × (s.conns ≡ 0)
unfolding is_done
is_done-empty [] s e h =
    (e, ground (arith, subst (λ l. (elim l [ [] ↦ s.conns == 0 | p ∷ ps ↦ false ]) ≡ true) e h))
is_done-empty (p ∷ ps) s e h =
    absurd (ground (arith, subst (λ l. (elim l [ [] ↦ s.conns == 0 | p ∷ ps ↦ false ]) ≡ true) e h))

awaiting-Quiet : (b : Bool) (d : Shutdown) (s : State) → Quiet s → Each Quiet (after_awaiting b d s)
unfolding after_awaiting
awaiting-Quiet true unasked s q = tt
awaiting-Quiet false unasked s q = tt
awaiting-Quiet true (closing ps) s q = tt
awaiting-Quiet false (closing ps) s q = tt
awaiting-Quiet true awaits s q =
    if-Each Quiet (is_done s) (record s { shutdown = in_time })
      (λ h. record {
        settled = q.settled;
        begun = tt;
        unlisted = q.unlisted;
        done = λ e. is_done-empty s.loops s refl h;
      })
awaiting-Quiet false awaits s q = goes_on s too_late s.sockets tt (λ e. cc) q
awaiting-Quiet true in_time s q = tt
awaiting-Quiet false in_time s q = tt
awaiting-Quiet true too_late s q = tt
awaiting-Quiet false too_late s q = tt

both : (a b : Bool) → (a && b) ≡ true → a ≡ true
both a b h = ground arith

-- A loop that is there excludes that the group is done.
busy :
    (s : State) (p : ℕ) (loops : List ℕ) (conns : ℕ)
    → Quiet s
    → is_in p s.loops ≡ true
    → Quiet (record s { loops = loops; conns = conns })
unfolding is_in
busy s p loops conns q h = record {
  settled = q.settled;
  begun = q.begun;
  unlisted = q.unlisted;
  done = λ e. absurd (true-false (sym h ∙ ap (is_in p) (q.done e).0));
}
  where
    true-false : true ≡ false → ⊥
    true-false e = cc

step-Quiet : (mv : Move) (s : State) → Quiet s → Each Quiet (step mv s)
unfolding step
step-Quiet listens s q = none_left after_listen s (λ r. listen-none r s) q
step-Quiet listen_fails s q = none_left after_failure s (λ r. failure-none r s) q
step-Quiet appends s q = none_left after_append s (λ r. append-none r s) q
step-Quiet spawns s q = none_left after_spawn s (λ r. spawn-none r s) q
step-Quiet done_binding s q = binding-Quiet s.run s refl q
step-Quiet run_cancelled s q = waiting-Quiet s.run s q
step-Quiet cancels s q = record {
  settled = q.settled;
  begun = q.begun;
  unlisted = q.unlisted;
  done = q.done;
}
step-Quiet begins_shutdown s q = asking-Quiet s.shutdown s refl q
step-Quiet closes_next s q = closing-Quiet s.shutdown s q
step-Quiet group_done s q = awaiting-Quiet true s.shutdown s q
step-Quiet gives_up s q = awaiting-Quiet false s.shutdown s q
step-Quiet (accepts p) s q = if-Each Quiet _ _ (λ h. busy s p s.loops (suc s.conns) q (both _ _ h))
step-Quiet (loop_ends p) s q =
    if-Each Quiet _ _ (λ h. busy s p (without p s.loops) s.conns q (both _ _ h))
step-Quiet (loop_breaks p) s q = if-Each Quiet _ _ (λ h. busy s p (without p s.loops) s.conns q h)
step-Quiet conn_ends s q = if-Each Quiet _ _ (λ h. record {
  settled = q.settled;
  begun = q.begun;
  unlisted = q.unlisted;
  done = λ e. ((q.done e).0, rw ((q.done e).1) refl);
})

abbrev pub Kept : State → Type 0
Kept s = Covered s × Quiet s

pub after-Kept :
    (o : Option State) (mvs : List Move)
    → ((t : State) → Kept t → Each Kept (steps mvs t))
    → Each Covered o
    → Each Quiet o
    → Each Kept (elim o [ none ↦ none | some t ↦ steps mvs t ])
after-Kept none mvs f c q = tt
after-Kept (some t) mvs f c q = f t (c, q)

pub steps-Kept : (mvs : List Move) (s : State) → Kept s → Each Kept (steps mvs s)
unfolding steps
steps-Kept [] s k = k
steps-Kept (mv ∷ mvs) s (c, q) =
    after-Kept (step mv s) mvs (λ t. steps-Kept mvs t) (step-Covered mv s c) (step-Quiet mv s q)
