-- ===== src/SshProxy/Listeners/Covered.antt =====
-- Which sockets are open.
use forge_proxy.Base.{
  ℕ, suc, ◌+◌, ◌-◌, ◌≤◌, Bool, true, false, ◌==◌, List, [], ◌∷◌, Option, none, some, ◌≡◌, inl, inr,
  refl, subst, arith, Bool-cases, if◌then◌else◌,
}
use forge_proxy.SshProxy.Listeners.{
  Run, binding, bound, listed, waiting, returned, failed, Shutdown, unasked, closing, awaits,
  in_time, too_late, State, start, Move, listens, listen_fails, appends, spawns, done_binding,
  run_cancelled, cancels, begins_shutdown, closes_next, group_done, gives_up, accepts, loop_ends,
  loop_breaks, conn_ends, without, after_listen, after_failure, after_append, after_spawn,
  after_binding, after_waiting, after_asking, after_closing, is_done, after_awaiting, step, Reach,
  begins, moves,
}

-- How often a number is in a list.
unfoldable pub count : ℕ → List ℕ → ℕ
count x [] = 0
count x (y ∷ ys) = let rest = count x ys in if y == x then suc rest else rest

unfoldable pub pending : Run → List ℕ
pending (bound p ps) = p ∷ []
pending _ = []

unfoldable pub to_close : Shutdown → List ℕ
to_close (closing ps) = ps
to_close _ = []

-- An open socket is one that `Run` has just bound, one in the list, or one that `Shutdown` has taken
-- out of the list to close it.
abbrev pub Covered : State → Type 0
Covered s =
    (x : ℕ)
    → count x s.sockets
      ≤ count x (pending s.run) + count x s.listeners + count x (to_close s.shutdown)

-- A property of the state that a step leads to, if it can be made.
abbrev pub Each : (State → Type 0) → Option State → Type 0
Each P none = Unit
Each P (some t) = P t

count-without :
    (x p : ℕ) (ys : List ℕ)
    → count x (without p ys) ≡ (if p == x then count x ys - 1 else count x ys)
unfolding count without
count-without x p [] = ground arith
count-without x p (y ∷ ys) = ground (arith, count-without x p ys)

Covered-run :
    (s : State) (r : Run)
    → s.run ≡ r
    → Covered s
    → (x : ℕ)
    → count x s.sockets ≤ count x (pending r) + count x s.listeners + count x (to_close s.shutdown)
Covered-run s r e h x =
    subst
      (λ a.
        count x s.sockets
        ≤ count x (pending a) + count x s.listeners + count x (to_close s.shutdown))
      e (h x)

Covered-shutdown :
    (s : State) (d : Shutdown)
    → s.shutdown ≡ d
    → Covered s
    → (x : ℕ)
    → count x s.sockets ≤ count x (pending s.run) + count x s.listeners + count x (to_close d)
Covered-shutdown s d e h x =
    subst
      (λ a.
        count x s.sockets ≤ count x (pending s.run) + count x s.listeners + count x (to_close a))
      e (h x)

listen-Covered : (r : Run) (s : State) → s.run ≡ r → Covered s → Each Covered (after_listen r s)
unfolding after_listen count pending
listen-Covered (binding []) s e h = tt
listen-Covered (binding (p ∷ ps)) s e h =
    λ x. ground (arith, Covered-run s (binding (p ∷ ps)) e h x)
listen-Covered (bound p ps) s e h = tt
listen-Covered (listed p ps) s e h = tt
listen-Covered waiting s e h = tt
listen-Covered returned s e h = tt
listen-Covered (failed p) s e h = tt

failure-Covered : (r : Run) (s : State) → s.run ≡ r → Covered s → Each Covered (after_failure r s)
unfolding after_failure pending
failure-Covered (binding []) s e h = tt
failure-Covered (binding (p ∷ ps)) s e h =
    let c = Covered-run s (binding (p ∷ ps)) e h in
    elim (Bool-cases s.closed) [ inl closed ↦ rw closed c | inr open_still ↦ rw open_still c ]
failure-Covered (bound p ps) s e h = tt
failure-Covered (listed p ps) s e h = tt
failure-Covered waiting s e h = tt
failure-Covered returned s e h = tt
failure-Covered (failed p) s e h = tt

append-Covered : (r : Run) (s : State) → s.run ≡ r → Covered s → Each Covered (after_append r s)
unfolding after_append count pending
append-Covered (binding ps) s e h = tt
append-Covered (bound p ps) s e h = λ x. ground (arith, Covered-run s (bound p ps) e h x)
append-Covered (listed p ps) s e h = tt
append-Covered waiting s e h = tt
append-Covered returned s e h = tt
append-Covered (failed p) s e h = tt

spawn-Covered : (r : Run) (s : State) → s.run ≡ r → Covered s → Each Covered (after_spawn r s)
unfolding after_spawn pending
spawn-Covered (binding ps) s e h = tt
spawn-Covered (bound p ps) s e h = tt
spawn-Covered (listed p ps) s e h = Covered-run s (listed p ps) e h
spawn-Covered waiting s e h = tt
spawn-Covered returned s e h = tt
spawn-Covered (failed p) s e h = tt

binding-Covered : (r : Run) (s : State) → s.run ≡ r → Covered s → Each Covered (after_binding r s)
unfolding after_binding pending
binding-Covered (binding []) s e h = Covered-run s (binding []) e h
binding-Covered (binding (p ∷ ps)) s e h = tt
binding-Covered (bound p ps) s e h = tt
binding-Covered (listed p ps) s e h = tt
binding-Covered waiting s e h = tt
binding-Covered returned s e h = tt
binding-Covered (failed p) s e h = tt

waiting-Covered : (r : Run) (s : State) → s.run ≡ r → Covered s → Each Covered (after_waiting r s)
unfolding after_waiting pending
waiting-Covered waiting s e h = elim (Bool-cases s.is_cancelled) [
  | inl stops ↦ rw stops (Covered-run s waiting e h)
  | inr goes_on ↦ rw goes_on tt
]
waiting-Covered (binding ps) s e h = tt
waiting-Covered (bound p ps) s e h = tt
waiting-Covered (listed p ps) s e h = tt
waiting-Covered returned s e h = tt
waiting-Covered (failed p) s e h = tt

asking-Covered :
    (d : Shutdown) (s : State) → s.shutdown ≡ d → Covered s → Each Covered (after_asking d s)
unfolding after_asking count to_close
asking-Covered unasked s e h = λ x. ground (arith, Covered-shutdown s unasked e h x)
asking-Covered (closing ps) s e h = tt
asking-Covered awaits s e h = tt
asking-Covered in_time s e h = tt
asking-Covered too_late s e h = tt

closing-Covered :
    (d : Shutdown) (s : State) → s.shutdown ≡ d → Covered s → Each Covered (after_closing d s)
unfolding after_closing count to_close
closing-Covered unasked s e h = tt
closing-Covered (closing []) s e h = λ x. Covered-shutdown s (closing []) e h x
closing-Covered (closing (p ∷ ps)) s e h =
    λ x. ground (arith, Covered-shutdown s (closing (p ∷ ps)) e h x, count-without x p s.sockets)
closing-Covered awaits s e h = tt
closing-Covered in_time s e h = tt
closing-Covered too_late s e h = tt

awaiting-Covered :
    (b : Bool) (d : Shutdown) (s : State)
    → s.shutdown ≡ d
    → Covered s
    → Each Covered (after_awaiting b d s)
unfolding after_awaiting to_close
awaiting-Covered true unasked s e h = tt
awaiting-Covered false unasked s e h = tt
awaiting-Covered true (closing ps) s e h = tt
awaiting-Covered false (closing ps) s e h = tt
awaiting-Covered true awaits s e h = elim (Bool-cases (is_done s)) [
  | inl done ↦ rw done (Covered-shutdown s awaits e h)
  | inr works ↦ rw works tt
]
awaiting-Covered false awaits s e h = Covered-shutdown s awaits e h
awaiting-Covered true in_time s e h = tt
awaiting-Covered false in_time s e h = tt
awaiting-Covered true too_late s e h = tt
awaiting-Covered false too_late s e h = tt

-- A step that is made under a test.
pub if-Each :
    (P : State → Type 0) (b : Bool) (t : State)
    → (b ≡ true → P t)
    → Each P (if b then some t else none)
if-Each P true t h = h refl
if-Each P false t h = tt

pub step-Covered : (mv : Move) (s : State) → Covered s → Each Covered (step mv s)
unfolding step
step-Covered listens s h = listen-Covered s.run s refl h
step-Covered listen_fails s h = failure-Covered s.run s refl h
step-Covered appends s h = append-Covered s.run s refl h
step-Covered spawns s h = spawn-Covered s.run s refl h
step-Covered done_binding s h = binding-Covered s.run s refl h
step-Covered run_cancelled s h = waiting-Covered s.run s refl h
step-Covered cancels s h = h
step-Covered begins_shutdown s h = asking-Covered s.shutdown s refl h
step-Covered closes_next s h = closing-Covered s.shutdown s refl h
step-Covered group_done s h = awaiting-Covered true s.shutdown s refl h
step-Covered gives_up s h = awaiting-Covered false s.shutdown s refl h
step-Covered (accepts p) s h = if-Each Covered _ _ (λ e. h)
step-Covered (loop_ends p) s h = if-Each Covered _ _ (λ e. h)
step-Covered (loop_breaks p) s h = if-Each Covered _ _ (λ e. h)
step-Covered conn_ends s h = if-Each Covered _ _ (λ e. h)

pub Reach-Covered : {ports : List ℕ} {s : State} → Reach ports s → Covered s
unfolding start count
Reach-Covered begins = λ x. omega arith
Reach-Covered (moves {s} r mv e) = subst (Each Covered) e (step-Covered mv s (Reach-Covered r))
