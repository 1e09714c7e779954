-- ===== src/Session/Sweeper.antt =====
-- internal/session/sweeper.go: the loop that prunes expired rows, as a run over its ticks.
use forge_proxy.Base.{
  ℕ, ◌≤◌, Bool, List, [], ◌∷◌, ◌≡◌, refl, sym, ◌∙◌, Option, none, some, All, if◌then◌else◌, ltb,
  ◌⊎◌, inl, inr,
}
use forge_proxy.Clock.{unix}
use mathlib.Core.Option.{some-injective}
use forge_proxy.Db.{TxFaults, with_write_tx-some}
use forge_proxy.Session.Lookup.{sweep-fresh}
use forge_proxy.Session.{Table, Error, sweep, delete_body, is_stale}

abbrev pub default_sweep_interval : ℕ
default_sweep_interval = 3_600_000_000_000

-- The time between ticks: one that is not positive is replaced.
unfoldable pub sweep_interval : ℕ → ℕ
sweep_interval interval = if ltb 0 interval then interval else default_sweep_interval

pub record Sweeper : Type 0 where
  pub last_successful_sweep_at : Option ℕ
  pub table : Table

noted : ℕ → Sweeper → Option Error × Table → Sweeper
noted now s (none, t) = record { last_successful_sweep_at = some now; table = t }
noted now s (some e, t) = record s { table = t }

-- `tick`: a failed sweep keeps the time of the last success. The table is what the other writers
-- have made of it.
unfoldable pub tick : TxFaults → Bool → ℕ → Sweeper → Sweeper
unfolding noted sweep
tick f fails now s = noted now s (sweep f fails now s.table)

-- What a tick of `Run` meets: its clock, its failures, and the table.
pub record Tick : Type 0 where
  pub now : ℕ
  pub tx : TxFaults
  pub fails : Bool
  pub before : Table

-- `Run`: a first sweep at once, and one for each tick until the context is cancelled.
unfoldable pub run : List Tick → Sweeper → Sweeper
unfolding tick
run [] s = s
run (k ∷ ks) s = run ks (tick k.tx k.fails k.now (record s { table = k.before }))

noted-cases :
    (now : ℕ) (s : Sweeper) (f : TxFaults) (fails : Bool) (r : Option Error × Table)
    → sweep f fails now s.table ≡ r
    → (((noted now s r).last_successful_sweep_at ≡ some now)
        × All (λ q. unix now ≤ q.expires_at) (noted now s r).table)
      ⊎ (noted now s r ≡ s)
unfolding noted
noted-cases now s f fails (none, t) h = inl (refl, sweep-fresh f fails now s.table t h)
noted-cases now s f fails (some e, t) h =
    let same : t ≡ s.table =
      (unfold sweep in
        with_write_tx-some f Error.failed (delete_body fails (is_stale now)) s.table t e h) in
    inr (rw same)

-- A tick either notes its time, and then no row is left that expired before that second, or it
-- failed, and then both the table and the time of the last success are as they were.
pub tick_cases :
    (f : TxFaults) (fails : Bool) (now : ℕ) (s : Sweeper)
    → (((tick f fails now s).last_successful_sweep_at ≡ some now)
        × All (λ q. unix now ≤ q.expires_at) (tick f fails now s).table)
      ⊎ (tick f fails now s ≡ s)
unfolding tick
tick_cases f fails now s = noted-cases now s f fails (sweep f fails now s.table) refl

-- Some tick of the run stands at this time.
abbrev pub Ticked : ℕ → List Tick → Type 0
Ticked at [] = ⊥
Ticked at (k ∷ ks) = (k.now ≡ at) ⊎ Ticked at ks

-- The time of the last success after a run is that of a tick of the run, or the one of before.
pub run-last_success :
    (ks : List Tick) (s : Sweeper) (at : ℕ)
    → (run ks s).last_successful_sweep_at ≡ some at
    → (s.last_successful_sweep_at ≡ some at) ⊎ Ticked at ks
unfolding run
run-last_success [] s at h = inl h
run-last_success (k ∷ ks) s at h =
    elim (run-last_success ks (tick k.tx k.fails k.now (record s { table = k.before })) at h) [
      | inr later ↦ inr (inr later)
      | inl here ↦ elim (tick_cases k.tx k.fails k.now (record s { table = k.before })) [
        | inl (noted_now, _) ↦ inr (inl (some-injective _ _ (sym noted_now ∙ here)))
        | inr same ↦ inl (rw same at here)
      ]
    ]
