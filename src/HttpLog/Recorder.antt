-- ===== src/HttpLog/Recorder.antt =====
-- internal/httplog/middleware.go: `statusRecorder`, over a response writer of net/http.
use forge_proxy.Base.{
  ℕ, ◌+◌, ◌≤◌, Bool, true, false, not, ◌&&◌, List, [], ◌∷◌, ◌≡◌, ◌⊎◌, inr, refl, sym, subst, ap,
  ◌∙◌, Option, none, some, arith, ltb, ◌==◌, if◌then◌else◌,
}

-- The writer underneath: the status that is on its way to the client, how many bytes it took, and
-- what it can do.
pub record Writer : Type 0 where
  pub sent : Option ℕ
  pub taken : ℕ
  pub is_hijacked : Bool
  pub can_hijack : Bool
  pub can_flush : Bool
  pub flushes : ℕ

-- `WriteHeader` of net/http: the first final status counts; an informational one is sent at once.
unfoldable pub write_header_below : ℕ → Writer → Writer
write_header_below code w = elim w.sent [
  | none ↦ if ltb code 200 && not (code == 101) then w else record w { sent = some code }
  | some c ↦ w
]

abbrev pub implied : Option ℕ → Option ℕ
implied none = some 200
implied (some c) = some c

-- `Write` of net/http, of which `n` bytes were taken.
unfoldable pub write_below : ℕ → Writer → Writer
write_below n w = record w { sent = implied w.sent; taken = w.taken + n }

pub record Recorder : Type 0 where
  pub below : Writer
  pub status : ℕ
  pub bytes : ℕ

-- The recorder of `AccessLogMiddleware`.
unfoldable pub recorder : Writer → Recorder
recorder w = record { below = w; status = 200; bytes = 0 }

-- `WriteHeader`
unfoldable pub write_header : ℕ → Recorder → Recorder
unfolding write_header_below
write_header code s = record s { status = code; below = write_header_below code s.below }

-- `Write`
unfoldable pub write : ℕ → Recorder → Recorder
unfolding write_below
write n s = record s { below = write_below n s.below; bytes = s.bytes + n }

-- `Hijack`: an error where the writer underneath cannot.
unfoldable pub hijack : Recorder → Bool × Recorder
hijack s =
    if s.below.can_hijack
    then (true, record s { status = 101; below = record (s.below) { is_hijacked = true } })
    else (false, s)

-- `Flush`
unfoldable pub flush : Recorder → Recorder
flush s =
    if s.below.can_flush
    then (record s {
      below = record (s.below) { sent = implied s.below.sent; flushes = s.below.flushes + 1 };
    })
    else s

-- What a handler does to its writer.
pub data Call : Type 0 where
  header body : ℕ → Call
  hijacks flushes_all : Call

unfoldable pub call : Call → Recorder → Recorder
unfolding write_header write hijack flush
call (header code) s = write_header code s
call (body n) s = write n s
call hijacks s = (hijack s).1
call flushes_all s = flush s

unfoldable pub run : List Call → Recorder → Recorder
unfolding call
run [] s = s
run (c ∷ cs) s = run cs (call c s)

-- The calls on the writer underneath alone.
abbrev pub call_below : Call → Writer → Writer
call_below (header code) w = write_header_below code w
call_below (body n) w = write_below n w
call_below hijacks w = if w.can_hijack then record w { is_hijacked = true } else w
call_below flushes_all w =
    if w.can_flush then record w { sent = implied w.sent; flushes = w.flushes + 1 } else w

abbrev pub run_below : List Call → Writer → Writer
run_below [] w = w
run_below (c ∷ cs) w = run_below cs (call_below c w)

call-below : (c : Call) (s : Recorder) → (call c s).below ≡ call_below c s.below
unfolding call write_header write hijack flush
call-below (header code) s = refl
call-below (body n) s = refl
call-below hijacks s = ground arith
call-below flushes_all s = ground arith

run-below : (cs : List Call) (s : Recorder) → (run cs s).below ≡ run_below cs s.below
unfolding run
run-below [] s = refl
run-below (c ∷ cs) s = run-below cs (call c s) ∙ ap (run_below cs) (call-below c s)

-- A final status at most once, and before anything is written; nothing after a hijack.
abbrev pub IsOrderly : Bool → List Call → Type 0
IsOrderly fresh [] = Unit
IsOrderly true (header code ∷ cs) = (200 ≤ code) × IsOrderly false cs
IsOrderly false (header code ∷ cs) = ⊥
IsOrderly fresh (body n ∷ cs) = IsOrderly false cs
IsOrderly fresh (flushes_all ∷ cs) = IsOrderly false cs
IsOrderly fresh (hijacks ∷ cs) = cs ≡ []

-- What the log says is what the client gets.
abbrev pub IsTrue : Recorder → Type 0
IsTrue s =
    (s.bytes ≡ s.below.taken)
    × (((s.below.is_hijacked ≡ true) × (s.status ≡ 101))
        ⊎ ((s.below.is_hijacked ≡ false) × (implied s.below.sent ≡ some s.status)))

-- The state between two calls, of which the first has not sent a status.
record Inv (fresh : Bool) (s : Recorder) : Type 0 where
  unsent : (fresh ≡ false) ⊎ (s.below.sent ≡ none)
  counted : s.bytes ≡ s.below.taken
  open_still : s.below.is_hijacked ≡ false
  says : implied s.below.sent ≡ some s.status

header-Inv : (code : ℕ) (s : Recorder) → 200 ≤ code → Inv true s → Inv false (write_header code s)
unfolding write_header write_header_below
header-Inv code s h i = ground (arith, i)

body-Inv : (fresh : Bool) (n : ℕ) (s : Recorder) → Inv fresh s → Inv false (write n s)
unfolding write write_below
body-Inv fresh n s i = ground (arith, i)

flush-Inv : (fresh : Bool) (s : Recorder) → Inv fresh s → Inv false (flush s)
unfolding flush
flush-Inv fresh s i = ground (arith, i)

hijack-IsTrue : (fresh : Bool) (s : Recorder) → Inv fresh s → IsTrue (hijack s).1
unfolding hijack
hijack-IsTrue fresh s i = ground (arith, i)

run-IsTrue :
    (fresh : Bool) (cs : List Call) (s : Recorder)
    → IsOrderly fresh cs
    → Inv fresh s
    → IsTrue (run cs s)
unfolding run call
run-IsTrue fresh [] s o i = (i.counted, inr (i.open_still, i.says))
run-IsTrue true (header code ∷ cs) s (final, o) i =
    run-IsTrue false cs (write_header code s) o (header-Inv code s final i)
run-IsTrue false (header code ∷ cs) s o i = absurd o
run-IsTrue fresh (body n ∷ cs) s o i = run-IsTrue false cs (write n s) o (body-Inv fresh n s i)
run-IsTrue fresh (flushes_all ∷ cs) s o i = run-IsTrue false cs (flush s) o (flush-Inv fresh s i)
run-IsTrue fresh (hijacks ∷ cs) s o i =
    subst (λ x. IsTrue (run x (hijack s).1)) (sym o) (unfold run in hijack-IsTrue fresh s i)

-- The recorder does to the writer underneath what the handler does, hijacks and flushes included. For
-- a handler that sets its status at most once, to a final one and before it writes, and that does
-- nothing more after a hijack, the log gets the status that the client gets, or 101 for a hijacked
-- connection, and the number of bytes that were taken.
pub recorder_lem :
    (cs : List Call) (w : Writer)
    → w.sent ≡ none
    → w.taken ≡ 0
    → w.is_hijacked ≡ false
    → IsOrderly true cs
    → ((run cs (recorder w)).below ≡ run_below cs w) × IsTrue (run cs (recorder w))
unfolding recorder
recorder_lem cs w sent taken hijacked o = (
  run-below cs (recorder w),
  run-IsTrue true cs (recorder w) o (record {
    unsent = inr sent;
    counted = sym taken;
    open_still = hijacked;
    says = rw sent refl;
  }),
)
