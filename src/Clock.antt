-- ===== src/Clock.antt =====
-- Go's `time.Time` and `time.Duration`: nanoseconds, counted from the Unix epoch.
use forge_proxy.Base.{ℕ, ◌*◌, ◌/◌}

abbrev pub second : ℕ
second = 1_000_000_000

-- `t.Unix()`
abbrev pub unix : ℕ → ℕ
unix t = t / second

-- `time.Unix(sec, 0)`
abbrev pub from_unix : ℕ → ℕ
from_unix sec = sec * second
