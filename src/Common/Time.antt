-- ===== src/Common/Time.antt =====
-- A reading of `time.time()` is a natural number of microseconds.
use Prim.Native.Nat.{ℕ, ◌*◌}

abbrev pub seconds : ℕ → ℕ
seconds n = n * 1_000_000
