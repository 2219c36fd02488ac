-- ===== src/Metrics.antt =====
-- gate/src/metrics.rs: the counters. Every index that the gate uses is a constant below the number
-- of names, so a counter is a function of its index.
use xddp.Prelude.{ℕ, ◌+◌, ◌-◌, ◌%◌, ◌^◌, ◌==◌, if◌then◌else◌}

abbrev pub Metrics : Type 0
Metrics = ℕ → ℕ

-- The counters are u64, and wrap.
unfoldable pub add : Metrics → ℕ → ℕ → Metrics
add m n value i = if i == n then (m i + value) % 2 ^ 64 else m i

unfoldable pub inc : Metrics → ℕ → Metrics
unfolding add
inc m n = add m n 1

unfoldable pub dec : Metrics → ℕ → Metrics
dec m n i = if i == n then (m i + (2 ^ 64 - 1)) % 2 ^ 64 else m i

unfoldable pub get : Metrics → ℕ → ℕ
get m n = m n

unfoldable pub set : Metrics → ℕ → ℕ → Metrics
set m n value i = if i == n then value else m i
