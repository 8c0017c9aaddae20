-- ===== src/Cluster/Cadence.antt =====
-- src/cluster/fetcher.rs: the interval to the next fetch. A `Duration` is its nanoseconds.
use nifi_lens.Base.{ℕ, ◌-◌, ◌*◌, ◌^◌, ◌≤◌, ◌≡◌, min, max, ltb, if◌then◌else◌, arith}

-- `Duration::MAX`.
abbrev pub duration_max : ℕ
duration_max = 2 ^ 64 * 1000000000 - 1

-- `Ord::clamp` for `low ≤ high`.
abbrev pub clamp : ℕ → ℕ → ℕ → ℕ
clamp low high n = if ltb n low then low else if ltb high n then high else n

unfoldable pub adaptive_interval : ℕ → ℕ → ℕ → ℕ
adaptive_interval base last_dur max_interval =
    let effective_max = max base max_interval in
    let doubled = min (last_dur * 2) duration_max in clamp base effective_max doubled

-- The interval is never below the base and never above the limit, or the base if that is larger;
-- in between it is twice the last duration; and a longer fetch never shortens it.
pub adaptive_interval_bounds :
    (base last_dur longer max_interval : ℕ)
    → last_dur ≤ longer
    → max_interval ≤ duration_max
    → (base ≤ adaptive_interval base last_dur max_interval)
      × (adaptive_interval base last_dur max_interval ≤ max base max_interval)
      × (base ≤ last_dur * 2
          → last_dur * 2 ≤ max_interval
          → adaptive_interval base last_dur max_interval ≡ last_dur * 2)
      × (adaptive_interval base last_dur max_interval ≤ adaptive_interval base longer max_interval)
unfolding adaptive_interval
adaptive_interval_bounds base last_dur longer max_interval h fits =
    (ground arith, ground arith, λ low high. ground arith, ground arith)
