-- ===== src/Tests/Limits.antt =====
-- The QPS backend.
use apigw.Common.{◌+◌, ◌≤◌, ◌<◌, ◌≡◌, ℕ, true}
use apigw.Common.Int.{pos}
use apigw.Qps.{new_qps_backend, enter}
use apigw.Qps.Draining.{Leaving, Reach-drains}
use apigw.Qps.Threads.{Threads, Reach, here, next, enters, start, limit, Reach-bounded}

-- Two requests have entered a backend with a limit of one.
abbrev crowded : Threads
crowded = record { backend = record { max_qps = 1; cur_qps = 2 }; forwarding = 1; refused = 1 }

crowded_is_reached : Reach (start (pos 1)) crowded
unfolding new_qps_backend enter
crowded_is_reached = next (next here enters) enters

Reach-bounded_example : (0 < limit (pos 1) → 1 ≤ limit (pos 1)) × (crowded.backend.cur_qps ≡ 1 + 1)
Reach-bounded_example = Reach-bounded (pos 1) crowded_is_reached

Reach-drains_example :
    ((k : ℕ) (u : Threads) → Leaving crowded k u → u.backend.cur_qps + k ≡ 2)
    × ((u : Threads) × Leaving crowded 2 u × (u.backend.cur_qps ≡ 0) × ((enter u.backend).1 ≡ true))
Reach-drains_example = Reach-drains (pos 1) crowded_is_reached
