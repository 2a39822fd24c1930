-- ===== src/Qps.antt =====
-- forward/lb/backend/qps.go: a backend that refuses requests above a number of concurrent ones.
pub mod Threads
pub mod Draining
use apigw.Common.{
  Option, none, some, Bool, true, false, ◌&&◌, not, ltb, if◌then◌else◌, ℕ, zero, suc, ◌+◌, ◌-◌, ◌≤◌,
  ◌≡◌, ◌≢◌, arith,
}
use apigw.Common.Int.{ℤ, pos, negsuc}
use apigw.Dict.{Dict, insert}
use apigw.Types.{Outcome, returns, panic, Handler, Reply, fail, too_many_requests}

-- The two counters. `curQPS` is the number of requests in progress, which is not negative and stays
-- below 2 ^ 63.
pub record QpsBackend : Type 0 where
  pub max_qps : ℕ
  pub cur_qps : ℕ

-- A negative number is taken for 0.
unfoldable pub new_qps_backend : ℤ → QpsBackend
new_qps_backend (pos n) = record { max_qps = n; cur_qps = 0 }
new_qps_backend (negsuc n) = record { max_qps = 0; cur_qps = 0 }

-- `qps := atomic.AddInt64(&b.curQPS, 1)` and the test on `qps`: whether the request goes on.
unfoldable pub enter : QpsBackend → QpsBackend × Bool
enter b =
    let qps = b.cur_qps + 1 in
    (record b { cur_qps = qps }, not (ltb 0 b.max_qps && ltb b.max_qps qps))

-- The deferred `atomic.AddInt64(&b.curQPS, -1)`.
unfoldable pub leave : QpsBackend → QpsBackend
leave b = record b { cur_qps = b.cur_qps - 1 }

-- A whole call of `RoundTrip` with no other request between its steps.
unfoldable pub round_trip : {W : Type 0} → Handler W → QpsBackend → W → QpsBackend × W × Reply
unfolding enter leave
round_trip next b w =
    let (b', goes_on) = enter b in
    let (w', reply) = (if goes_on then next else λ w. (w, fail too_many_requests)) w in
    (leave b', w', reply)

-- `MetaData`, over that of the limited backend, whose values are `C`; a write into a nil map
-- panics.
unfoldable pub meta_data : {C : Type 0} → (ℕ → C) → Option (Dict C) → QpsBackend → Outcome (Dict C)
meta_data int none b = panic "assignment to entry in nil map"
meta_data int (some md) b = returns (insert "qps" (int b.max_qps) md)
