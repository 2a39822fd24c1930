-- ===== src/Qps/Threads.antt =====
-- Any number of requests that pass the same QPS backend at once, in every interleaving.
use apigw.Common.{Bool, true, false, if◌then◌else◌, ℕ, suc, ◌+◌, ◌≤◌, ◌<◌, ◌≡◌, refl, arith, ◌↔◌}
use apigw.Common.Int.{ℤ, pos, negsuc}
use apigw.Types.{Handler, fail, too_many_requests}
use apigw.Qps.{QpsBackend, new_qps_backend, enter, leave, round_trip}

-- The backend with the numbers of requests that are inside the next backend, and of those that are
-- refused and have not left yet.
pub record Threads : Type 0 where
  pub backend : QpsBackend
  pub forwarding : ℕ
  pub refused : ℕ

-- A request enters, and is either forwarded or refused; a forwarded one leaves; a refused one
-- leaves.
pub data Step (t : Threads) : Threads → Type 0 where
  enters : Step t (
      let (b, goes_on) = enter t.backend in
      record {
        backend = b;
        forwarding = if goes_on then suc t.forwarding else t.forwarding;
        refused = if goes_on then t.refused else suc t.refused;
      })
  returns :
      (n : ℕ)
      → t.forwarding ≡ suc n
      → Step t (record t { backend = leave t.backend; forwarding = n })
  turns_back :
      (n : ℕ) → t.refused ≡ suc n → Step t (record t { backend = leave t.backend; refused = n })

pub data Reach (t : Threads) : Threads → Type 0 where
  here : Reach t t
  next : {u v : Threads} → Reach t u → Step u v → Reach t v

abbrev pub start : ℤ → Threads
start n = record { backend = new_qps_backend n; forwarding = 0; refused = 0 }

-- The number of requests that `NewQPSBackend` takes for the limit; 0 is no limit.
abbrev pub limit : ℤ → ℕ
limit n = (new_qps_backend n).max_qps

-- The counter counts every request in progress, and those that are forwarded are within the limit.
pub record IsBounded (max : ℕ) (t : Threads) : Type 0 where
  pub fixed : t.backend.max_qps ≡ max
  pub counted : t.backend.cur_qps ≡ t.forwarding + t.refused
  pub limited : 0 < max → t.forwarding ≤ max

enters-IsBounded :
    (max : ℕ) (b : QpsBackend) (f r : ℕ) (goes_on : Bool)
    → (enter b).1 ≡ goes_on
    → IsBounded max (record { backend = b; forwarding = f; refused = r })
    → IsBounded max (record {
      backend = (enter b).0;
      forwarding = if goes_on then suc f else f;
      refused = if goes_on then r else suc r;
    })
unfolding enter
enters-IsBounded max b f r true e v = record {
  fixed = v.fixed;
  counted = let c = v.counted in omega arith;
  limited = λ h. let l = v.limited h in let c = v.counted in let m = v.fixed in ground arith;
}
enters-IsBounded max b f r false e v = record {
  fixed = v.fixed;
  counted = let c = v.counted in omega arith;
  limited = v.limited;
}

Step-IsBounded : {max : ℕ} {t u : Threads} → Step t u → IsBounded max t → IsBounded max u
unfolding leave
Step-IsBounded {max} {t} enters v =
    enters-IsBounded max t.backend t.forwarding t.refused (enter t.backend).1 refl v
Step-IsBounded {t} (returns n e) v = record {
  fixed = v.fixed;
  counted = let c = v.counted in omega arith;
  limited = λ h. let l = v.limited h in omega arith;
}
Step-IsBounded {t} (turns_back n e) v = record {
  fixed = v.fixed;
  counted = let c = v.counted in omega arith;
  limited = v.limited;
}

Reach-IsBounded : (n : ℤ) {t : Threads} → Reach (start n) t → IsBounded (limit n) t
unfolding new_qps_backend
Reach-IsBounded (pos n) here = record {
  fixed = refl;
  counted = omega arith;
  limited = λ h. omega arith;
}
Reach-IsBounded (negsuc n) here = record {
  fixed = refl;
  counted = omega arith;
  limited = λ h. omega arith;
}
Reach-IsBounded n (next r st) = Step-IsBounded st (Reach-IsBounded n r)

-- However requests interleave, with a limit no more than that number are forwarded at once, and the
-- counter is the number of the requests that are in progress.
pub Reach-bounded :
    (n : ℤ) {t : Threads}
    → Reach (start n) t
    → (0 < limit n → t.forwarding ≤ limit n) × (t.backend.cur_qps ≡ t.forwarding + t.refused)
Reach-bounded n r = let v = Reach-IsBounded n r in (v.limited, v.counted)

-- A request that enters is refused exactly if there is a limit and at least that many requests are
-- in progress, the refused ones that have not left yet among them.
pub enter-refuses_iff :
    (n : ℤ) {t : Threads}
    → Reach (start n) t
    → ((enter t.backend).1 ≡ false) ↔ ((0 < limit n) × (limit n ≤ t.forwarding + t.refused))
unfolding enter
enter-refuses_iff n r =
    let v = Reach-IsBounded n r in let m = v.fixed in let c = v.counted in ground arith

-- A call with no other request between its steps leaves the counter as it was, and either runs the
-- next backend or answers with the error for too many requests, by the test of `enter`.
pub round_trip_lem :
    {W : Type 0} (inner : Handler W) (b : QpsBackend) (w : W)
    → round_trip inner b w
      ≡ (if (enter b).1 then (b, (inner w).0, (inner w).1) else (b, w, fail too_many_requests))
unfolding round_trip enter
round_trip_lem inner b w = ground arith
