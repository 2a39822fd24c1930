-- ===== src/Qps/Draining.antt =====
-- The requests of a QPS backend can always leave, and then it takes requests again.
use apigw.Common.{true, ℕ, zero, suc, ◌+◌, ◌≡◌, refl, arith, subst}
use apigw.Common.Int.{ℤ}
use apigw.Qps.{enter, leave}
use apigw.Qps.Threads.{Threads, returns, turns_back, Reach, next, start, Reach-bounded}

-- A run of `n` steps by which requests leave.
pub data Leaving : Threads → ℕ → Threads → Type 0 where
  stays : {t : Threads} → Leaving t zero t
  returns_one :
      {t u : Threads} {n : ℕ} (k : ℕ)
      → t.forwarding ≡ suc k
      → Leaving (record t { backend = leave t.backend; forwarding = k }) n u
      → Leaving t (suc n) u
  turns_one_back :
      {t u : Threads} {n : ℕ} (k : ℕ)
      → t.refused ≡ suc k
      → Leaving (record t { backend = leave t.backend; refused = k }) n u
      → Leaving t (suc n) u

Leaving-Reach : {s t : Threads} {n : ℕ} {u : Threads} → Leaving t n u → Reach s t → Reach s u
Leaving-Reach stays r = r
Leaving-Reach (returns_one k e l) r = Leaving-Reach l (next r (returns k e))
Leaving-Reach (turns_one_back k e l) r = Leaving-Reach l (next r (turns_back k e))

Leaving-length :
    {t : Threads} {n : ℕ} {u : Threads}
    → Leaving t n u
    → u.forwarding + u.refused + n ≡ t.forwarding + t.refused
Leaving-length stays = omega arith
Leaving-length (returns_one k e l) = let h = Leaving-length l in omega arith
Leaving-length (turns_one_back k e l) = let h = Leaving-length l in omega arith

turn_back_all :
    (r : ℕ) (t : Threads)
    → t.refused ≡ r
    → (u : Threads) × Leaving t r u × (u.forwarding ≡ t.forwarding) × (u.refused ≡ 0)
turn_back_all zero t e = (t, stays, refl, e)
turn_back_all (suc r) t e =
    let (u, l, f, z) = turn_back_all r (record t { backend = leave t.backend; refused = r }) refl in
    (u, turns_one_back r e l, f, z)

leave_all :
    (f r : ℕ) (t : Threads)
    → t.forwarding ≡ f
    → t.refused ≡ r
    → (u : Threads) × Leaving t (f + r) u × (u.forwarding ≡ 0) × (u.refused ≡ 0)
leave_all zero r t e g =
    let (u, l, f, z) = turn_back_all r t g in
    (u, subst (λ k. Leaving t k u) (omega arith) l, omega arith, z)
leave_all (suc f) r t e g =
    let (u, l, a, z) =
      leave_all f r (record t { backend = leave t.backend; forwarding = f }) refl g in
    (u, subst (λ k. Leaving t k u) (omega arith) (returns_one f e l), a, z)

-- From every state that requests can reach, the requests in progress can all leave, in as many
-- steps as the counter says; no run of requests that leave is longer. Then the counter is 0 and the
-- next request is forwarded, whatever the limit.
pub Reach-drains :
    (n : ℤ) {t : Threads}
    → Reach (start n) t
    → ((k : ℕ) (u : Threads) → Leaving t k u → u.backend.cur_qps + k ≡ t.backend.cur_qps)
      × ((u : Threads) × Leaving t t.backend.cur_qps u
          × (u.backend.cur_qps ≡ 0)
          × ((enter u.backend).1 ≡ true))
unfolding enter
Reach-drains n {t} r =
    let counted = (Reach-bounded n r).1 in
    let (u, l, f, z) = leave_all t.forwarding t.refused t refl refl in
    let empty : u.backend.cur_qps ≡ 0 = omega (arith, (Reach-bounded n (Leaving-Reach l r)).1) in
    (
      λ k u l. omega (arith, (Reach-bounded n (Leaving-Reach l r)).1, Leaving-length l),
      (u, subst (λ k. Leaving t k u) (omega arith) l, empty, ground arith),
    )
