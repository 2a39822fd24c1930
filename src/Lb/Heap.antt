-- ===== src/Lb/Heap.antt =====
-- forward/lb: the objects that the package shares by pointers, by their addresses.
use apigw.Common.{String, ℕ, if◌then◌else◌, nat_eq, Option}
use apigw.Common.Int.{ℤ}
use apigw.Dict.{Dict}
use apigw.Lb.{BackendInfo, Balancers}
use apigw.Lb.Group.{GroupBackend}

-- A `Forwarder`; its load balancer is the one of its address, and its `backends` are nil after
-- `Close`.
pub record Forwarder (E K D H : Type 0) : Type 0 where
  pub name : String
  pub backends : Option (Dict (BackendInfo E K D))
  pub timeout : ℤ
  pub checker : H

-- Every address below `next_group` is a group that has been made.
pub record Heap (E K D H L : Type 0) : Type 0 where
  pub groups : ℕ → GroupBackend E K D H
  pub next_group : ℕ
  pub forwarders : ℕ → Forwarder E K D H
  pub balancers : Balancers L

abbrev pub put {ℓ} : {A : Type ℓ} → ℕ → A → (ℕ → A) → ℕ → A
put r a f q = if nat_eq r q then a else f q
