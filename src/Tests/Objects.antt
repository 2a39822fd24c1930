-- ===== src/Tests/Objects.antt =====
-- A load balancer that is the set of its ids, a health checker, groups and forwarders.
use apigw.Common.{String, ◌==◌, if◌then◌else◌, Bool, true, false, List, [], ◌∷◌, none, some, refl}
use apigw.Common.Int.{pos}
use apigw.Lb.{
  Backend, endpoint, group, backend_id, BackendInfo, Balancer, BalancerLaws, HealthCheck, Balancers,
}
use apigw.Lb.Group.{GroupBackend}
use apigw.Lb.Heap.{Heap}

abbrev pub Ids : Type 0
Ids = String → Bool

abbrev pub lb : Balancer (Unit {0}) Ids
lb = record {
  add_endpoint = λ e l j. if backend_id e == j then true else l j;
  del_endpoint_by_id = λ k l j. if k == j then false else l j;
  has_endpoint = λ j l. l j;
}

pub laws : BalancerLaws lb
laws = record { has-add = λ e j l. refl; has-del = λ k j l. refl }

abbrev pub Checks : Type 0
Checks = List (Backend (Unit {0}) × Bool)

-- A checker that finds every endpoint ill until it is told otherwise.
abbrev pub hc : HealthCheck (Unit {0}) (Unit {0}) (Unit {0}) Checks
hc = record {
  new = [];
  add_endpoint = λ e k d h. (e, false) ∷ h;
  del_endpoint_by_id = λ id h. h;
  is_healthy = λ id h. false;
  get_endpoints = λ h. h;
  stop = λ h. [];
}

abbrev pub Info : Type 0
Info = BackendInfo (Unit {0}) (Unit {0}) (Unit {0})

abbrev pub node : String → Backend (Unit {0})
node id = endpoint id tt

abbrev pub plain : String → Info
plain id = record { online = true; backend = node id; checker = none; duration = tt }

abbrev pub checked : String → Info
checked id = record { online = false; backend = node id; checker = some tt; duration = tt }

abbrev pub nobody : Balancers Ids
nobody u j = false

abbrev pub Group : Type 0
Group = GroupBackend (Unit {0}) (Unit {0}) (Unit {0}) Checks

abbrev pub fresh : Group
fresh = record { checker = []; name = "g"; backends = some []; updaters = some [] }

abbrev pub pair : Group
pair = record {
  checker = [];
  name = "g";
  backends = some (("a", plain "a") ∷ []);
  updaters = some (("f", 1) ∷ []);
}

abbrev pub Objects : Type 0
Objects = Heap (Unit {0}) (Unit {0}) (Unit {0}) Checks Ids

-- Every forwarder has one checked backend, and has joined every group.
abbrev pub heap : Objects
heap = record {
  groups = λ g. pair;
  next_group = 3;
  forwarders = λ f. record {
    name = "f";
    backends = some (
        ("c", checked "c")
        ∷ ("g", record { online = true; backend = group "g" 2; checker = none; duration = tt })
        ∷ []);
    timeout = pos 0;
    checker = (node "c", true) ∷ [];
  };
  balancers = nobody;
}
