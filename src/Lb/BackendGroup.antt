-- ===== src/Lb/BackendGroup.antt =====
-- forward/lb/backend.go: the interfaces `BackendUpdater` and `BackendGroup`, with what their comments
-- ask of a group. `G` is the type of groups, and the updaters act on the load balancers.
use apigw.Common.{
  String, ◌==◌, Bool, true, false, not, ◌&&◌, ◌||◌, ℕ, List, [], ◌∷◌, Option, none, some, ◌≡◌,
}
use apigw.Types.{Outcome, returns}
use apigw.Lb.{Backend, backend_id, BackendInfo, Balancer, Balancers}

pub record BackendUpdater (E L : Type 0) : Type 0 where
  pub name : String
  pub add_backend : Backend E → Balancers L → Balancers L
  pub del_backend_by_id : String → Balancers L → Balancers L

-- An updater is given by its name and its address.
pub record BackendGroup (E K D L G : Type 0) : Type 0 where
  pub name : G → String
  pub add_backend_with_checker :
      Backend E → Option K → D → G → Balancers L → Outcome (G × Balancers L)
  pub del_backend_by_id : String → G → Balancers L → G × Balancers L
  pub get_backends : G → List (BackendInfo E K D)
  pub get_updaters : G → List ℕ
  pub get_updater_by_name : String → G → Option ℕ
  pub del_updater_by_name : String → G → Balancers L → G × Balancers L
  pub add_updater : String → ℕ → G → Balancers L → Outcome (G × Balancers L)
  pub close : G → Balancers L → G × Balancers L

-- One of the backends has the id.
abbrev pub names : {E K D : Type 0} → String → List (BackendInfo E K D) → Bool
names j [] = false
names j (info ∷ infos) = (backend_id info.backend == j) || names j infos

module _ {E K D L G : Type 0} (lb : Balancer E L) (group : BackendGroup E K D L G) where
  -- What the comments of the interface promise, for the groups that are as their package makes
  -- them.
  pub record Contract : Type 1 where
    pub valid : G → Type 0
    pub add_again :
        (e : Backend E) (k : Option K) (d : D) (g : G) (s : Balancers L)
        → valid g
        → names (backend_id e) (group.get_backends g) ≡ true
        → group.add_backend_with_checker e k d g s ≡ returns (g, s)
    pub add_adds :
        (e : Backend E) (k : Option K) (d : D) (g g' : G) (s s' : Balancers L)
        → valid g
        → group.add_backend_with_checker e k d g s ≡ returns (g', s')
        → valid g'
          × ((j : String)
              → names j (group.get_backends g')
                ≡ ((backend_id e == j) || names j (group.get_backends g)))
    pub del_dels :
        (id : String) (g : G) (s : Balancers L)
        → valid g
        → let t = group.del_backend_by_id id g s in
          valid t.0
          × ((j : String)
              → names j (group.get_backends t.0)
                ≡ (not (id == j) && names j (group.get_backends g)))
    pub no_updater :
        (n : String) (g : G) (s : Balancers L)
        → group.get_updater_by_name n g ≡ none
        → group.del_updater_by_name n g s ≡ (g, s)
    pub del_updater :
        (n : String) (u : ℕ) (g : G) (s : Balancers L)
        → valid g
        → group.get_updater_by_name n g ≡ some u
        → let t = group.del_updater_by_name n g s in
          valid t.0
          × (group.get_updater_by_name n t.0 ≡ none)
          × ((j : String)
              → names j (group.get_backends g) ≡ true
              → lb.has_endpoint j (t.1 u) ≡ false)
    pub updater_again :
        (n : String) (u v : ℕ) (g : G) (s : Balancers L)
        → group.get_updater_by_name n g ≡ some v
        → group.add_updater n u g s ≡ returns (g, s)
    pub updater_added :
        (n : String) (u : ℕ) (g g' : G) (s s' : Balancers L)
        → valid g
        → group.get_updater_by_name n g ≡ none
        → group.add_updater n u g s ≡ returns (g', s')
        → valid g' × (group.get_updater_by_name n g' ≡ some u)

  -- A client: an updater that a group has taken and gives up again is unknown to it, and has none
  -- of its backends left.
  pub updater_leaves :
      (c : Contract) (n : String) (u : ℕ) (g g' : G) (s s' : Balancers L)
      → c.valid g
      → group.get_updater_by_name n g ≡ none
      → group.add_updater n u g s ≡ returns (g', s')
      → let t = group.del_updater_by_name n g' s' in
        (group.get_updater_by_name n t.0 ≡ none)
        × ((j : String)
            → names j (group.get_backends g') ≡ true
            → lb.has_endpoint j (t.1 u) ≡ false)
  updater_leaves c n u g g' s s' valid new joins =
      let (valid', known) = c.updater_added n u g g' s s' valid new joins in
      let (valid'', gone, left) = c.del_updater n u g' s' valid' known in (gone, left)
