-- ===== src/Route/Equality.antt =====
-- `Route.Equal` compares the matchers and the plugins, and nothing else.
use apigw.Common.{eq_iff, ◌≡◌, ◌↔◌, Bool, true, List, [], ◌∷◌, Option, arith, length, ap}
use apigw.Route.{Matcher, RoutePlugin, Route, matcher_eq, plugins_equal, route_equal}

matcher_eq_iff : (m n : Matcher) → (matcher_eq m n ≡ true) ↔ (m ≡ n)
unfolding matcher_eq
matcher_eq_iff m n =
    ground (arith, eq_iff m.host n.host, eq_iff m.path n.path, eq_iff m.method n.method)

module _ {C : Type 0} (deep_equal : Option C → Option C → Bool)
    (deep : (a b : Option C) → (deep_equal a b ≡ true) ↔ (a ≡ b)) where
  plugins_equal_iff :
      (ps qs : List (RoutePlugin C))
      → length ps ≡ length qs
      → (plugins_equal deep_equal ps qs ≡ true) ↔ (ps ≡ qs)
  unfolding plugins_equal
  plugins_equal_iff [] [] h = ground arith
  plugins_equal_iff [] (q ∷ qs) h = absurd (omega arith)
  plugins_equal_iff (p ∷ ps) [] h = absurd (omega arith)
  plugins_equal_iff (p ∷ ps) (q ∷ qs) h =
      ground
        (arith, eq_iff p.name q.name, deep p.config q.config, plugins_equal_iff ps qs (omega arith))

  -- Where `reflect.DeepEqual` decides the equality of configurations, `Equal` holds exactly of
  -- routes with the same host, path and method and the same plugins in the same order; the
  -- forwarders are not compared.
  pub route_equal_iff :
      {W : Type 0} (r other : Route W C)
      → (route_equal deep_equal r other ≡ true)
        ↔ ((r.matcher ≡ other.matcher) × (r.plugins ≡ other.plugins))
  unfolding route_equal
  route_equal_iff r other = ground (
    arith,
    matcher_eq_iff r.matcher other.matcher,
    plugins_equal_iff r.plugins other.plugins,
    ap {A = List (RoutePlugin C)} length,
  )
