-- ===== src/Gateway/Routes/Configs.antt =====
-- `RegisterRoute` builds the handler of a route from its plugins: who gets which configuration,
-- and who runs first.
use mathlib.Core.List.{reverse, reverse-cons}
use apigw.Common.{
  List, [], ◌∷◌, Option, none, some, ◌≡◌, refl, true, ◌∙◌, Bool-cases, inl, inr, subst,
}
use apigw.Types.{Handler, Middleware, Result, ok, err, wrap, wrap-append, no_plugin}
use apigw.Plugin.{Plugin, sort, less, insert_sorted}
use apigw.Plugin.Sorting.{IsSorted, sort_of_IsSorted}
use apigw.Route.{RoutePlugin}
use apigw.Ship.{Context}
use apigw.Gateway.{Gateway, handle_request}
use apigw.Gateway.Registry.{plugin}
use apigw.Gateway.Routes.{pick_plugins, build, build_handler}

module _ {W C : Type 0} where
  -- Each plugin makes the middleware at its place from the configuration at its place.
  abbrev pub Makes : List (Plugin W C) → List (RoutePlugin C) → List (Middleware W) → Type 0
  Makes [] [] [] = Unit
  Makes (p ∷ ps) (pc ∷ pcs) (m ∷ ms) = (p.newf pc.config ≡ ok m) × Makes ps pcs ms
  Makes _ _ _ = ⊥

  build-wrap :
      (ps : List (Plugin W C)) (pcs : List (RoutePlugin C)) (ms : List (Middleware W))
      (h : Handler W)
      → Makes ps pcs ms
      → build ps pcs h ≡ ok (wrap (reverse ms) h)
  unfolding build wrap
  build-wrap [] [] [] h made = refl
  build-wrap [] [] (m ∷ ms) h made = absurd made
  build-wrap [] (pc ∷ pcs) ms h made = absurd made
  build-wrap (p ∷ ps) [] ms h made = absurd made
  build-wrap (p ∷ ps) (pc ∷ pcs) [] h made = absurd made
  build-wrap (p ∷ ps) (pc ∷ pcs) (m ∷ ms) h made =
      rw (made.0, build)
        (build-wrap ps pcs ms (m h) made.1
          ∙ rw (reverse-cons m ms, wrap-append (reverse ms) (m ∷ [])))

  -- As many elements in the one list as in the other.
  abbrev Paired : List (Plugin W C) → List (RoutePlugin C) → Type 0
  Paired [] [] = Unit
  Paired (p ∷ ps) (pc ∷ pcs) = Paired ps pcs
  Paired _ _ = ⊥

  Paired-insert_sorted :
      (p : Plugin W C) (ps : List (Plugin W C)) (pcs : List (RoutePlugin C))
      → Paired (p ∷ ps) pcs
      → Paired (insert_sorted p ps) pcs
  unfolding insert_sorted
  Paired-insert_sorted p ps [] v = absurd v
  Paired-insert_sorted p [] (c ∷ cs) v = v
  Paired-insert_sorted p (q ∷ qs) (c ∷ []) v = absurd v
  Paired-insert_sorted p (q ∷ qs) (c ∷ d ∷ ds) v = elim (Bool-cases (less q p)) [
    | inl below ↦ rw below (Paired-insert_sorted p qs (d ∷ ds) v)
    | inr here ↦ rw here v
  ]

  Paired-sort :
      (ps : List (Plugin W C)) (pcs : List (RoutePlugin C)) → Paired ps pcs → Paired (sort ps) pcs
  unfolding sort
  Paired-sort [] pcs v = v
  Paired-sort (p ∷ ps) [] v = absurd v
  Paired-sort (p ∷ ps) (pc ∷ pcs) v =
      Paired-insert_sorted p (sort ps) (pc ∷ pcs) (Paired-sort ps pcs v)

  -- A handler that is built is the given one inside the middlewares that the plugins make.
  abbrev Made : List (Plugin W C) → List (RoutePlugin C) → Handler W → Handler W → Type 0
  Made ps pcs h k = (ms : List (Middleware W)) × Makes ps pcs ms × (k ≡ wrap (reverse ms) h)

  build-Made :
      (ps : List (Plugin W C)) (pcs : List (RoutePlugin C)) (h k : Handler W)
      → Paired ps pcs
      → build ps pcs h ≡ ok k
      → Made ps pcs h k
  unfolding build wrap
  build-Made [] [] h k v e = ([], tt, cc (e))
  build-Made [] (pc ∷ pcs) h k v e = absurd v
  build-Made (p ∷ ps) [] h k v e = absurd v
  build-Made (p ∷ ps) (pc ∷ pcs) h k v e =
      made (λ m. build-Made ps pcs (m h) k v) (p.newf pc.config) refl e
    where
      made :
          ((m : Middleware W) → build ps pcs (m h) ≡ ok k → Made ps pcs (m h) k)
          → (r : Result (Middleware W)) → p.newf pc.config ≡ r
          → (elim r [ err x ↦ err x | ok mw ↦ build ps pcs (mw h) ]) ≡ ok k
          → Made (p ∷ ps) (pc ∷ pcs) h k
      made rest (err x) its e = cc (e)
      made rest (ok m) its e =
          let (ms, all, same) = rest m e in
          (m ∷ ms, (its, all), same ∙ rw (reverse-cons m ms, wrap-append (reverse ms) (m ∷ [])))

  -- The plugins that a gateway has under the names of a route's entries.
  abbrev pub Named :
      {R : Type 0} → Gateway W C R → List (RoutePlugin C) → List (Plugin W C) → Type 0
  Named g [] [] = Unit
  Named g (pc ∷ pcs) (p ∷ ps) = (plugin pc.name g ≡ some p) × Named g pcs ps
  Named g _ _ = ⊥

  pick_plugins_of_Named :
      {R : Type 0} (g : Gateway W C R) (pcs : List (RoutePlugin C)) (ps : List (Plugin W C))
      → Named g pcs ps
      → pick_plugins g pcs ≡ ok ps
  unfolding pick_plugins
  pick_plugins_of_Named g [] [] n = refl
  pick_plugins_of_Named g [] (p ∷ ps) n = absurd n
  pick_plugins_of_Named g (pc ∷ pcs) [] n = absurd n
  pick_plugins_of_Named g (pc ∷ pcs) (p ∷ ps) n =
      rw (n.0, pick_plugins, pick_plugins_of_Named g pcs ps n.1)

  pick_plugins-Named :
      {R : Type 0} (g : Gateway W C R) (pcs : List (RoutePlugin C)) (ps : List (Plugin W C))
      → pick_plugins g pcs ≡ ok ps
      → Named g pcs ps × Paired ps pcs
  unfolding pick_plugins
  pick_plugins-Named g [] [] e = (tt, tt)
  pick_plugins-Named g [] (p ∷ ps) e = cc (e)
  pick_plugins-Named g (pc ∷ pcs) ps e =
      picked (pick_plugins-Named g pcs) (plugin pc.name g) (pick_plugins g pcs) refl refl e
    where
      picked :
          ((qs : List (Plugin W C)) → pick_plugins g pcs ≡ ok qs → Named g pcs qs × Paired qs pcs)
          → (o : Option (Plugin W C)) (r : Result (List (Plugin W C))) → plugin pc.name g ≡ o
          → pick_plugins g pcs ≡ r
          → (elim o [
            | none ↦ err (no_plugin pc.name)
            | some p ↦ elim r [ ok ps ↦ ok (p ∷ ps) | err e ↦ err e ]
          ])
            ≡ ok ps
          → Named g (pc ∷ pcs) ps × Paired ps (pc ∷ pcs)
      picked ih none r its rest e = cc (e)
      picked ih (some p) (err x) its rest e = cc (e)
      picked ih (some p) (ok qs) its rest e =
          let same : p ∷ qs ≡ ps = cc (e) in
          let (named, paired) = ih qs rest in
          subst (λ ps. Named g (pc ∷ pcs) ps × Paired ps (pc ∷ pcs)) same ((its, named), paired)

  -- What a handler that `RegisterRoute` builds consists of.
  pub build_handler-Made :
      {R : Type 0} (ctx : Context W C) (g : Gateway W C R) (pcs : List (RoutePlugin C))
      (h : Handler W)
      → build_handler ctx g pcs ≡ ok h
      → (ps : List (Plugin W C)) × (ms : List (Middleware W)) × Named g pcs ps
        × Makes (sort ps) pcs ms
        × (h ≡ wrap (reverse ms) (handle_request ctx))
  unfolding build_handler
  build_handler-Made ctx g pcs h e = picked (pick_plugins g pcs) refl e
    where
      picked :
          (r : Result (List (Plugin W C)))
          → pick_plugins g pcs ≡ r
          → (elim r [ err x ↦ err x | ok ps ↦ build (sort ps) pcs (handle_request ctx) ]) ≡ ok h
          → (ps : List (Plugin W C)) × (ms : List (Middleware W)) × Named g pcs ps
            × Makes (sort ps) pcs ms
            × (h ≡ wrap (reverse ms) (handle_request ctx))
      picked (err x) its e = cc (e)
      picked (ok ps) its e =
          let (named, paired) = pick_plugins-Named g pcs ps its in
          let (ms, made, same) =
            build-Made (sort ps) pcs (handle_request ctx) h (Paired-sort ps pcs paired) e in
          (ps, ms, named, made, same)

  -- The handler that is built of named plugins, in ascending priority.
  pub build_handler_of_Named :
      {R : Type 0} (ctx : Context W C) (g : Gateway W C R) (pcs : List (RoutePlugin C))
      (ps : List (Plugin W C)) (ms : List (Middleware W))
      → Named g pcs ps
      → Makes (sort ps) pcs ms
      → build_handler ctx g pcs ≡ ok (wrap (reverse ms) (handle_request ctx))
  unfolding build_handler
  build_handler_of_Named ctx g pcs ps ms named made =
      rw (pick_plugins_of_Named g pcs ps named, build_handler)
        (build-wrap (sort ps) pcs ms (handle_request ctx) made)

  -- If a route names its plugins in ascending priority, each of them makes its middleware from the
  -- configuration that stands beside its name, and the handler is the forwarding of the request
  -- inside all of them, the plugin with the highest priority outermost.
  pub build_handler_of_IsSorted :
      {R : Type 0} (ctx : Context W C) (g : Gateway W C R) (pcs : List (RoutePlugin C))
      (ps : List (Plugin W C)) (ms : List (Middleware W))
      → Named g pcs ps
      → IsSorted ps
      → Makes ps pcs ms
      → build_handler ctx g pcs ≡ ok (wrap (reverse ms) (handle_request ctx))
  build_handler_of_IsSorted ctx g pcs ps ms named sorted made =
      build_handler_of_Named ctx g pcs ps ms named (rw (sort_of_IsSorted ps sorted) made)

  -- The bug: of two plugins that a route names in descending priority, each is made with the
  -- configuration of the other.
  pub build_handler_swaps :
      {R : Type 0} (ctx : Context W C) (g : Gateway W C R) (a b : RoutePlugin C) (p q : Plugin W C)
      → Named g (a ∷ b ∷ []) (p ∷ q ∷ [])
      → less q p ≡ true
      → build_handler ctx g (a ∷ b ∷ []) ≡ build (q ∷ p ∷ []) (a ∷ b ∷ []) (handle_request ctx)
  unfolding build_handler sort
  build_handler_swaps ctx g a b p q named below =
      rw (pick_plugins_of_Named g (a ∷ b ∷ []) (p ∷ q ∷ []) named, build_handler, below)
