-- ===== src/Lb/Builder.antt =====
-- forward/lb/backend/builder.go: builders of backends, registered under their types. The map is a
-- package variable; `B` is the type of backends and `C` that of the values of `interface{}`.
use Prim.Native.String
use apigw.Common.{String, List, Option}
use apigw.Dict.{Dict, lookup, delete, values}
use apigw.Types.{Outcome, Result}
use apigw.Route.{Matcher}
use apigw.Registry.{register}

pub record BuilderContext (C : Type 0) : Type 0 where
  pub meta_data : Dict C
  pub matcher : Matcher

pub record Builder (C B : Type 0) : Type 0 where
  pub new : BuilderContext C → Result B
  pub typ : String

module _ {C B : Type 0} where
  unfoldable pub new_builder : String → (BuilderContext C → Result B) → Builder C B
  new_builder typ new = record { new = new; typ = typ }

  -- The methods of the interface `Builder`.
  unfoldable pub builder_type : Builder C B → String
  builder_type b = b.typ

  unfoldable pub build_backend : Builder C B → BuilderContext C → Result B
  build_backend b c = b.new c

  unfoldable pub register_builder : Builder C B → Dict (Builder C B) → Outcome (Dict (Builder C B))
  unfolding register
  register_builder =
      register (λ b. b.typ)
        λ typ. String.◌++◌ "the backend builder typed '" (String.◌++◌ typ "' has been registered")

  unfoldable pub unregister_builder : String → Dict (Builder C B) → Dict (Builder C B)
  unregister_builder = delete

  unfoldable pub get_builder : String → Dict (Builder C B) → Option (Builder C B)
  get_builder = lookup

  unfoldable pub get_builders : Dict (Builder C B) → List (Builder C B)
  get_builders = values
