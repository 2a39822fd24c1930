-- ===== src/Types.antt =====
-- The types that gateway.go takes from the router library (handlers, middlewares) and errors.
use apigw.Common.{String, List, [], ◌∷◌, ◌++◌, ◌≡◌, refl}

-- The values of Go's `error` that the program makes or tells apart; `from_outside` carries any
-- other.
pub data Err : Type 0 where
  no_host no_route existed_route empty_path : Err
  nil_forwarder host_is_empty : Err
  request_entity_too_large too_many_requests : Err
  no_available_endpoints no_available_backends : Err
  no_plugin unknown_host existed_plugin no_selector : String → Err
  bad_gateway : Err → Err
  from_outside : String → Err

-- How a call ends: it returns nil, it returns an error, or it panics.
pub data Reply : Type 0 where
  done : Reply
  fail : Err → Reply
  panics : String → Reply

-- A call that returns a value unless it panics.
pub data Outcome {ℓ} (A : Type ℓ) : Type ℓ where
  returns : A → Outcome A
  panic : String → Outcome A

-- The call returns, and what it returns satisfies `P`.
abbrev pub ReturnsWith {ℓ} : {A : Type ℓ} → (A → Type 0) → Outcome A → Type 0
ReturnsWith P (returns a) = P a
ReturnsWith P (panic s) = ⊥

-- `(T, error)` where the value matters only if the error is nil.
pub data Result {ℓ} (A : Type ℓ) : Type ℓ where
  ok : A → Result A
  err : Err → Result A

infixl 5 ◌>>=◌
abbrev pub ◌>>=◌ {ℓ κ} : {A : Type ℓ} {B : Type κ} → Outcome A → (A → Outcome B) → Outcome B
returns a >>= f = f a
panic m >>= f = panic m

-- A handler acts on the request context and on all that it reaches, a state of type `W`.
abbrev pub Handler : Type 0 → Type 0
Handler W = W → W × Reply

abbrev pub Middleware : Type 0 → Type 0
Middleware W = Handler W → Handler W

-- `for i := len(mdws) - 1; i >= 0; i-- { handler = mdws[i](handler) }`
unfoldable pub wrap : {W : Type 0} → List (Middleware W) → Handler W → Handler W
wrap [] h = h
wrap (m ∷ ms) h = m (wrap ms h)

pub wrap-append :
    {W : Type 0} (ms ns : List (Middleware W)) (h : Handler W)
    → wrap (ms ++ ns) h ≡ wrap ms (wrap ns h)
unfolding wrap
wrap-append [] ns h = refl
wrap-append (m ∷ ms) ns h = λ i. m (wrap-append ms ns h i)
