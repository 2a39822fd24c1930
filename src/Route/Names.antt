-- ===== src/Route/Names.antt =====
-- When the keys and names of routes tell routes apart.
use Prim.Native.Char.{Char, code}
use Prim.Native.String
use mathlib.Core.Path.{ap₂}
use text.Mathlib.TextLemmas.{nil-append, cons-append, append_assoc}
use apigw.Common.{String, ◌≡◌, refl, ◌≢◌, arith, ap, ◌∙◌, ◌↔◌}
use apigw.Route.{Matcher, join, route_key, matcher_name}

-- The text has no `@`.
abbrev pub NoAt : String → Type 0
NoAt String.[] = Unit {0}
NoAt (String.◌∷◌ c s) = (code c ≢ b'@') × NoAt s

abbrev at : Char
at = "@"

join-nil : (b : String) → join "" b ≡ String.◌∷◌ at b
join-nil b =
    nil-append (String.◌++◌ "@" b) ∙ cons-append at "" b ∙ ap (String.◌∷◌ at) (nil-append b)

join-cons : (x : Char) (a b : String) → join (String.◌∷◌ x a) b ≡ String.◌∷◌ x (join a b)
join-cons x a b = cons-append x a (String.◌++◌ "@" b)

not-at : (c : Char) → code c ≢ b'@' → c ≢ at
not-at c h e = h (ap code e)

join-injective : (a b c d : String) → NoAt a → NoAt c → join a b ≡ join c d → (a ≡ c) × (b ≡ d)
join-injective String.[] b String.[] d h k e = (refl, cc (join-nil b, join-nil d))
join-injective String.[] b (String.◌∷◌ y c) d h k e =
    absurd (not-at y k.0 (cc (join-nil b, join-cons y c d)))
join-injective (String.◌∷◌ x a) b String.[] d h k e =
    absurd (not-at x h.0 (cc (join-cons x a b, join-nil d)))
join-injective (String.◌∷◌ x a) b (String.◌∷◌ y c) d h k e =
    let rest : join a b ≡ join c d = cc (join-cons x a b, join-cons y c d) in
    let heads : x ≡ y = cc (join-cons x a b, join-cons y c d) in
    let (same, tails) = join-injective a b c d h.1 k.1 rest in (ap₂ String.◌∷◌ heads same, tails)

-- If neither method has an `@`, two matchers have one key exactly when their methods and their
-- paths are the same.
pub route_key_injective :
    (m n : Matcher)
    → NoAt m.method
    → NoAt n.method
    → (route_key m ≡ route_key n) ↔ ((m.method ≡ n.method) × (m.path ≡ n.path))
unfolding route_key
route_key_injective m n h k =
    (join-injective m.method m.path n.method n.path h k, λ (e, f). ap₂ join e f)

-- If no host and no method has an `@`, only the same matcher has the same name.
pub matcher_name_injective :
    (m n : Matcher)
    → NoAt m.host
    → NoAt n.host
    → NoAt m.method
    → NoAt n.method
    → matcher_name m ≡ matcher_name n
    → m ≡ n
unfolding matcher_name
matcher_name_injective m n hm hn h k e =
    let (hosts, rest) = join-injective m.host _ n.host _ hm hn e in
    let (methods, paths) = join-injective m.method m.path n.method n.path h k rest in ground arith

-- The key does not tell every two matchers apart: a method with an `@` can take over a path.
pub route_key_collides :
    (a b c : String)
    → route_key (record { host = ""; path = c; method = join a b })
      ≡ route_key (record { host = ""; path = join b c; method = a })
unfolding route_key
route_key_collides a b c = simp append_assoc
