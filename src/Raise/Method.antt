-- ===== src/Raise/Method.antt =====
-- The same actions behind shut combinators, for methods that are proved by rules and not by running
-- them: sequences, choices, `try`, loops, and a method of a component on the whole object.
use adapter_forge_gateway.Prelude.{Bool, true, false, Option, none, some, List, [], ◌∷◌}
use adapter_forge_gateway.Raise.{Exception, Result, ok, err, Action}

-- What follows a method, by its result.
abbrev pub follow :
    {S A B : Type 0} → (A → Action S B) → (Exception → Action S B) → Result A × S → Result B × S
follow f g (ok a, s) = f a s
follow f g (err x, s) = g x s

module _ {S A : Type 0} where
  unfoldable pub pure : A → Action S A
  pure a s = (ok a, s)

  unfoldable pub raise : Exception → Action S A
  raise x s = (err x, s)

  unfoldable pub lift : Result A → Action S A
  lift r s = (r, s)

  unfoldable pub gets : (S → A) → Action S A
  gets f s = (ok (f s), s)

  -- A branch of a method.
  unfoldable pub branch : Bool → Action S A → Action S A → Action S A
  branch true m n = m
  branch false m n = n

  -- `try: m except: handler`, where the handler raises again what it does not catch.
  unfoldable pub try_except : Action S A → (Exception → Action S A) → Action S A
  try_except m handler s = follow (λ a s'. (ok a, s')) handler (m s)

module _ {S A B : Type 0} where
  infixl 5 ◌>>=◌ ◌>>◌
  unfoldable pub ◌>>=◌ : Action S A → (A → Action S B) → Action S B
  ◌>>=◌ first next s = follow next (λ x s'. (err x, s')) (first s)

  unfoldable pub ◌>>◌ : Action S A → Action S B → Action S B
  unfolding ◌>>=◌
  first >> second = first >>= λ _. second

  unfoldable pub choose : Option A → Action S B → (A → Action S B) → Action S B
  choose none absent present = absent
  choose (some a) absent present = present a

unfoldable pub modify : {S : Type 0} → (S → S) → Action S (Unit {0})
modify f s = (ok tt, f s)

-- `if test: m`
unfoldable pub when : {S : Type 0} → Bool → Action S (Unit {0}) → Action S (Unit {0})
when true m s = m s
when false m s = (ok tt, s)

-- `for x in xs: body`
unfoldable pub for_each : {S A : Type 0} → List A → (A → Action S (Unit {0})) → Action S (Unit {0})
unfolding ◌>>◌ ◌>>=◌
for_each [] body s = (ok tt, s)
for_each (x ∷ xs) body s = (body x >> for_each xs body) s

-- A method of a component, as a method of the object that holds it.
abbrev pub put_back : {S C A : Type 0} → (S → C → S) → S → Result A × C → Result A × S
put_back set s (r, c) = (r, set s c)

unfoldable pub on_part : {S C A : Type 0} → (S → C) → (S → C → S) → Action C A → Action S A
on_part get set m s = put_back set s (m (get s))

module _ {S A : Type 0} where
  -- `try: m finally: cleanup`
  unfoldable pub try_finally : Action S A → Action S (Unit {0}) → Action S A
  unfolding ◌>>◌ ◌>>=◌ pure raise
  try_finally m cleanup s = follow (λ a. cleanup >> pure a) (λ x. cleanup >> raise x) (m s)

-- `try: m except: handler else: next`
unfoldable pub try_else :
    {S A B : Type 0} → Action S A → (Exception → Action S B) → (A → Action S B) → Action S B
try_else m handler next s = follow next handler (m s)
