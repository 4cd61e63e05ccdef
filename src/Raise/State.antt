-- ===== src/Raise/State.antt =====
-- Methods in sequence: `do` blocks over `Action`. A raise skips the rest and keeps what was written.
use adapter_forge_gateway.Prelude.{Option, none, some}
use adapter_forge_gateway.Raise.{Exception, Result, ok, err, Action}

abbrev pub then_do : {S A B : Type 0} → (A → Action S B) → Result A × S → Result B × S
then_do f (ok a, s) = f a s
then_do f (err x, s) = (err x, s)

module _ {S A B : Type 0} where
  infixl 5 ◌>>=◌ ◌>>◌
  abbrev pub ◌>>=◌ : Action S A → (A → Action S B) → Action S B
  ◌>>=◌ first next s = then_do next (first s)

  abbrev pub ◌>>◌ : Action S A → Action S B → Action S B
  first >> second = first >>= λ _. second

module _ {S A : Type 0} where
  abbrev pub pure : A → Action S A
  pure a s = (ok a, s)

  abbrev pub raise : Exception → Action S A
  raise x s = (err x, s)

  abbrev pub lift : Result A → Action S A
  lift r s = (r, s)

  abbrev pub gets : (S → A) → Action S A
  gets f s = (ok (f s), s)

  -- `d[k]`: a missing key raises.
  abbrev pub or_raise : Exception → Option A → Action S A
  or_raise x none s = (err x, s)
  or_raise x (some a) s = (ok a, s)

abbrev pub modify : {S : Type 0} → (S → S) → Action S (Unit {0})
modify f s = (ok tt, f s)
