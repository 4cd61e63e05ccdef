-- ===== src/Raise/Reading.antt =====
-- Rules for a method that reads the state, or runs on a part of it without raising: what is read off
-- is known in the rest.
use adapter_forge_gateway.Prelude.{◌≡◌, refl, Option, none, some}
use adapter_forge_gateway.Raise.{Result, ok, err, Action}
use adapter_forge_gateway.Raise.Method.{lift, gets, ◌>>=◌, choose, on_part, put_back}
use adapter_forge_gateway.Raise.Ensures.{Ends, Ensures, Ensures-weaken}

module _ {S A B : Type 0} {P Q E : S → Type 0} where
  -- What is read off the state is known of it in the rest.
  pub Ensures-read :
      (f : S → A) (next : A → Action S B)
      → ((a : A) → Ensures (λ s. P s × (f s ≡ a)) (next a) Q E)
      → Ensures P (gets f >>= next) Q E
  unfolding gets ◌>>=◌
  Ensures-read f next h = record { at = λ s p. (h (f s)).at s (p, refl) }

module _ {S A B : Type 0} {P Q E : S → Type 0} where
  -- An entry that is looked up, and is held.
  pub Ensures-find :
      (f : S → Option A) (absent : Action S B) (present : A → Action S B)
      → Ensures P absent Q E
      → ((a : A) → Ensures (λ s. P s × (f s ≡ some a)) (present a) Q E)
      → Ensures P (gets f >>= λ held. choose held absent present) Q E
  unfolding choose
  Ensures-find f absent present ha hp = Ensures-read f _ (λ o.
      elim o as (λ k. Ensures (λ s. P s × (f s ≡ k)) (choose k absent present) Q E) [
        | none ↦ Ensures-weaken {E = E} {F = E} absent (λ s p. p.0) ha (λ s q. q) (λ s e. e)
        | some a ↦ hp a
      ])

module _ {S A B : Type 0} {P Q E : S → Type 0} where
  -- The same, where an entry that is not held is known not to be.
  pub Ensures-gets_cases :
      (f : S → Option A) (next : Option A → Action S B)
      → Ensures (λ s. P s × (f s ≡ none)) (next none) Q E
      → ((a : A) → Ensures (λ s. P s × (f s ≡ some a)) (next (some a)) Q E)
      → Ensures P (gets f >>= next) Q E
  Ensures-gets_cases f next ha hp = Ensures-read f next (λ o.
      elim o as (λ k. Ensures (λ s. P s × (f s ≡ k)) (next k) Q E) [ none ↦ ha | some a ↦ hp a ])

module _ {S A B : Type 0} {P Q E : S → Type 0} where
  pub Ensures-cases :
      (f : S → Option A) (absent : Action S B) (present : A → Action S B)
      → Ensures (λ s. P s × (f s ≡ none)) absent Q E
      → ((a : A) → Ensures (λ s. P s × (f s ≡ some a)) (present a) Q E)
      → Ensures P (gets f >>= λ held. choose held absent present) Q E
  unfolding choose
  Ensures-cases f absent present ha hp = Ensures-gets_cases f _ ha hp

-- What does not raise, and does not look at a component that it changes.
abbrev pub Returns : {S A : Type 0} → Result A × S → Type 0
Returns r = Ends (λ _. Unit {0}) (λ _. ⊥) r

pub Ensures-on_part_ok :
    {S C A : Type 0} {P Q E : S → Type 0} (get : S → C) (set : S → C → S) (m : Action C A)
    → ((c : C) → Returns (m c))
    → ((s : S) → P s → Q (set s (m (get s)).1))
    → Ensures P (on_part get set m) Q E
unfolding on_part
Ensures-on_part_ok {S} {C} {A} {P} {Q} {E} get set m returns leaves = record {
  at = λ s h. after s (m (get s)) (returns (get s)) (leaves s h);
}
  where
    after : (s : S) (r : Result A × C) → Returns r → Q (set s r.1) → Ends Q E (put_back set s r)
    after s (ok a, c) _ h = h
    after s (err x, c) f h = absurd f

pub Ensures-lift_ok :
    {S A : Type 0} {P E : S → Type 0} (r : Result A) {a : A} → r ≡ ok a → Ensures P (lift r) P E
unfolding lift
Ensures-lift_ok (ok a) h = record { at = λ s p. p }
Ensures-lift_ok (err x) h = absurd (cc)
