-- ===== src/Raise.antt =====
-- Python's exceptions as values, and an object's method as an action on its state: the state comes
-- back after a raise too, since what was written stays written.
pub mod State
pub mod Method
pub mod Ensures
pub mod Reading
use adapter_forge_gateway.Prelude.{String, ◌≡◌, refl, Bool, true, false}

-- The exception classes that the modelled code raises. A protocol error carries its code.
pub data Exception : Type 0 where
  value_error type_error key_error runtime_error not_implemented : Exception
  assertion_error capacity_error mailbox_unavailable operation_not_found : Exception
  gateway_unavailable mailbox_full stop_iteration : Exception
  protocol_error : String → Exception

pub data Result {ℓ} (A : Type ℓ) : Type ℓ where
  err : Exception → Result A
  ok : A → Result A

module _ {ℓ κ} {A : Type ℓ} {B : Type κ} where
  infixl 5 ◌>>=◌
  abbrev pub ◌>>=◌ : Result A → (A → Result B) → Result B
  err x >>= next = err x
  ok a >>= next = next a

module _ {ℓ} {B : Type ℓ} where
  infixl 5 ◌>>◌
  abbrev pub ◌>>◌ : Result (Unit {0}) → Result B → Result B
  first >> second = first >>= λ _. second

-- `if test: raise x`
abbrev pub raise_if : Bool → Exception → Result (Unit {0})
raise_if true x = err x
raise_if false x = ok tt

pub >>-eq-ok {ℓ} :
    {B : Type ℓ} (b : Bool) (x : Exception) (k : Result B) {v : B}
    → (raise_if b x >> k) ≡ ok v
    → (b ≡ false) × (k ≡ ok v)
>>-eq-ok true x k h = cc
>>-eq-ok false x k h = (cc, h)

pub >>=-eq-ok {ℓ κ} :
    {A : Type ℓ} {B : Type κ} (m : Result A) (next : A → Result B) {v : B}
    → (m >>= next) ≡ ok v
    → (a : A) × (m ≡ ok a) × (next a ≡ ok v)
>>=-eq-ok (ok a) next h = (a, refl, h)
>>=-eq-ok (err x) next h = absurd (cc)

-- A method: the result and the state after it.
abbrev pub Action : Type 0 → Type 0 → Type 0
Action S A = S → Result A × S
