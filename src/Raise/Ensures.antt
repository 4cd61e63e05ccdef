-- ===== src/Raise/Ensures.antt =====
-- What a method leaves, by one rule for each way to build it: `m` started where `P` holds ends where
-- `Q` holds, or where `E` holds if it raises.
use adapter_forge_gateway.Prelude.{◌≡◌, refl, Bool, true, false, Option, none, some, List, [], ◌∷◌}
use adapter_forge_gateway.Raise.{Exception, Result, ok, err, Action}
use adapter_forge_gateway.Raise.Method.{
  follow, pure, raise, lift, gets, try_except, try_else, ◌>>=◌, ◌>>◌, choose, branch, try_finally,
  modify, when, for_each, on_part, put_back,
}

abbrev pub Ends : {S A : Type 0} → (S → Type 0) → (S → Type 0) → Result A × S → Type 0
Ends Q E (ok a, s) = Q s
Ends Q E (err x, s) = E s

pub record Ensures {S A : Type 0} (P : S → Type 0) (m : Action S A) (Q E : S → Type 0)
    : Type 0 where
  pub at : (s : S) → P s → Ends Q E (m s)

module _ {S A : Type 0} {P E : S → Type 0} where
  pub Ensures-pure : (a : A) → Ensures P (pure a) P E
  unfolding pure
  Ensures-pure a = record { at = λ s h. h }

  pub Ensures-gets : (f : S → A) → Ensures P (gets f) P E
  unfolding gets
  Ensures-gets f = record { at = λ s h. h }

pub Ensures-raise :
    {S A : Type 0} {Q E : S → Type 0} (x : Exception) → Ensures E (raise {A = A} x) Q E
unfolding raise
Ensures-raise x = record { at = λ s h. h }

-- A method that raises where it began.
pub Ensures-lift : {S A : Type 0} {P : S → Type 0} (r : Result A) → Ensures P (lift r) P P
unfolding lift
Ensures-lift (ok a) = record { at = λ s h. h }
Ensures-lift (err x) = record { at = λ s h. h }

module _ {S A : Type 0} {P Q E : S → Type 0} where
  pub Ensures-branch :
      (b : Bool) (m n : Action S A)
      → Ensures P m Q E
      → Ensures P n Q E
      → Ensures P (branch b m n) Q E
  unfolding branch
  Ensures-branch true m n hm hn = hm
  Ensures-branch false m n hm hn = hn

  pub Ensures-branch_if :
      (b : Bool) (m n : Action S A)
      → (b ≡ true → Ensures P m Q E)
      → (b ≡ false → Ensures P n Q E)
      → Ensures P (branch b m n) Q E
  unfolding branch
  Ensures-branch_if true m n hm hn = record { at = (hm refl).at }
  Ensures-branch_if false m n hm hn = record { at = (hn refl).at }

  pub Ensures-try :
      {F : S → Type 0} (m : Action S A) (handler : Exception → Action S A)
      → Ensures P m Q F
      → ((x : Exception) → Ensures F (handler x) Q E)
      → Ensures P (try_except m handler) Q E
  unfolding try_except
  Ensures-try {F} m handler hm hx = record { at = λ s h. after (m s) (hm.at s h) }
    where
      after : (r : Result A × S) → Ends Q F r → Ends Q E (follow (λ a s'. (ok a, s')) handler r)
      after (ok a, s) h = h
      after (err x, s) h = (hx x).at s h

module _ {S A B : Type 0} {P Q E : S → Type 0} where
  pub Ensures-bind :
      {M : S → Type 0} (m : Action S A) (f : A → Action S B)
      → Ensures P m M E
      → ((a : A) → Ensures M (f a) Q E)
      → Ensures P (m >>= f) Q E
  unfolding ◌>>=◌
  Ensures-bind {M} m f hm hf = record { at = λ s h. after (m s) (hm.at s h) }
    where
      after : (r : Result A × S) → Ends M E r → Ends Q E (follow f (λ x s'. (err x, s')) r)
      after (ok a, s) h = (hf a).at s h
      after (err x, s) h = h

  pub Ensures-try_else :
      {M F : S → Type 0} (m : Action S A) (handler : Exception → Action S B) (next : A → Action S B)
      → Ensures P m M F
      → ((x : Exception) → Ensures F (handler x) Q E)
      → ((a : A) → Ensures M (next a) Q E)
      → Ensures P (try_else m handler next) Q E
  unfolding try_else
  Ensures-try_else {M} {F} m handler next hm hx hn = record { at = λ s h. after (m s) (hm.at s h) }
    where
      after : (r : Result A × S) → Ends M F r → Ends Q E (follow next handler r)
      after (ok a, s) h = (hn a).at s h
      after (err x, s) h = (hx x).at s h

  pub Ensures-then :
      {M : S → Type 0} (m : Action S A) (n : Action S B)
      → Ensures P m M E
      → Ensures M n Q E
      → Ensures P (m >> n) Q E
  unfolding ◌>>◌
  Ensures-then m n hm hn = Ensures-bind m (λ _. n) hm (λ _. hn)

  pub Ensures-choose :
      (o : Option A) (absent : Action S B) (present : A → Action S B)
      → Ensures P absent Q E
      → ((a : A) → Ensures P (present a) Q E)
      → Ensures P (choose o absent present) Q E
  unfolding choose
  Ensures-choose none absent present ha hp = ha
  Ensures-choose (some a) absent present ha hp = hp a

module _ {S : Type 0} {P E : S → Type 0} where
  pub Ensures-modify :
      {Q : S → Type 0} (f : S → S) → ((s : S) → P s → Q (f s)) → Ensures P (modify f) Q E
  unfolding modify
  Ensures-modify f h = record { at = h }

  pub Ensures-when :
      (b : Bool) (m : Action S (Unit {0})) → Ensures P m P E → Ensures P (when b m) P E
  unfolding when
  Ensures-when true m h = h
  Ensures-when false m h = record { at = λ s p. p }

  -- A test whose outcome the method behind it may use.
  pub Ensures-if_so :
      {Q : S → Type 0} (b : Bool) (m : Action S (Unit {0}))
      → (b ≡ true → Ensures P m Q E)
      → ((s : S) → b ≡ false → P s → Q s)
      → Ensures P (when b m) Q E
  unfolding when
  Ensures-if_so true m h skip = record { at = (h refl).at }
  Ensures-if_so false m h skip = record { at = λ s p. skip s refl p }

  pub Ensures-for_each :
      {A : Type 0} (xs : List A) (body : A → Action S (Unit {0}))
      → ((x : A) → Ensures P (body x) P E)
      → Ensures P (for_each xs body) P E
  unfolding for_each
  Ensures-for_each [] body h = record { at = λ s p. p }
  Ensures-for_each (x ∷ xs) body h = record {
    at = (Ensures-then (body x) (for_each xs body) (h x) (Ensures-for_each xs body h)).at;
  }

-- What does not look at a component keeps when a method runs on it.
pub Ensures-on_part :
    {S C A : Type 0} {P : S → Type 0} (get : S → C) (set : S → C → S) (m : Action C A)
    → ((s : S) (c : C) → P s → P (set s c))
    → Ensures P (on_part get set m) P P
unfolding on_part
Ensures-on_part {S} {C} {A} {P} get set m keep = record { at = λ s h. after s (m (get s)) h }
  where
    after : (s : S) (r : Result A × C) → P s → Ends P P (put_back set s r)
    after s (ok a, c) h = keep s c h
    after s (err x, c) h = keep s c h

-- What the method leaves of the component may be used.
pub Ensures-on_part_to :
    {S C A : Type 0} {P Q : S → Type 0} (get : S → C) (set : S → C → S) (m : Action C A)
    → ((s : S) → P s → Q (set s (m (get s)).1))
    → Ensures P (on_part get set m) Q Q
unfolding on_part
Ensures-on_part_to {S} {C} {A} {P} {Q} get set m leaves = record {
  at = λ s h. after s (m (get s)) (leaves s h);
}
  where
    after : (s : S) (r : Result A × C) → Q (set s r.1) → Ends Q Q (put_back set s r)
    after s (ok a, c) h = h
    after s (err x, c) h = h

-- The rules for an invariant, whichever way the method ends.
abbrev pub Keeps : {S A : Type 0} → (S → Type 0) → Action S A → Type 0
Keeps P m = Ensures P m P P

module _ {S A B : Type 0} {P : S → Type 0} where
  pub Keeps-bind :
      (m : Action S A) (f : A → Action S B)
      → Keeps P m
      → ((a : A) → Keeps P (f a))
      → Keeps P (m >>= f)
  Keeps-bind m f km kf = Ensures-bind m f km kf

  pub Keeps-then : (m : Action S A) (n : Action S B) → Keeps P m → Keeps P n → Keeps P (m >> n)
  Keeps-then m n km kn = Ensures-then m n km kn

module _ {S B : Type 0} {P : S → Type 0} where
  -- What follows a check knows that it passed.
  pub Keeps-check :
      (r : Result (Unit {0})) (m : Action S B) → (r ≡ ok tt → Keeps P m) → Keeps P (lift r >> m)
  unfolding lift ◌>>◌ ◌>>=◌
  Keeps-check (err x) m h = record { at = λ s p. p }
  Keeps-check (ok tt) m h = record { at = (h refl).at }

  -- What follows `if test: raise x` knows that the test failed.
  pub Keeps-guard :
      (b : Bool) (x : Exception) (m : Action S B)
      → (b ≡ false → Keeps P m)
      → Keeps P (when b (raise x) >> m)
  unfolding when raise ◌>>◌ ◌>>=◌
  Keeps-guard true x m h = record { at = λ s p. p }
  Keeps-guard false x m h = record { at = (h refl).at }

module _ {S : Type 0} {P : S → Type 0} where
  pub Keeps-raise : {A : Type 0} (x : Exception) → Keeps P (raise {A = A} x)
  Keeps-raise x = Ensures-raise x

  pub Keeps-modify : (f : S → S) → ((s : S) → P s → P (f s)) → Keeps P (modify f)
  Keeps-modify f h = Ensures-modify f h

pub ruleset keeps_rules = (
  Ensures-pure, Keeps-raise, Ensures-gets, Ensures-lift, Ensures-branch, Ensures-choose,
  Ensures-when, Ensures-for_each, Keeps-bind, Keeps-then,
)

module _ {S A : Type 0} {P Q E F : S → Type 0} where
  -- A cleanup that does not raise.
  pub Ensures-finally :
      {M : S → Type 0} (m : Action S A) (cleanup : Action S (Unit {0}))
      → Ensures P m M F
      → Ensures M cleanup Q E
      → Ensures F cleanup E E
      → Ensures P (try_finally m cleanup) Q E
  unfolding try_finally
  Ensures-finally {M} m cleanup hm hq he = record { at = λ s h. after (m s) (hm.at s h) }
    where
      after :
          (r : Result A × S)
          → Ends M F r
          → Ends Q E (follow (λ a. cleanup >> pure a) (λ x. cleanup >> raise x) r)
      after (ok a, s) h = (Ensures-then cleanup (pure a) hq (Ensures-pure a)).at s h
      after (err x, s) h = (Ensures-then cleanup (raise {A = A} x) he (Ensures-raise x)).at s h

  -- From more, and to less.
  pub Ensures-weaken :
      {M N : S → Type 0} (m : Action S A)
      → ((s : S) → P s → M s)
      → Ensures M m N F
      → ((s : S) → N s → Q s)
      → ((s : S) → F s → E s)
      → Ensures P m Q E
  Ensures-weaken {M} {N} m before h after_ok after_err = record {
    at = λ s p. after (m s) (h.at s (before s p));
  }
    where
      after : (r : Result A × S) → Ends N F r → Ends Q E r
      after (ok a, s) q = after_ok s q
      after (err x, s) f = after_err s f
