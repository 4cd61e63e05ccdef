-- ===== src/Invocations/Eviction.antt =====
-- What `_make_total_capacity_locked` evicts: the oldest of the closed invocations whose permit is
-- released, and nothing else.
use adapter_forge_gateway.Prelude.{
  ℕ, ◌≤◌, ◌<◌, ◌≡◌, refl, inl, inr, true, false, none, some, List, [], ◌∷◌, arith, ◌==◌, length,
  All, Bool-cases, string_eq, subst, ap, dec_lt,
}
use adapter_forge_gateway.Raise.{Result, ok, err, capacity_error}
use adapter_forge_gateway.Dict.{Dict, lookup, IsDistinct}
use adapter_forge_gateway.Dict.Size.{length-erase-lt}
use adapter_forge_gateway.Invocations.Item.{ActionKey, key_eq, ActionInvocation}
use adapter_forge_gateway.Invocations.Store.{
  ActionInvocationStore, is_evictable, age, older, oldest_from, evictable, make_total_capacity,
  discard,
}

abbrev Items : Type 0
Items = Dict ActionKey ActionInvocation

-- An entry of `evictable` and the invocation that it stands for.
pub record IsCandidate (d : Items) (entry : ℕ × ActionKey) : Type 0 where
  pub item : ActionInvocation
  pub held : lookup entry.1 d ≡ some item
  pub closed : is_evictable item ≡ true
  pub aged : age item ≡ entry.0

IsCandidate-cons :
    (k : ActionKey) (item : ActionInvocation) (d : Items) (entry : ℕ × ActionKey)
    → lookup k d ≡ none
    → IsCandidate d entry
    → IsCandidate ((k, item) ∷ d) entry
unfolding lookup
IsCandidate-cons k item d entry h c = record {
  item = c.item;
  held = ground (arith, key_eq.beq_iff k entry.1, c.held);
  closed = c.closed;
  aged = c.aged;
}

All-IsCandidate-cons :
    (k : ActionKey) (item : ActionInvocation) (d : Items) (entries : List (ℕ × ActionKey))
    → lookup k d ≡ none
    → All (IsCandidate d) entries
    → All (IsCandidate ((k, item) ∷ d)) entries
All-IsCandidate-cons k item d [] h c = tt
All-IsCandidate-cons k item d (x ∷ xs) h c =
    (IsCandidate-cons k item d x h c.0, All-IsCandidate-cons k item d xs h c.1)

evictable-IsCandidate : (d : Items) → IsDistinct d → All (IsCandidate d) (evictable d)
unfolding evictable lookup
evictable-IsCandidate [] h = tt
evictable-IsCandidate ((k, item) ∷ d) h = elim (Bool-cases (is_evictable item)) [
  | inl e ↦ rw e (
    record { item = item; held = ground (arith, key_eq.beq_iff k k); closed = e; aged = refl },
    All-IsCandidate-cons k item d (evictable d) h.0 (evictable-IsCandidate d h.1),
  )
  | inr e ↦ rw e (All-IsCandidate-cons k item d (evictable d) h.0 (evictable-IsCandidate d h.1))
]

evictable-tail {ℓ} :
    (P : ℕ × ActionKey → Type ℓ) (k : ActionKey) (item : ActionInvocation) (d : Items)
    → All P (evictable ((k, item) ∷ d))
    → All P (evictable d)
unfolding evictable
evictable-tail P k item d h = elim (Bool-cases (is_evictable item)) [
  | inl e ↦ (rw e at h).1
  | inr e ↦ rw e at h
]

evictable-head {ℓ} :
    (P : ℕ × ActionKey → Type ℓ) (k : ActionKey) (item : ActionInvocation) (d : Items)
    → is_evictable item ≡ true
    → All P (evictable ((k, item) ∷ d))
    → P (age item, k)
unfolding evictable
evictable-head P k item d e h = (rw e at h).0

-- Every evictable invocation is among the entries.
All-evictable {ℓ} :
    (P : ℕ × ActionKey → Type ℓ) (k : ActionKey) (item : ActionInvocation) (d : Items)
    → All P (evictable d)
    → lookup k d ≡ some item
    → is_evictable item ≡ true
    → P (age item, k)
unfolding evictable lookup
All-evictable P k item [] h e c = absurd (ground arith)
All-evictable P k item ((j, other) ∷ d) h e c = elim (Bool-cases (j == k)) [
  | inl q ↦
      let same : other ≡ item = ground arith in
      let at_key : j ≡ k = (key_eq.beq_iff j k).0 q in
      subst (λ (x : ActionInvocation). P (age x, k)) same
        (subst (λ (x : ActionKey). P (age other, x)) at_key
          (evictable-head P j other d (rw same c) h))
  | inr q ↦ All-evictable P k item d (evictable-tail P j other d h) (ground arith) c
]

oldest_from-All {ℓ} :
    (P : ℕ × ActionKey → Type ℓ) (best : ℕ × ActionKey) (xs : List (ℕ × ActionKey))
    → P best
    → All P xs
    → P (oldest_from best xs)
unfolding oldest_from
oldest_from-All P best [] b h = b
oldest_from-All P best (x ∷ xs) b h = elim (Bool-cases (older x best)) [
  | inl e ↦ rw e (oldest_from-All P x xs h.0 h.1)
  | inr e ↦ rw e (oldest_from-All P best xs b h.1)
]

older_le : (x y : ℕ × ActionKey) → older x y ≡ true → x.0 ≤ y.0
unfolding older
older_le (t, (i, a)) (u, (j, b)) h = ground arith

not-older_le : (x y : ℕ × ActionKey) → older x y ≡ false → y.0 ≤ x.0
unfolding older
not-older_le (t, (i, a)) (u, (j, b)) h = ground arith

oldest_from-le_best :
    (best : ℕ × ActionKey) (xs : List (ℕ × ActionKey)) → (oldest_from best xs).0 ≤ best.0
unfolding oldest_from
oldest_from-le_best best [] = omega arith
oldest_from-le_best best (x ∷ xs) = elim (Bool-cases (older x best)) [
  | inl e ↦ rw (e, oldest_from) (omega (arith, oldest_from-le_best x xs, older_le x best e))
  | inr e ↦ rw (e, oldest_from) (oldest_from-le_best best xs)
]

oldest_from-le_step :
    (m : ℕ) (best x : ℕ × ActionKey) (xs : List (ℕ × ActionKey))
    → m ≡ (oldest_from best (x ∷ xs)).0
    → (m ≤ x.0) × ((next : ℕ × ActionKey) × (m ≡ (oldest_from next xs).0))
unfolding oldest_from
oldest_from-le_step m best x xs h = elim (Bool-cases (older x best)) [
  | inl e ↦
      let eq : m ≡ (oldest_from x xs).0 = rw (e, oldest_from) at h in
      (omega (arith, oldest_from-le_best x xs), (x, eq))
  | inr e ↦
      let eq : m ≡ (oldest_from best xs).0 = rw (e, oldest_from) at h in
      (omega (arith, oldest_from-le_best best xs, not-older_le x best e), (best, eq))
]

oldest_from-le :
    (m : ℕ) (best : ℕ × ActionKey) (xs : List (ℕ × ActionKey))
    → m ≡ (oldest_from best xs).0
    → All (λ x. m ≤ x.0) xs
oldest_from-le m best [] h = tt
oldest_from-le m best (x ∷ xs) h =
    let (first, (next, eq)) = oldest_from-le_step m best x xs h in
    (first, oldest_from-le m next xs eq)

-- The invocation at `k` may be evicted, and none that may be is older.
pub record IsVictim (s : ActionInvocationStore) (k : ActionKey) : Type 0 where
  pub item : ActionInvocation
  pub held : lookup k s.items ≡ some item
  pub closed : is_evictable item ≡ true
  pub oldest :
      (j : ActionKey) (other : ActionInvocation)
      → lookup j s.items ≡ some other
      → is_evictable other ≡ true
      → age item ≤ age other

-- How room is made: none is needed, the oldest closed invocation goes, or the store is full.
pub data Room (s : ActionInvocationStore) : Type 0 where
  spare : length s.items < s.capacity → make_total_capacity s ≡ (ok tt, s) → Room s
  evicted :
      (k : ActionKey)
      → s.capacity ≤ length s.items
      → IsVictim s k
      → make_total_capacity s ≡ (ok tt, discard k s)
      → Room s
  full :
      s.capacity ≤ length s.items
      → ((k : ActionKey) (item : ActionInvocation)
          → lookup k s.items ≡ some item
          → is_evictable item ≡ false)
      → make_total_capacity s ≡ (err capacity_error, s)
      → Room s

module _ (s : ActionInvocationStore) (distinct : IsDistinct s.items) where
  victim :
      (x : ℕ × ActionKey) (xs : List (ℕ × ActionKey))
      → evictable s.items ≡ x ∷ xs
      → IsVictim s (oldest_from x xs).1
  victim x xs e = record {
    item = c.item;
    held = c.held;
    closed = c.closed;
    oldest = λ j other held closed. rw c.aged (
        All-evictable (λ y. (oldest_from x xs).0 ≤ y.0) j other s.items
          (rw e (oldest_from-le_best x xs, oldest_from-le _ x xs refl)) held closed);
  }
    where
      candidates : All (IsCandidate s.items) (x ∷ xs)
      candidates = subst (All (IsCandidate s.items)) e (evictable-IsCandidate s.items distinct)

      c : IsCandidate s.items (oldest_from x xs)
      c = oldest_from-All (IsCandidate s.items) x xs candidates.0 candidates.1

  no_candidate :
      evictable s.items ≡ []
      → (k : ActionKey) (item : ActionInvocation) → lookup k s.items ≡ some item
      → is_evictable item ≡ false
  no_candidate e k item held = elim (Bool-cases (is_evictable item)) [
    | inl closed ↦ absurd (All-evictable (λ _. ⊥) k item s.items (rw e tt) held closed)
    | inr stays ↦ stays
  ]

  Room-of :
      (entries : List (ℕ × ActionKey))
      → evictable s.items ≡ entries
      → s.capacity ≤ length s.items
      → Room s
  unfolding make_total_capacity
  Room-of [] e h = full h (no_candidate e) (ground (arith, e))
  Room-of (x ∷ xs) e h = evicted (oldest_from x xs).1 h (victim x xs e) (ground (arith, e))

  -- Making room succeeds at once below the capacity; at it, exactly the oldest closed invocation
  -- whose permit is released goes, and without one the call fails and changes nothing.
  pub make_total_capacity-Room : Room s
  unfolding make_total_capacity
  make_total_capacity-Room = elim (dec_lt (length s.items) s.capacity) [
    | yes h ↦ spare h (ground arith)
    | no h ↦ Room-of (evictable s.items) refl (omega arith)
  ]

  -- Where it succeeds there is room for one more.
  pub length-make_total_capacity :
      (make_total_capacity s).0 ≡ ok tt
      → length s.items ≤ s.capacity
      → length (make_total_capacity s).1.items < s.capacity
  length-make_total_capacity r h = elim make_total_capacity-Room [
    | spare below e ↦ rw e below
    | evicted k at v e ↦
        rw e (unfold discard in omega (arith, length-erase-lt k v.item s.items v.held))
    | full at none_left e ↦
        absurd (cc (ap (λ (x : Result (Unit {0}) × ActionInvocationStore). x.0) e))
  ]
