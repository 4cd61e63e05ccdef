-- ===== src/Handler/Room.antt =====
-- `_make_room_locked` of src/forge_tool/handler.py: which records it gives up.
use adapter_forge_gateway.Prelude.{
  ℕ, zero, suc, ◌≤◌, ◌<◌, ◌≡◌, refl, ◌⊎◌, inl, inr, Bool, true, false, some, arith, length,
  string_eq, Bool-cases, ltb,
}
use adapter_forge_gateway.Raise.{ok}
use adapter_forge_gateway.Dict.{lookup, erase, count_values, IsDistinct, lookup-erase}
use adapter_forge_gateway.Dict.Distinct.{erase-IsDistinct}
use adapter_forge_gateway.Dict.Size.{count-erase, length-erase}
use adapter_forge_gateway.Handler.State.{
  ToolExecutionKey, execution_key_eq, ExecutionRecord, Handler, is_evictable, make_room_loop,
  make_room,
}
use adapter_forge_gateway.Handler.Records.{Records, NoneEvictable, Victim, evict_first-cases}

-- What is promised of the answer `room` and of the records that are left of `d`.
pub record Cleared (bound : ℕ) (d : Records) (room : Bool) (left : Records) : Type 0 where
  pub answer :
      (room ≡ true) × (length left < bound)
      ⊎ (room ≡ false) × (bound ≤ length left) × NoneEvictable left
  pub distinct : IsDistinct left
  pub shrinks : length left ≤ length d
  pub keeps :
      (k : ToolExecutionKey) (r : ExecutionRecord)
      → lookup k d ≡ some r
      → is_evictable r ≡ false
      → lookup k left ≡ some r
  pub older :
      (k : ToolExecutionKey) (r : ExecutionRecord) → lookup k left ≡ some r → lookup k d ≡ some r
  pub counts :
      (p : ExecutionRecord → Bool)
      → ((r : ExecutionRecord) → is_evictable r ≡ true → p r ≡ false)
      → count_values p left ≡ count_values p d

module _ (bound : ℕ) (d : Records) (o : IsDistinct d) where
  same-Cleared :
      (room : Bool)
      → ((room ≡ true) × (length d < bound) ⊎ (room ≡ false) × (bound ≤ length d) × NoneEvictable d)
      → Cleared bound d room d
  same-Cleared room a = record {
    answer = a;
    distinct = o;
    shrinks = omega arith;
    keeps = λ k r h e. h;
    older = λ k r h. h;
    counts = λ p h. refl;
  }

  erased-Cleared :
      (v : Victim d) (room : Bool) (left : Records)
      → Cleared bound (erase v.key d) room left
      → Cleared bound d room left
  erased-Cleared v room left c = record {
    answer = c.answer;
    distinct = c.distinct;
    shrinks = omega (arith, c.shrinks, length-erase v.key v.value d o v.held);
    keeps = λ k r h e.
        c.keeps k r
          (ground
            (arith, h, e, v.held, v.free, execution_key_eq.beq_iff v.key k, lookup-erase v.key k d))
          e;
    older = λ k r h. ground (arith, c.older k r h, lookup-erase v.key k d);
    counts = λ p h.
        ground (arith, c.counts p h, count-erase p v.key v.value d o v.held, h v.value v.free);
  }

make_room_loop-Cleared :
    (fuel bound : ℕ) (d : Records)
    → IsDistinct d
    → length d < fuel
    → let (room, left) = make_room_loop fuel bound d in Cleared bound d room left
unfolding make_room_loop
make_room_loop-Cleared zero bound d o enough = absurd (omega arith)
make_room_loop-Cleared (suc fuel) bound d o enough = elim (Bool-cases (ltb (length d) bound)) [
  | inl e ↦ rw e (same-Cleared bound d o true (inl (ground (arith, e))))
  | inr e ↦ elim (evict_first-cases d o) [
    | inl (stuck, full) ↦
        rw (e, stuck) (same-Cleared bound d o false (inr (refl, ground (arith, e), full)))
    | inr v ↦
        rw (e, v.left)
          (erased-Cleared bound d o v _ _ (
            make_room_loop-Cleared fuel bound (erase v.key d) (erase-IsDistinct v.key d o)
              (omega (arith, length-erase v.key v.value d o v.held))))
  ]
]

-- `_make_room_locked` ends with room for one more record, or has given up every record that it may
-- and still has none. It gives up only records that hold no permit and wait for no start, and changes
-- none of those that are left.
pub make_room-Cleared :
    (h : Handler)
    → IsDistinct h.executions
    → (room : Bool) × (left : Records) × (make_room h ≡ (ok room, record h { executions = left }))
      × Cleared h.max_retained h.executions room left
unfolding make_room
make_room-Cleared h o =
    let (room, left) = make_room_loop (suc (length h.executions)) h.max_retained h.executions in
    (
      room,
      left,
      refl,
      make_room_loop-Cleared (suc (length h.executions)) h.max_retained h.executions o
          (omega arith),
    )
