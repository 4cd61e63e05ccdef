-- ===== src/Handler/Permits.antt =====
-- The invariant of the handler's records, and that each way of writing one record keeps it.
use adapter_forge_gateway.Prelude.{
  ℕ, zero, suc, ◌≤◌, ◌<◌, ◌≡◌, refl, inl, inr, String, Bool, true, false, ◌&&◌, none, some, arith,
  ◌==◌, length, string_eq, Bool-cases, Option-cases,
}
use adapter_forge_gateway.Raise.{ok}
use adapter_forge_gateway.Dict.{lookup, insert, count_values, IsDistinct, lookup-insert}
use adapter_forge_gateway.Dict.Distinct.{insert-IsDistinct}
use adapter_forge_gateway.Dict.Inversion.{lookup-insert_self}
use adapter_forge_gateway.Dict.Size.{
  weight, count-erase, count-insert_old, count-insert_new, length-insert_old, length-insert_new,
}
use adapter_forge_gateway.Handler.State.{
  ToolExecutionKey, execution_key_eq, ExecutionRecord, Handler, is_evictable, count_of,
  release_permit, started, observed,
}
use adapter_forge_gateway.Handler.Steps.{put, at_end}
use adapter_forge_gateway.Handler.Records.{
  Records, move_to_end-IsDistinct, length-move_to_end, count-move_to_end,
}
use adapter_forge_gateway.Handler.Room.{Cleared}

-- The record holds a permit of this operation.
abbrev pub holds : String → ExecutionRecord → Bool
holds operation r = r.permit_held && (r.operation == operation)

-- Each operation's active count is the number of permits held for it and within its limit, no key
-- is bound twice, and no more records are retained than the bound.
pub record IsValid (h : Handler) : Type 0 where
  pub distinct : IsDistinct h.executions
  pub size : length h.executions ≤ h.max_retained
  pub permits :
      (operation : String)
      → count_values (holds operation) h.executions ≡ count_of operation h.active
  pub limits :
      (operation : String) → count_of operation h.active ≤ count_of operation h.max_concurrency

-- Two records that count alike.
abbrev pub Alike : ExecutionRecord → ExecutionRecord → Type 0
Alike a b = (a.operation ≡ b.operation) × (a.permit_held ≡ b.permit_held)

holds_free : (o : String) (r : ExecutionRecord) → is_evictable r ≡ true → holds o r ≡ false
unfolding is_evictable
holds_free o r h = ground arith

Alike-weight :
    (o : String) (a b : ExecutionRecord) → Alike a b → weight (holds o) a ≡ weight (holds o) b
Alike-weight o a b s = rw (s.0, s.1) refl

module _ (h : Handler) (v : IsValid h) (k : ToolExecutionKey) where
  module _ (old new : ExecutionRecord) (held : lookup k h.executions ≡ some old)
      (same : Alike old new) where
    pub put-IsValid : IsValid (put k new h)
    put-IsValid = record {
      distinct = insert-IsDistinct k new h.executions v.distinct;
      size = omega (arith, v.size, length-insert_old k new old h.executions held);
      permits = λ o. ground (
        arith,
        v.permits o,
        count-insert_old (holds o) k new old h.executions held,
        Alike-weight o old new same,
      );
      limits = v.limits;
    }

    pub at_end-IsValid : IsValid (at_end k new h)
    at_end-IsValid = record {
      distinct = move_to_end-IsDistinct k new h.executions v.distinct;
      size = omega (arith, v.size, length-move_to_end k new h.executions v.distinct old held);
      permits = λ o. ground (
        arith,
        v.permits o,
        count-move_to_end k new h.executions v.distinct (holds o) old held,
        Alike-weight o old new same,
      );
      limits = v.limits;
    }

  module _ (new : lookup k h.executions ≡ none) (room : length h.executions < h.max_retained) where
    pub observed-IsValid : (operation : String) → IsValid (put k (observed operation) h)
    observed-IsValid operation = record {
      distinct = insert-IsDistinct k (observed operation) h.executions v.distinct;
      size = omega (arith, length-insert_new k (observed operation) h.executions new);
      permits = λ o.
          ground (
            arith,
            v.permits o,
            count-insert_new (holds o) k (observed operation) h.executions new,
          );
      limits = v.limits;
    }

    pub started-IsValid :
        (operation : String)
        → count_of operation h.active < count_of operation h.max_concurrency
        → IsValid (record h {
          active = insert operation (suc (count_of operation h.active)) h.active;
          executions = insert k (started operation) h.executions;
        })
    started-IsValid operation below = record {
      distinct = insert-IsDistinct k (started operation) h.executions v.distinct;
      size = omega (arith, length-insert_new k (started operation) h.executions new);
      permits = λ o. ground (
        arith,
        v.permits o,
        count-insert_new (holds o) k (started operation) h.executions new,
        string_eq.beq_iff operation o,
        lookup-insert operation o (suc (count_of operation h.active)) h.active,
      );
      limits = λ o. ground (
        arith,
        v.limits o,
        below,
        string_eq.beq_iff operation o,
        lookup-insert operation o (suc (count_of operation h.active)) h.active,
      );
    }

-- Making room gives up no permit.
pub cleared-IsValid :
    (h : Handler) (v : IsValid h) (room : Bool) (left : Records)
    → Cleared h.max_retained h.executions room left
    → IsValid (record h { executions = left })
cleared-IsValid h v room left c = record {
  distinct = c.distinct;
  size = omega (arith, v.size, c.shrinks);
  permits = λ o. ground (arith, v.permits o, c.counts (holds o) (holds_free o));
  limits = v.limits;
}

-- What a release of the record at `k`, now `r`, leaves.
pub record Released (k : ToolExecutionKey) (r : ExecutionRecord) (h : Handler) : Type 0 where
  pub after : Handler
  pub stored : ExecutionRecord
  pub done : release_permit k r h ≡ (ok (record r { permit_held = false }), after)
  pub valid : IsValid after
  pub held : lookup k after.executions ≡ some stored
  pub same : Alike stored (record r { permit_held = false })

module _ (h : Handler) (v : IsValid h) (k : ToolExecutionKey) (old r : ExecutionRecord)
    (held : lookup k h.executions ≡ some old) (same : Alike old r) where
  -- The operation of a record with a permit has a positive active count.
  active_of : r.permit_held ≡ true → (n : ℕ) × (lookup r.operation h.active ≡ some (suc n))
  active_of e = elim (Option-cases (lookup r.operation h.active)) [
    | inl missing ↦ absurd (
        ground (
          arith,
          e,
          missing,
          same.0,
          same.1,
          v.permits r.operation,
          string_eq.beq_iff r.operation r.operation,
          count-erase (holds r.operation) k old h.executions v.distinct held,
        ))
    | inr (zero, found) ↦ absurd (
        ground (
          arith,
          e,
          found,
          same.0,
          same.1,
          v.permits r.operation,
          string_eq.beq_iff r.operation r.operation,
          count-erase (holds r.operation) k old h.executions v.distinct held,
        ))
    | inr (suc n, found) ↦ (n, found)
  ]

  released-IsValid :
      r.permit_held ≡ true
      → (n : ℕ) → lookup r.operation h.active ≡ some (suc n)
      → IsValid (record h {
        active = insert r.operation n h.active;
        executions = insert k (record r { permit_held = false }) h.executions;
      })
  released-IsValid e n found = record {
    distinct = insert-IsDistinct k (record r { permit_held = false }) h.executions v.distinct;
    size = omega (
      arith,
      v.size,
      length-insert_old k (record r { permit_held = false }) old h.executions held,
    );
    permits = λ o. ground (
      arith,
      e,
      found,
      same.0,
      same.1,
      v.permits o,
      string_eq.beq_iff r.operation o,
      count-insert_old (holds o) k (record r { permit_held = false }) old h.executions held,
      lookup-insert r.operation o n h.active,
    );
    limits = λ o. ground (
      arith,
      found,
      v.limits o,
      string_eq.beq_iff r.operation o,
      lookup-insert r.operation o n h.active,
    );
  }

  -- In a sound handler a release never raises.
  pub release_permit-Released : Released k r h
  unfolding release_permit
  release_permit-Released = elim (Bool-cases r.permit_held) [
    | inl e ↦
        let (n, found) = active_of e in
        record {
          after = record h {
            active = insert r.operation n h.active;
            executions = insert k (record r { permit_held = false }) h.executions;
          };
          stored = record r { permit_held = false };
          done = rw (e, found) refl;
          valid = released-IsValid e n found;
          held = lookup-insert_self k (record r { permit_held = false }) h.executions;
          same = (refl, refl);
        }
    | inr e ↦ record {
      after = h;
      stored = old;
      done = ground (arith, e);
      valid = v;
      held = held;
      same = (same.0, ground (arith, same.1, e));
    }
  ]
