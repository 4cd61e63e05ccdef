-- ===== src/Endpoint/Copies.antt =====
-- What `_json_copy` of src/forge_tool/endpoint/models.py lets through.
use adapter_forge_gateway.Prelude.{
  ℕ, suc, ◌+◌, ◌≤◌, ◌≡◌, arith, leb, ltb, not, any, ◌||◌, if◌then◌else◌,
}
use adapter_forge_gateway.Prelude.Int.{pos_part, neg_part}
use adapter_forge_gateway.Raise.{ok, ◌>>=◌, ◌>>◌, raise_if, value_error, >>-eq-ok, >>=-eq-ok}
use adapter_forge_gateway.Endpoint.Json.{
  Json, null, bool, int, float, text, arr, tuple, obj, Items, nil, cons, Fields, end, field,
}
use adapter_forge_gateway.Endpoint.Checks.{
  json_copy, items_copy, fields_copy, max_json_integer, is_finite, is_surrogate, mapping_copy,
}

abbrev pub larger : ℕ → ℕ → ℕ
larger a b = if leb a b then b else a

-- How many arrays and objects stand around the deepest value inside.
unfoldable mutual
  pub nesting : Json → ℕ
  nesting null = 0
  nesting (bool b) = 0
  nesting (int i) = 0
  nesting (float x) = 0
  nesting (text s) = 0
  nesting (arr xs) = items_nesting xs
  nesting (tuple xs) = items_nesting xs
  nesting (obj fs) = fields_nesting fs

  pub items_nesting : Items → ℕ
  items_nesting nil = 0
  items_nesting (cons x xs) = larger (suc (nesting x)) (items_nesting xs)

  pub fields_nesting : Fields → ℕ
  fields_nesting end = 0
  fields_nesting (field k x fs) = larger (suc (nesting x)) (fields_nesting fs)

-- A value with a list in the place of each tuple.
unfoldable mutual
  pub listed : Json → Json
  listed null = null
  listed (bool b) = bool b
  listed (int i) = int i
  listed (float x) = float x
  listed (text s) = text s
  listed (arr xs) = arr (items_listed xs)
  listed (tuple xs) = arr (items_listed xs)
  listed (obj fs) = obj (fields_listed fs)

  pub items_listed : Items → Items
  items_listed nil = nil
  items_listed (cons x xs) = cons (listed x) (items_listed xs)

  pub fields_listed : Fields → Fields
  fields_listed end = end
  fields_listed (field k x fs) = field k (listed x) (fields_listed fs)

mutual
  unfolding listed items_listed fields_listed json_copy items_copy fields_copy nesting items_nesting
      fields_nesting

  json_copy-listed :
      (depth : ℕ) (v w : Json)
      → json_copy depth v ≡ ok w
      → (w ≡ listed v) × (depth + nesting v ≤ 64)
  json_copy-listed depth null w h = ground (arith, >>-eq-ok (ltb 64 depth) value_error (ok null) h)
  json_copy-listed depth (bool b) w h =
      ground (arith, >>-eq-ok (ltb 64 depth) value_error (ok (bool b)) h)
  json_copy-listed depth (int i) w h =
      let (shallow, rest) =
        >>-eq-ok (ltb 64 depth) value_error
          (raise_if (ltb max_json_integer (pos_part i) || ltb max_json_integer (neg_part i))
              value_error
            >> ok (int i))
          h in
      ground (
        arith,
        shallow,
        >>-eq-ok (ltb max_json_integer (pos_part i) || ltb max_json_integer (neg_part i))
            value_error (ok (int i)) rest,
      )
  json_copy-listed depth (float x) w h =
      let (shallow, rest) =
        >>-eq-ok (ltb 64 depth) value_error
          (raise_if (not (is_finite x)) value_error >> ok (float x)) h in
      ground (arith, shallow, >>-eq-ok (not (is_finite x)) value_error (ok (float x)) rest)
  json_copy-listed depth (text s) w h =
      let (shallow, rest) =
        >>-eq-ok (ltb 64 depth) value_error
          (raise_if (any is_surrogate s) value_error >> ok (text s)) h in
      ground (arith, shallow, >>-eq-ok (any is_surrogate s) value_error (ok (text s)) rest)
  json_copy-listed depth (arr xs) w h =
      let (shallow, rest) =
        >>-eq-ok (ltb 64 depth) value_error (items_copy (suc depth) xs >>= λ ys. ok (arr ys)) h in
      let (ys, copied, done) = >>=-eq-ok (items_copy (suc depth) xs) _ rest in
      let (same, deep) = items_copy-listed depth xs ys (ground (arith, shallow)) copied in
      (ground (arith, done, same), deep)
  json_copy-listed depth (tuple xs) w h =
      let (shallow, rest) =
        >>-eq-ok (ltb 64 depth) value_error (items_copy (suc depth) xs >>= λ ys. ok (arr ys)) h in
      let (ys, copied, done) = >>=-eq-ok (items_copy (suc depth) xs) _ rest in
      let (same, deep) = items_copy-listed depth xs ys (ground (arith, shallow)) copied in
      (ground (arith, done, same), deep)
  json_copy-listed depth (obj fs) w h =
      let (shallow, rest) =
        >>-eq-ok (ltb 64 depth) value_error (fields_copy (suc depth) fs >>= λ gs. ok (obj gs)) h in
      let (gs, copied, done) = >>=-eq-ok (fields_copy (suc depth) fs) _ rest in
      let (same, deep) = fields_copy-listed depth fs gs (ground (arith, shallow)) copied in
      (ground (arith, done, same), deep)

  items_copy-listed :
      (depth : ℕ) (xs ys : Items)
      → depth ≤ 64
      → items_copy (suc depth) xs ≡ ok ys
      → (ys ≡ items_listed xs) × (depth + items_nesting xs ≤ 64)
  items_copy-listed depth nil ys b h = ground (arith, h)
  items_copy-listed depth (cons x xs) ys b h =
      let (y, one, rest) = >>=-eq-ok (json_copy (suc depth) x) _ h in
      let (zs, more, done) = >>=-eq-ok (items_copy (suc depth) xs) _ rest in
      let (same, deep) = json_copy-listed (suc depth) x y one in
      let (all_same, all_deep) = items_copy-listed depth xs zs b more in
      ground (arith, done, same, deep, all_same, all_deep)

  fields_copy-listed :
      (depth : ℕ) (fs gs : Fields)
      → depth ≤ 64
      → fields_copy (suc depth) fs ≡ ok gs
      → (gs ≡ fields_listed fs) × (depth + fields_nesting fs ≤ 64)
  fields_copy-listed depth end gs b h = ground (arith, h)
  fields_copy-listed depth (field k x fs) gs b h =
      let (_, rest) =
        >>-eq-ok (any is_surrogate k) value_error
          (json_copy (suc depth) x >>= λ y.
            fields_copy (suc depth) fs >>= λ gs'. ok (field k y gs'))
          h in
      let (y, one, more) = >>=-eq-ok (json_copy (suc depth) x) _ rest in
      let (zs, others, done) = >>=-eq-ok (fields_copy (suc depth) fs) _ more in
      let (same, deep) = json_copy-listed (suc depth) x y one in
      let (all_same, all_deep) = fields_copy-listed depth fs zs b others in
      ground (arith, done, same, deep, all_same, all_deep)

-- A mapping that `_mapping_copy` returns is the mapping it was given, with a list in the place of each
-- tuple, and its deepest part stands in at most 64 arrays and objects, the mapping itself included.
pub mapping_copy-listed :
    (fs gs : Fields) → mapping_copy fs ≡ ok gs → (gs ≡ fields_listed fs) × (fields_nesting fs ≤ 64)
unfolding mapping_copy
mapping_copy-listed fs gs h =
    let (same, deep) = fields_copy-listed 0 fs gs (omega arith) h in (same, omega (arith, deep))
