-- ===== src/Catalog/Bindings.antt =====
-- That the catalog's lookup is the search of the configured list, and that a binding has one Tool.
use adapter_forge_gateway.Prelude.{
  String, ◌≡◌, refl, true, false, Option, none, some, List, [], ◌∷◌, ◌==◌, map, arith, string_eq,
  if◌then◌else◌,
}
use adapter_forge_gateway.Raise.{ok, value_error, >>-eq-ok}
use adapter_forge_gateway.Dict.{Dict, lookup, insert, elem, lookup-insert}
use adapter_forge_gateway.Catalog.{
  ToolSpec, ToolSpecCatalog, has_repeat, id_of, binding_of, binding_eq, specs_from, init, get,
}

-- The first of the configured Tools with an ID.
unfoldable pub find_spec : String → List ToolSpec → Option ToolSpec
find_spec tool_id [] = none
find_spec tool_id (s ∷ specs) = if s.tool_id == tool_id then some s else find_spec tool_id specs

find_spec-none :
    (tool_id : String) (specs : List ToolSpec)
    → elem tool_id (map id_of specs) ≡ false
    → find_spec tool_id specs ≡ none
unfolding find_spec elem
find_spec-none tool_id [] h = refl
find_spec-none tool_id (s ∷ specs) h = ground (
  arith,
  h,
  find_spec-none tool_id specs,
  string_eq.beq_iff s.tool_id tool_id,
  string_eq.beq_iff tool_id s.tool_id,
)

abbrev or_else : Option ToolSpec → Option ToolSpec → Option ToolSpec
or_else none o = o
or_else (some s) o = some s

lookup-specs_from :
    (tool_id : String) (specs : List ToolSpec) (d : Dict String ToolSpec)
    → has_repeat (map id_of specs) ≡ false
    → lookup tool_id (specs_from specs d) ≡ or_else (find_spec tool_id specs) (lookup tool_id d)
unfolding specs_from has_repeat find_spec
lookup-specs_from tool_id [] d h = refl
lookup-specs_from tool_id (s ∷ specs) d h = ground (
  arith,
  h,
  lookup-specs_from tool_id specs (insert s.tool_id s d),
  lookup-insert s.tool_id tool_id s d,
  find_spec-none tool_id specs,
  string_eq.beq_iff s.tool_id tool_id,
)

or_else-none : (o : Option ToolSpec) → or_else o none ≡ o
or_else-none none = refl
or_else-none (some s) = refl

find_spec-elem :
    (tool_id : String) (specs : List ToolSpec) (s : ToolSpec)
    → find_spec tool_id specs ≡ some s
    → elem (binding_of s) (map binding_of specs) ≡ true
unfolding find_spec elem
find_spec-elem tool_id [] s h = absurd (cc)
find_spec-elem tool_id (t ∷ specs) s h = ground (
  arith,
  h,
  find_spec-elem tool_id specs s,
  binding_eq.beq_iff (binding_of t) (binding_of s),
  binding_eq.beq_iff (binding_of s) (binding_of t),
)

find_spec_unique :
    (specs : List ToolSpec) (a b : String) (s t : ToolSpec)
    → has_repeat (map binding_of specs) ≡ false
    → find_spec a specs ≡ some s
    → find_spec b specs ≡ some t
    → binding_of s ≡ binding_of t
    → s ≡ t
unfolding has_repeat find_spec
find_spec_unique [] a b s t h hs ht e = absurd (cc)
find_spec_unique (x ∷ specs) a b s t h hs ht e = ground (
  arith,
  h,
  hs,
  ht,
  e,
  find_spec_unique specs a b s t,
  find_spec-elem a specs s,
  find_spec-elem b specs t,
)

-- Where the configured list is accepted, the catalog has for each ID the first Tool of the list with
-- it, and none where the list has none.
pub get-find_spec :
    (specs : List ToolSpec) (tool_id : String) {c : ToolSpecCatalog}
    → init specs ≡ ok c
    → get tool_id c ≡ find_spec tool_id specs
unfolding init get lookup
get-find_spec specs tool_id {c} h =
    let ids = >>-eq-ok (has_repeat (map id_of specs)) value_error _ h in
    let bindings = >>-eq-ok (has_repeat (map binding_of specs)) value_error _ ids.1 in
    let same : c.specs ≡ specs_from specs [] = ground (arith, bindings.1) in
    rw (same, lookup-specs_from tool_id specs [] ids.0) (or_else-none (find_spec tool_id specs))

-- Where the configured list is accepted, two Tools of the catalog that are bound to the same
-- operation of the same endpoint are the same Tool.
pub get-binding_unique :
    (specs : List ToolSpec) (a b : String) (s t : ToolSpec) {c : ToolSpecCatalog}
    → init specs ≡ ok c
    → get a c ≡ some s
    → get b c ≡ some t
    → binding_of s ≡ binding_of t
    → s ≡ t
unfolding init
get-binding_unique specs a b s t h hs ht e =
    let ids = >>-eq-ok (has_repeat (map id_of specs)) value_error _ h in
    let bindings = >>-eq-ok (has_repeat (map binding_of specs)) value_error _ ids.1 in
    find_spec_unique specs a b s t bindings.0 (rw (get-find_spec specs a h) at hs)
      (rw (get-find_spec specs b h) at ht) e
