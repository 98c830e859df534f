-- ===== src/Http/Fields.antt =====
-- `std::unordered_map<std::string, std::string>`: each key stands once. The C++ map leaves the
-- order of iteration open; here it is the order of first insertion.
use my_tiny_network_library.Base.{
  ◌≡◌, true, false, arith, List, [], ◌∷◌, Option, none, some, if◌then◌else◌, Bytes, equal,
  equal_iff,
}

abbrev pub Fields : Type 0
Fields = List (Bytes × Bytes)

unfoldable pub lookup : Bytes → Fields → Option Bytes
lookup name [] = none
lookup name ((field, text) ∷ rest) = if equal name field then some text else lookup name rest

-- `fields[name] = text`
unfoldable pub insert : Bytes → Bytes → Fields → Fields
insert name text [] = (name, text) ∷ []
insert name text ((field, old) ∷ rest) =
    let others = insert name text rest in
    if equal name field then (field, text) ∷ rest else (field, old) ∷ others

-- an assignment is seen under its own name and leaves every other field as it was
pub lookup-insert :
    (name text asked : Bytes) (fields : Fields)
    → (equal asked name ≡ true → lookup asked (insert name text fields) ≡ some text)
      × (equal asked name ≡ false → lookup asked (insert name text fields) ≡ lookup asked fields)
unfolding lookup insert
lookup-insert name text asked [] = ground arith
lookup-insert name text asked ((field, old) ∷ rest) = ground (
  arith,
  equal_iff name field,
  equal_iff asked name,
  equal_iff asked field,
  lookup-insert name text asked rest,
)
