-- ===== src/Http/Headers.antt =====
-- src/http/http_headers.cpp: the fields of a message, in the order in which they came.
pub mod Lookup
use oklib.Common.{
  ◌==◌, if◌then◌else◌, Bytes, Bool, true, false, ◌&&◌, ◌||◌, Option, none, some, List, [], ◌∷◌,
  ◌++◌,
}
use oklib.Http.Text.{to_lower, trim_ows}

pub record Entry : Type 0 where
  pub field : Bytes
  pub value : Bytes

abbrev pub HttpHeaders : Type 0
HttpHeaders = List Entry

-- `equals_ignore_case`: the sizes, then the characters.
unfoldable pub equals_ignore_case : Bytes → Bytes → Bool
equals_ignore_case [] [] = true
equals_ignore_case (l ∷ lhs) (r ∷ rhs) = to_lower l == to_lower r && equals_ignore_case lhs rhs
equals_ignore_case _ _ = false

unfoldable pub add : Bytes → Bytes → HttpHeaders → HttpHeaders
add field value entries =
    entries ++ (record { field = trim_ows field; value = trim_ows value } ∷ [])

-- `remove_if` over the entries of one field.
unfoldable pub remove_field : Bytes → HttpHeaders → HttpHeaders
remove_field field [] = []
remove_field field (e ∷ es) =
    let rest = remove_field field es in if equals_ignore_case e.field field then rest else e ∷ rest

unfoldable pub set : Bytes → Bytes → HttpHeaders → HttpHeaders
set field value entries = add field value (remove_field field entries)

unfoldable pub contains : Bytes → HttpHeaders → Bool
contains field [] = false
contains field (e ∷ es) = equals_ignore_case e.field field || contains field es

unfoldable pub find_entry : Bytes → HttpHeaders → Option Entry
find_entry field [] = none
find_entry field (e ∷ es) = if equals_ignore_case e.field field then some e else find_entry field es

-- The first value, or the empty string.
unfoldable pub get : Bytes → HttpHeaders → Bytes
get field entries = elim (find_entry field entries) [ none ↦ [] | some e ↦ e.value ]

unfoldable pub values : Bytes → HttpHeaders → List Bytes
values field [] = []
values field (e ∷ es) =
    let rest = values field es in if equals_ignore_case e.field field then e.value ∷ rest else rest
