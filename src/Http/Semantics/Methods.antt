-- ===== src/Http/Semantics/Methods.antt =====
-- The table of methods against the ladder of `set_method`.
use oklib.Common.{Option, none, some}
use oklib.Http.Request.{HttpMethod, invalid}

abbrev pub method_or_invalid : Option HttpMethod → HttpMethod
method_or_invalid none = invalid
method_or_invalid (some m) = m
