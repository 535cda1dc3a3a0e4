-- ===== src/Headers/Index.antt =====
-- The hash table of the headers: `http_header_hashtable_init` (http.c).
use ostrichserver.Base.{ℕ, Bool, List, [], ◌∷◌, Option, none, some}
use ostrichserver.HashTable.Table.{Hashtable, hashtable_init, hashtable_add}
use ostrichserver.Headers.Handlers.{Handler, http_headers}

abbrev pub max_headers : ℕ
max_headers = 512

-- the loop over the table, which drops the results of `hashtable_add`
abbrev pub add_headers :
    Option (Hashtable Handler) → List (List ℕ × Handler) → Option (Hashtable Handler)
add_headers none headers = none
add_headers (some h) [] = some h
add_headers (some h) ((name, header) ∷ headers) =
    add_headers (elim (hashtable_add h name header) [ none ↦ none | some (h', added) ↦ some h' ])
      headers

-- `http_header_hashtable_init`, with whether the buckets could be allocated; `none` is `OS_ERR`, and no
-- header leads outside the buckets.
unfoldable pub http_header_hashtable_init : Bool → Option (Hashtable Handler)
http_header_hashtable_init allocated =
    add_headers (hashtable_init allocated max_headers) http_headers
