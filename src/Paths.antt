-- ===== src/Paths.antt =====
-- internal/util/strutil: the slashes of a path, and create_path.go.
pub mod Create
mod Tests
use pgwarden.Prelude.{
  ℕ, zero, suc, ◌+◌, ◌≡◌, Bool, true, false, not, ◌&&◌, ◌||◌, List, [], ◌∷◌, ◌++◌, Bytes, codes,
  is_empty, text_eq, ◌==◌, if◌then◌else◌,
}
use pgwarden.Go.Strings.{contains, has_suffix}

pub remove_trailing_slash : Bytes → Bytes
remove_trailing_slash [] = []
remove_trailing_slash (c ∷ []) = if c == b'/' then [] else c ∷ []
remove_trailing_slash (c ∷ d ∷ s) = c ∷ remove_trailing_slash (d ∷ s)

pub remove_leading_slash : Bytes → Bytes
remove_leading_slash [] = []
remove_leading_slash (c ∷ s) = if c == b'/' then s else c ∷ s

-- One round of the loop of `CreatePath`; `is_last` says that the part is the last one.
pub add_part : Bool → Bytes → Bytes → Bytes
add_part is_last path [] = path
add_part is_last path (c ∷ part) =
    let path' = path ++ (b'/' ∷ remove_leading_slash (c ∷ part)) in
    if is_last then path' else remove_trailing_slash path'

pub add_parts : Bytes → List Bytes → Bytes
add_parts path [] = path
add_parts path (p ∷ parts) = add_parts (add_part (is_empty parts) path p) parts

pub create_path : Bool → List Bytes → Bytes
create_path add_leading_slash parts =
    if add_leading_slash then add_parts [] parts else remove_leading_slash (add_parts [] parts)

-- internal/util/strutil/add_query_param_to_url.go; `escape` is net/url's PathEscape.
pub add_query_param_to_url : (Bytes → Bytes) → Bytes → Bytes → Bytes → Bytes
add_query_param_to_url escape url key value =
    if is_empty url
    then []
    else if is_empty key || is_empty value
    then url
    else if not (contains url b'?')
    then url ++ ((b'?' ∷ key) ++ (b'=' ∷ escape value))
    else if has_suffix url (codes "?") || has_suffix url (codes "&")
    then url ++ (key ++ (b'=' ∷ escape value))
    else url ++ ((b'&' ∷ key) ++ (b'=' ∷ escape value))
