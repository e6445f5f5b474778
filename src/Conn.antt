-- ===== src/Conn.antt =====
-- internal/integration/postgres/connstring.go: the two forms of a connection string. url.Parse is outside:
-- what it makes of a URI is an argument. The map `Extra` is listed in the order in which Go visits it.
pub mod Spaces
pub mod RoundTrip
mod Tests
use pgwarden.Prelude.{
  ℕ, ◌+◌, Bool, true, false, not, ◌&&◌, ◌||◌, Option, none, some, Result, ok, err, List, [], ◌∷◌,
  ◌++◌, Bytes, codes, text_eq, is_empty, leb, ◌==◌, if◌then◌else◌,
}
use pgwarden.Go.Strings.{trim, trim_space, cut, fields, join, has_prefix, trim_prefix}
use pgwarden.Go.Strconv.{itoa}

pub record ConnInfo : Type 0 where
  pub host : Bytes
  pub port : Bytes
  pub user : Bytes
  pub password : Bytes
  pub database : Bytes
  pub raw_query : Bytes
  pub extra : List (Bytes × Bytes)

pub data ConnError : Type 0 where
  empty_string bad_uri no_uri_database no_host no_database : ConnError

-- What is read off a url.URL.
pub record Uri : Type 0 where
  pub hostname : Bytes
  pub port : Bytes
  pub path : Bytes
  pub raw_query : Bytes
  pub user : Option (Bytes × Option Bytes)
  pub query : List (Bytes × List Bytes)

abbrev no_info : ConnInfo
no_info = record {
  host = [];
  port = [];
  user = [];
  password = [];
  database = [];
  raw_query = [];
  extra = [];
}

abbrev or_default : Bytes → Bytes → Bytes
or_default s d = if is_empty s then d else s

-- info.Extra[key] = value
pub set_extra : Bytes → Bytes → List (Bytes × Bytes) → List (Bytes × Bytes)
set_extra key value [] = (key, value) ∷ []
set_extra key value ((k, v) ∷ extra) =
    let rest = set_extra key value extra in
    if text_eq k key then (key, value) ∷ extra else (k, v) ∷ rest

-- The switch on the key.
pub set_key : Bytes → Bytes → ConnInfo → ConnInfo
set_key key value info =
    if text_eq key (codes "host")
    then record info { host = value }
    else if text_eq key (codes "port")
    then record info { port = value }
    else if text_eq key (codes "user")
    then record info { user = value }
    else if text_eq key (codes "password")
    then record info { password = value }
    else if text_eq key (codes "dbname")
    then record info { database = value }
    else record info { extra = set_extra key value info.extra }

pub is_quote : ℕ → Bool
is_quote c = c == 34 || c == 39

-- One round of the loop of parseKeywordConnString.
pub read_part : Option (Bytes × Bytes) → ConnInfo → ConnInfo
read_part none info = info
read_part (some (key, value)) info =
    set_key (trim_space key) (trim is_quote (trim_space value)) info

pub read_parts : List Bytes → ConnInfo → ConnInfo
read_parts [] info = info
read_parts (part ∷ parts) info = read_parts parts (read_part (cut b'=' part) info)

pub check_keywords : ConnInfo → Result ConnError ConnInfo
check_keywords info =
    if is_empty info.host
    then err no_host
    else if is_empty info.database
    then err no_database
    else ok (record info { port = or_default info.port (codes "5432") })

pub parse_keyword_conn_string : Bytes → Result ConnError ConnInfo
parse_keyword_conn_string s = check_keywords (read_parts (fields s) no_info)

abbrev user_name : Option (Bytes × Option Bytes) → Bytes
user_name none = []
user_name (some (user, password)) = user

abbrev user_password : Option (Bytes × Option Bytes) → Bytes
user_password none = []
user_password (some (user, none)) = []
user_password (some (user, some password)) = password

pub first_values : List (Bytes × List Bytes) → List (Bytes × Bytes)
first_values [] = []
first_values ((key, []) ∷ query) = first_values query
first_values ((key, value ∷ values) ∷ query) = (key, value) ∷ first_values query

unfoldable pub parse_uri_conn_string : Option Uri → Result ConnError ConnInfo
parse_uri_conn_string none = err bad_uri
parse_uri_conn_string (some u) =
    let database = trim_prefix u.path (codes "/") in
    if is_empty database
    then err no_uri_database
    else ok (record {
      host = u.hostname;
      port = or_default u.port (codes "5432");
      user = user_name u.user;
      password = user_password u.user;
      database = database;
      raw_query = u.raw_query;
      extra = first_values u.query;
    })

-- ParseConnString, with url.Parse
unfoldable pub parse_conn_string : (Bytes → Option Uri) → Bytes → Result ConnError ConnInfo
parse_conn_string parse_url conn_string =
    let s = trim_space conn_string in
    if is_empty s
    then err empty_string
    else if has_prefix s (codes "postgres://") || has_prefix s (codes "postgresql://")
    then parse_uri_conn_string (parse_url s)
    else parse_keyword_conn_string s

abbrev pair : Bytes → Bytes → Bytes
pair key value = key ++ (b'=' ∷ value)

pub extra_parts : List (Bytes × Bytes) → List Bytes
extra_parts [] = []
extra_parts ((key, value) ∷ extra) = pair key value ∷ extra_parts extra

abbrev part_if : Bytes → Bytes → List Bytes
part_if key value = if is_empty value then [] else pair key value ∷ []

pub keyword_parts : ConnInfo → List Bytes
keyword_parts info =
    pair (codes "host") info.host
    ∷ pair (codes "port") info.port
    ∷ pair (codes "dbname") info.database
    ∷ (part_if (codes "user") info.user
        ++ (part_if (codes "password") info.password ++ extra_parts info.extra))

pub keyword_string : ConnInfo → Bytes
keyword_string info = join (codes " ") (keyword_parts info)

pub with_database : ConnInfo → Bytes → Bytes
with_database info database =
    if is_empty database
    then keyword_string info
    else keyword_string (record info { database = database })

-- WithEndpoint, with a port that is not negative
pub with_endpoint : ConnInfo → Bytes → ℕ → Bytes → Bytes
with_endpoint info host port database = keyword_string (record info {
  host = or_default (trim_space host) info.host;
  port = if leb 1 port && leb port 65535 then itoa port else info.port;
  database = or_default (trim_space database) info.database;
})
