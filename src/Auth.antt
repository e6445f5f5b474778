-- ===== src/Auth.antt =====
-- internal/service/auth/bearer.go and groups.go: whom a bearer token lets in, and as whom. The check of the
-- signature and json.Unmarshal are arguments. A claim that is a number is taken to be whole, and times are
-- seconds; the clock shows 30 or more.
pub mod Bearer
mod Tests
use pgwarden.Prelude.{
  ℕ, ◌+◌, ◌-◌, Bool, true, false, not, ◌&&◌, ◌||◌, Option, none, some, Result, ok, err, ◌>>=◌, ◌>>◌,
  guard, List, [], ◌∷◌, ◌++◌, Bytes, codes, text_eq, is_empty, any, ◌==◌, if◌then◌else◌,
}
use pgwarden.Go.Strings.{
  trim_space, trim_prefix, has_prefix, split, equal_fold, has_suffix, trim, after_last,
}
use pgwarden.Go.Strconv.{ℤ, pos, less, exceeds}
use pgwarden.Rbac.{normalize_group_name, insert_name}

-- An item of a list of groups, and the value of a claim.
pub data Item : Type 0 where
  item_text : Bytes → Item
  item_other : Item

pub data Claim : Type 0 where
  text : Bytes → Claim
  number : ℤ → Claim
  flag : Bool → Claim
  items : List Item → Claim
  other : Claim

abbrev pub Claims : Type 0
Claims = List (Bytes × Claim)

unfoldable pub claim_of : Claims → Bytes → Claim
claim_of [] name = other
claim_of ((n, c) ∷ claims) name =
    let rest = claim_of claims name in if text_eq n name then c else rest

-- v, _ := claim.(string), and the like
abbrev pub text_of : Claim → Bytes
text_of (text s) = s
text_of _ = []

abbrev pub number_of : Claim → ℤ
number_of (number n) = n
number_of _ = pos 0

abbrev pub flag_of : Claim → Bool
flag_of (flag b) = b
flag_of _ = false

pub record Env : Type 0 where
  pub oidc_enabled : Bool
  pub oidc_issuer : Bytes
  pub api_oidc_client_ids : Bytes

abbrev add_client : Bytes → List Bytes → List Bytes
add_client [] allowed = allowed
add_client (c ∷ client) allowed = insert_name (c ∷ client) allowed

unfoldable pub add_clients : List Bytes → List Bytes → List Bytes
add_clients [] allowed = allowed
add_clients (part ∷ parts) allowed = add_clients parts (add_client (trim_space part) allowed)

-- apiAllowedClients
unfoldable pub api_allowed_clients : Env → List Bytes
unfolding split add_clients
api_allowed_clients env =
    let raw = trim_space env.api_oidc_client_ids in
    if is_empty raw then [] else add_clients (split b',' raw) []

-- apiBearerEnabled
pub api_bearer_enabled : Env → Bool
api_bearer_enabled env = env.oidc_enabled && not (is_empty (api_allowed_clients env))

-- strings.TrimSuffix(s, "/")
unfoldable pub trim_slash : Bytes → Bytes
trim_slash [] = []
trim_slash (c ∷ []) = if c == b'/' then [] else c ∷ []
trim_slash (c ∷ d ∷ s) = c ∷ trim_slash (d ∷ s)

pub record Runtime : Type 0 where
  pub issuer : Bytes
  pub allowed_clients : List Bytes

pub data AuthError : Type 0 where
  no_issuer no_clients invalid_issuer no_expiry expired not_yet_valid no_client : AuthError
  type_not_allowed : Bytes → AuthError
  client_not_allowed : Bytes → AuthError
  bad_signature : Bytes → AuthError
  bad_claims : Bytes → AuthError

-- bearerRuntime
pub bearer_runtime : Env → Result AuthError Runtime
bearer_runtime env = do
  let issuer = trim_slash env.oidc_issuer
  let allowed = api_allowed_clients env
  guard (not (is_empty issuer)) no_issuer
  guard (not (is_empty allowed)) no_clients
  ok (record { issuer = issuer; allowed_clients = allowed })

-- bearerTokenFromHeader
unfoldable pub bearer_token_from_header : Bytes → Bytes
bearer_token_from_header header =
    let value = trim_space header in
    if has_prefix value (codes "Bearer ")
    then trim_space (trim_prefix value (codes "Bearer "))
    else []

abbrev pub bearer_clock_skew : ℕ
bearer_clock_skew = 30

unfoldable pub is_zero : ℤ → Bool
is_zero (pos n) = n == 0
is_zero (ℤ.negsuc n) = false

-- azp, or else client_id
unfoldable pub client_of : Claims → Bytes
client_of claims =
    let azp = text_of (claim_of claims (codes "azp")) in
    if is_empty azp then text_of (claim_of claims (codes "client_id")) else azp

-- validateBearerClaims
unfoldable pub validate_bearer_claims : ℕ → Claims → Runtime → Result AuthError (Unit {0})
validate_bearer_claims now claims runtime = do
  let typ = text_of (claim_of claims (codes "typ"))
  let expiry = number_of (claim_of claims (codes "exp"))
  let not_before = number_of (claim_of claims (codes "nbf"))
  let client = client_of claims
  guard (text_eq (trim_slash (text_of (claim_of claims (codes "iss")))) runtime.issuer)
      invalid_issuer
  guard (is_empty typ || equal_fold typ (codes "Bearer")) (type_not_allowed typ)
  guard (not (is_zero expiry)) no_expiry
  guard (not (less expiry (now - bearer_clock_skew))) expired
  guard (is_zero not_before || not (exceeds not_before (now + bearer_clock_skew))) not_yet_valid
  guard (not (is_empty client)) no_client
  guard (any (text_eq client) runtime.allowed_clients) (client_not_allowed client)

-- `add` of GroupsFromClaims, with `seen`
abbrev add_normalized : Bytes → List Bytes → List Bytes
add_normalized [] seen = seen
add_normalized (c ∷ g) seen = insert_name (c ∷ g) seen

pub add_group : Bytes → List Bytes → List Bytes
add_group value seen = add_normalized (normalize_group_name value) seen

pub add_items : List Item → List Bytes → List Bytes
add_items [] seen = seen
add_items (item_text value ∷ rest) seen = add_items rest (add_group value seen)
add_items (item_other ∷ rest) seen = add_items rest seen

-- The switch on the type of the claim.
pub add_claim : Claim → List Bytes → List Bytes
add_claim (items values) seen = add_items values seen
add_claim (text value) seen = add_group value seen
add_claim _ seen = seen

-- GroupsFromClaims; Go returns the groups in any order
pub groups_from_claims : Claims → List Bytes
groups_from_claims claims =
    add_claim (claim_of claims (codes "group")) (add_claim (claim_of claims (codes "groups")) [])

pub record OidcClaims : Type 0 where
  pub email : Bytes
  pub email_verified : Bool
  pub name : Bytes
  pub preferred_user : Bytes
  pub groups : List Bytes

-- claimsFromMap
pub claims_from_map : Claims → OidcClaims
claims_from_map claims = record {
  email = text_of (claim_of claims (codes "email"));
  email_verified = flag_of (claim_of claims (codes "email_verified"));
  name = text_of (claim_of claims (codes "name"));
  preferred_user = text_of (claim_of claims (codes "preferred_username"));
  groups = groups_from_claims claims;
}

-- What the key set and the JSON decoder answer.
pub record Decoder : Type 0 where
  pub verify_signature : Bytes → Result Bytes Bytes
  pub unmarshal : Bytes → Result Bytes Claims

abbrev pub signed_or : Result Bytes Bytes → Result AuthError Bytes
signed_or (ok payload) = ok payload
signed_or (err e) = err (bad_signature e)

abbrev pub claims_or : Result Bytes Claims → Result AuthError Claims
claims_or (ok claims) = ok claims
claims_or (err e) = err (bad_claims e)

-- The token's user, once there is a token.
pub token_user : Env → Decoder → ℕ → Bytes → Result AuthError (Option OidcClaims)
token_user env decoder now token = do
  runtime ← bearer_runtime env
  payload ← signed_or (decoder.verify_signature token)
  claims ← claims_or (decoder.unmarshal payload)
  validate_bearer_claims now claims runtime
  ok (some (claims_from_map claims))

-- GetUserFromBearerToken; `ok none` is its false without an error
pub get_user_from_bearer_token : Env → Decoder → ℕ → Bytes → Result AuthError (Option OidcClaims)
get_user_from_bearer_token env decoder now header =
    let token = bearer_token_from_header header in
    if not (api_bearer_enabled env) || is_empty token
    then ok none
    else token_user env decoder now token
