-- ===== src/Auth/Tests.antt =====
-- The token of a client that may use the API.
use pgwarden.Prelude.{◌≡◌, refl, true, some, ok, err, [], ◌∷◌, codes, text_eq}
use pgwarden.Go.Strings.{
  is_space, trim, trim_left, trim_right, trim_space, has_prefix, trim_prefix, split, to_lower,
  equal_fold, contains, after_last,
}
use pgwarden.Go.Strconv.{pos}
use pgwarden.Rbac.{normalize_group_name, insert_name}
use pgwarden.Auth.{
  Claims, text, number, items, item_text, Env, Decoder, OidcClaims, expired, claim_of, add_clients,
  api_allowed_clients, api_bearer_enabled, trim_slash, bearer_runtime, bearer_token_from_header,
  is_zero, client_of, validate_bearer_claims, add_group, add_items, add_claim, groups_from_claims,
  claims_from_map, token_user, get_user_from_bearer_token,
}
use pgwarden.Auth.Bearer.{IsLetIn, bearer_user_is_valid}

abbrev settings : Env
settings = record {
  oidc_enabled = true;
  oidc_issuer = codes "https://id/";
  api_oidc_client_ids = codes "ci, ui";
}

abbrev token_claims : Claims
token_claims =
    (codes "iss", text (codes "https://id"))
    ∷ (codes "exp", number (pos 1000))
    ∷ (codes "azp", text (codes "ui"))
    ∷ (codes "groups", items (item_text (codes "/team/ops") ∷ []))
    ∷ []

abbrev decoder : Decoder
decoder = record { verify_signature = λ token. ok token; unmarshal = λ payload. ok token_claims }

abbrev user : OidcClaims
user = claims_from_map token_claims

lets_in : get_user_from_bearer_token settings decoder 1030 (codes "Bearer t") ≡ ok (some user)
unfolding get_user_from_bearer_token token_user api_bearer_enabled api_allowed_clients add_clients
    insert_name bearer_runtime bearer_token_from_header trim_slash validate_bearer_claims claim_of
    client_of is_zero is_space trim trim_left trim_right trim_space has_prefix trim_prefix split
    to_lower equal_fold text_eq
lets_in = refl

too_late : get_user_from_bearer_token settings decoder 1031 (codes "Bearer t") ≡ err expired
unfolding get_user_from_bearer_token token_user api_bearer_enabled api_allowed_clients add_clients
    insert_name bearer_runtime bearer_token_from_header trim_slash validate_bearer_claims claim_of
    client_of is_zero is_space trim trim_left trim_right trim_space has_prefix trim_prefix split
    to_lower equal_fold text_eq
too_late = refl

ops : groups_from_claims token_claims ≡ codes "ops" ∷ []
unfolding groups_from_claims add_claim add_items add_group claim_of normalize_group_name insert_name
    is_space trim trim_left trim_right trim_space after_last contains text_eq
ops = refl

bearer_user_is_valid_example :
    (settings.oidc_enabled ≡ true)
    × IsLetIn settings decoder 1030 (bearer_token_from_header (codes "Bearer t")) user
bearer_user_is_valid_example =
    bearer_user_is_valid settings decoder 1030 (codes "Bearer t") user lets_in
