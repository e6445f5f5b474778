-- ===== src/Auth/Bearer.antt =====
-- What is known of a user whom a bearer token lets in.
use pgwarden.Prelude.{
  ℕ, ◌+◌, ◌-◌, ◌≤◌, ◌≡◌, refl, sym, ap, subst, Bool, true, false, not, ◌||◌, some, Result, ok, err,
  ok_inj, some_inj, ok≢err, bind-ok, guard, Bytes, codes, text_eq, text_eq_iff, is_empty, any, inl,
  inr, Bool-cases, arith,
}
use pgwarden.Go.Strings.{equal_fold}
use pgwarden.Go.Strconv.{ℤ, pos, negsuc, less, exceeds}
use pgwarden.Auth.{
  Claims, claim_of, text_of, number_of, Env, Runtime, AuthError, no_issuer, no_clients,
  invalid_issuer, type_not_allowed, no_expiry, expired, not_yet_valid, no_client,
  client_not_allowed, Decoder, OidcClaims, signed_or, claims_or, trim_slash, is_zero, client_of,
  api_allowed_clients, api_bearer_enabled, bearer_runtime, bearer_token_from_header,
  bearer_clock_skew, validate_bearer_claims, claims_from_map, token_user,
  get_user_from_bearer_token,
}

-- A token's claims that the program accepts at this time: of its issuer, of no type or of the type of an
-- access token, not past its expiry nor before its start by more than the skew of the clocks, and given to
-- a client that may use the API.
pub record IsAccepted (now : ℕ) (claims : Claims) (runtime : Runtime) : Type 0 where
  pub issuer : trim_slash (text_of (claim_of claims (codes "iss"))) ≡ runtime.issuer
  pub access_token :
      (is_empty (text_of (claim_of claims (codes "typ")))
        || equal_fold (text_of (claim_of claims (codes "typ"))) (codes "Bearer"))
      ≡ true
  pub expiry : ℕ
  pub expires : number_of (claim_of claims (codes "exp")) ≡ pos expiry
  pub alive : now ≤ expiry + bearer_clock_skew
  pub started :
      (n : ℕ) → number_of (claim_of claims (codes "nbf")) ≡ pos n → n ≤ now + bearer_clock_skew
  pub has_client : is_empty (client_of claims) ≡ false
  pub may_call : any (text_eq (client_of claims)) runtime.allowed_clients ≡ true

guard-ok : (b : Bool) (e : AuthError) (u : Unit {0}) → guard b e ≡ ok u → b ≡ true
guard-ok true e u h = refl
guard-ok false e u h = absurd (ok≢err h)

not-true : (b : Bool) → not b ≡ true → b ≡ false
not-true true h = absurd (cc)
not-true false h = refl

alive_at :
    (now : ℕ) (n : ℤ)
    → not (less n (now - bearer_clock_skew)) ≡ true
    → (e : ℕ) × ((n ≡ pos e) × (now ≤ e + bearer_clock_skew))
alive_at now (pos e) h = (e, (refl, ground arith))
alive_at now (negsuc e) h = absurd (cc)

started_at :
    (now : ℕ) (m : ℤ)
    → (is_zero m || not (exceeds m (now + bearer_clock_skew))) ≡ true
    → (n : ℕ) → m ≡ pos n
    → n ≤ now + bearer_clock_skew
unfolding is_zero
started_at now (pos k) h n e =
    let pos_inj : k ≡ n = ap (λ (z : ℤ). pgwarden.Go.Strconv.pos_part z) e in
    subst (λ (j : ℕ). j ≤ now + bearer_clock_skew) pos_inj (ground arith)
started_at now (negsuc k) h n e = absurd (cc)

claims-IsAccepted :
    (now : ℕ) (claims : Claims) (runtime : Runtime)
    → validate_bearer_claims now claims runtime ≡ ok tt
    → IsAccepted now claims runtime
unfolding validate_bearer_claims
claims-IsAccepted now claims runtime h =
    let typ = text_of (claim_of claims (codes "typ")) in
    let exp = number_of (claim_of claims (codes "exp")) in
    let nbf = number_of (claim_of claims (codes "nbf")) in
    let client = client_of claims in
    let iss = trim_slash (text_of (claim_of claims (codes "iss"))) in
    let late = less exp (now - bearer_clock_skew) in
    let early = is_zero nbf || not (exceeds nbf (now + bearer_clock_skew)) in
    let (u1, (g1, h1)) = bind-ok (guard (text_eq iss runtime.issuer) invalid_issuer) _ tt h in
    let (u2, (g2, h2)) =
      bind-ok (guard (is_empty typ || equal_fold typ (codes "Bearer")) (type_not_allowed typ)) _ tt
        h1 in
    let (u3, (g3, h3)) = bind-ok (guard (not (is_zero exp)) no_expiry) _ tt h2 in
    let (u4, (g4, h4)) = bind-ok (guard (not late) expired) _ tt h3 in
    let (u5, (g5, h5)) = bind-ok (guard early not_yet_valid) _ tt h4 in
    let (u6, (g6, h6)) = bind-ok (guard (not (is_empty client)) no_client) _ tt h5 in
    let (e, (at, alive)) = alive_at now exp (guard-ok _ expired u4 g4) in
    record {
      issuer = (text_eq_iff iss runtime.issuer).0 (guard-ok _ invalid_issuer u1 g1);
      access_token = guard-ok _ (type_not_allowed typ) u2 g2;
      expiry = e;
      expires = at;
      alive = alive;
      started = started_at now nbf (guard-ok _ not_yet_valid u5 g5);
      has_client = not-true (is_empty client) (guard-ok _ no_client u6 g6);
      may_call = guard-ok _ (client_not_allowed client) tt h6;
    }

signed_or-ok : (r : Result Bytes Bytes) (p : Bytes) → signed_or r ≡ ok p → r ≡ ok p
signed_or-ok (ok x) p h = ap (λ (y : Bytes). ok y) (ok_inj h)
signed_or-ok (err e) p h = absurd (ok≢err h)

claims_or-ok : (r : Result Bytes Claims) (c : Claims) → claims_or r ≡ ok c → r ≡ ok c
claims_or-ok (ok x) c h = ap (λ (y : Claims). ok y) (ok_inj h)
claims_or-ok (err e) c h = absurd (ok≢err h)

runtime_of :
    (env : Env) (r : Runtime)
    → bearer_runtime env ≡ ok r
    → r ≡ record { issuer = trim_slash env.oidc_issuer; allowed_clients = api_allowed_clients env }
unfolding bearer_runtime
runtime_of env r h =
    let (u, (g, h1)) =
      bind-ok (guard (not (is_empty (trim_slash env.oidc_issuer))) no_issuer) _ r h in
    let (v, (k, h2)) =
      bind-ok (guard (not (is_empty (api_allowed_clients env))) no_clients) _ r h1 in
    sym (ok_inj h2)

-- Whom the token of a request lets in.
pub record IsLetIn (env : Env) (decoder : Decoder) (now : ℕ) (token : Bytes) (user : OidcClaims)
    : Type 0 where
  pub payload : Bytes
  pub signed : decoder.verify_signature token ≡ ok payload
  pub claims : Claims
  pub decoded : decoder.unmarshal payload ≡ ok claims
  pub accepted :
      IsAccepted now claims
        (record { issuer = trim_slash env.oidc_issuer; allowed_clients = api_allowed_clients env })
  pub as_claimed : user ≡ claims_from_map claims

token-IsLetIn :
    (env : Env) (decoder : Decoder) (now : ℕ) (token : Bytes) (user : OidcClaims)
    → token_user env decoder now token ≡ ok (some user)
    → IsLetIn env decoder now token user
unfolding token_user
token-IsLetIn env decoder now token user h =
    let (r, (ran, h1)) = bind-ok (bearer_runtime env) _ (some user) h in
    let (payload, (signed, h2)) =
      bind-ok (signed_or (decoder.verify_signature token)) _ (some user) h1 in
    let (claims, (decoded, h3)) =
      bind-ok (claims_or (decoder.unmarshal payload)) _ (some user) h2 in
    let (u, (valid, h4)) = bind-ok (validate_bearer_claims now claims r) _ (some user) h3 in
    record {
      payload = payload;
      signed = signed_or-ok _ payload signed;
      claims = claims;
      decoded = claims_or-ok _ claims decoded;
      accepted =
          subst (IsAccepted now claims) (runtime_of env r ran)
            (claims-IsAccepted now claims r valid);
      as_claimed = sym (some_inj (ok_inj h4));
    }

-- A request that is let in by a bearer token comes with a token whose signature the issuer's keys confirm
-- and whose claims are accepted: they name the configured issuer, are not those of a refresh token, hold
-- at this time, and name a client of the configured list. The user is the one of those claims. And the API
-- takes bearer tokens only if OpenID Connect is on.
pub bearer_user_is_valid :
    (env : Env) (decoder : Decoder) (now : ℕ) (header : Bytes) (user : OidcClaims)
    → get_user_from_bearer_token env decoder now header ≡ ok (some user)
    → (env.oidc_enabled ≡ true) × IsLetIn env decoder now (bearer_token_from_header header) user
unfolding get_user_from_bearer_token api_bearer_enabled
bearer_user_is_valid env decoder now header user h =
    let token = bearer_token_from_header header in
    let off = not (api_bearer_enabled env) || is_empty token in
    elim (Bool-cases off) [
      | inl nobody ↦ absurd (let no = rw nobody at h in cc)
      | inr somebody ↦
          let taken = rw somebody at h in
          (ground (arith, somebody), token-IsLetIn env decoder now token user taken)
    ]
