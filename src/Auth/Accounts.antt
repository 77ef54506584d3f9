-- ===== src/Auth/Accounts.antt =====
-- internal/service/auth.go and internal/handler/auth.go: sign-up and sign-in. bcrypt, the answer of
-- Cloudflare and the lookup of the free plan are parameters (`Services`); texts are lists of bytes.
pub mod Signup
pub mod Answers
use cafe_discovery.Base.{
  ℕ, Bool, true, false, not, ◌&&◌, ◌||◌, Option, none, some, List, [], ◌∷◌, ◌++◌, ltb, length,
  is_nil, any_of, Text, codes, text_eq, trim, if◌then◌else◌, Result, ok, err, guard, ◌>>=◌, ◌>>◌,
}
use cafe_discovery.Auth.{Claims, Codec, Keys, TokenError, generate_token, verify_hybrid_jwt}
use cafe_discovery.Authz.{ensure_request_id}

-- domain.User, as far as the service reads it.
pub record Account : Type 0 where
  pub id : ℕ
  pub email : Text
  pub password : Text
  pub plan_id : ℕ
  pub is_deleted : Bool

-- bcrypt, the lookup of the free plan (none for a failed query) and the Turnstile answer (none where
-- the request or its body failed).
pub record Services : Type 0 where
  pub hash_password : Text → Option Text
  pub check_password : Text → Text → Bool
  pub free_plan : Option (Option ℕ)
  pub turnstile_secret : Text
  pub site_verify : Text → Text → Option Bool
  pub keys : Option Keys
  pub expiry : ℕ

-- The statements on the users that the database can refuse.
pub record Refusals : Type 0 where
  pub find_fails : Bool
  pub create_fails : Account → List Account → Bool

pub data AccountError : Type 0 where
  turnstile_failed turnstile_unreachable passwords_differ email_required password_required
        password_short lookup_failed already_exists hash_failed plan_lookup_failed plan_missing
        create_failed user_not_found invalid_password :
      AccountError
  token_failed : TokenError → AccountError

pub record SignupRequest : Type 0 where
  pub turnstile_token : Text
  pub email : Text
  pub password : Text
  pub confirm_password : Text

pub record SigninRequest : Type 0 where
  pub email : Text
  pub password : Text
  pub turnstile_token : Text

pub record AuthResponse : Type 0 where
  pub token : Text
  pub user : Account

abbrev or_fail : {A : Type 0} → Option A → AccountError → Result AccountError A
or_fail none e = err e
or_fail (some a) e = ok a

abbrev from_token : {A : Type 0} → Result TokenError A → Result AccountError A
from_token (ok a) = ok a
from_token (err e) = err (token_failed e)

-- verifyTurnstileToken
unfoldable pub verify_turnstile_token : Services → Text → Result AccountError (Unit {0})
verify_turnstile_token env token =
    let dev_mode =
      is_nil env.turnstile_secret
      || text_eq env.turnstile_secret (codes "1x0000000000000000000000000000000AA") in
    if is_nil token
    then err turnstile_failed
    else if dev_mode
    then ok tt
    else (or_fail (env.site_verify env.turnstile_secret token) turnstile_unreachable >>= λ success.
        guard success turnstile_failed)

abbrev pub has_email : Text → Account → Bool
has_email email a = text_eq a.email email && not a.is_deleted

-- FindByEmail: the first live row.
unfoldable pub find_by_email : Text → List Account → Option Account
find_by_email email [] = none
find_by_email email (a ∷ accounts) =
    let rest = find_by_email email accounts in if has_email email a then some a else rest

-- ExistsByEmail
unfoldable pub exists_by_email : Text → List Account → Bool
exists_by_email email accounts = any_of (has_email email) accounts

abbrev pub same_email : Text → Account → Bool
same_email email a = text_eq a.email email

-- Create, with what the database refuses, as by the unique index on the email.
unfoldable pub create : Refusals → Account → List Account → Result AccountError (List Account)
create db a accounts = do
  guard (not (db.create_fails a accounts)) create_failed
  ok (accounts ++ a ∷ [])

-- The tests of Signup on its request, in their order.
unfoldable pub validate_signup : SignupRequest → Result AccountError (Unit {0})
validate_signup req = do
  guard (text_eq req.password req.confirm_password) passwords_differ
  guard (not (is_nil req.email)) email_required
  guard (not (is_nil req.password)) password_required
  guard (not (ltb (length req.password) 6)) password_short

abbrev pub new_account : ℕ → Text → Text → ℕ → Account
new_account fresh_id email hashed plan = record {
  id = fresh_id;
  email = email;
  password = hashed;
  plan_id = plan;
  is_deleted = false;
}

-- Signup up to the new row: the row and the rows after its insertion.
unfoldable pub register :
    Services
    → Refusals
    → ℕ
    → SignupRequest
    → List Account
    → Result AccountError (Account × List Account)
register env db fresh_id req accounts = do
  _ ← verify_turnstile_token env req.turnstile_token
  _ ← validate_signup req
  guard (not db.find_fails) lookup_failed
  guard (not (exists_by_email req.email accounts)) already_exists
  hashed ← or_fail (env.hash_password req.password) hash_failed
  found ← or_fail env.free_plan plan_lookup_failed
  plan ← or_fail found plan_missing
  accounts' ← create db (new_account fresh_id req.email hashed plan) accounts
  ok (new_account fresh_id req.email hashed plan, accounts')

-- Signin up to the token.
unfoldable pub authenticate :
    Services → Refusals → SigninRequest → List Account → Result AccountError Account
authenticate env db req accounts = do
  _ ← verify_turnstile_token env req.turnstile_token
  guard (not (is_nil req.email)) email_required
  guard (not (is_nil req.password)) password_required
  guard (not db.find_fails) lookup_failed
  user ← or_fail (find_by_email req.email accounts) user_not_found
  guard (env.check_password user.password req.password) invalid_password
  ok user

module _ (codec : Codec) where
  abbrev pub respond_with : Services → ℕ → Account → Result AccountError AuthResponse
  respond_with env now user =
      from_token (generate_token codec env.keys env.expiry now user.id user.email) >>= λ token.
      ok (record { token = token; user = user })

  -- Signup. The row stays where the token then fails.
  unfoldable pub signup :
      Services
      → Refusals
      → ℕ
      → ℕ
      → SignupRequest
      → List Account
      → List Account × Result AccountError AuthResponse
  signup env db now fresh_id req accounts = elim (register env db fresh_id req accounts) [
    | err e ↦ (accounts, err e)
    | ok (user, accounts') ↦ (accounts', respond_with env now user)
  ]

  -- Signin
  unfoldable pub signin :
      Services → Refusals → ℕ → SigninRequest → List Account → Result AccountError AuthResponse
  signin env db now req accounts = do
    user ← authenticate env db req accounts
    respond_with env now user

-- The body of an answer of the handlers.
pub data AuthBody : Type 0 where
  session : AuthResponse → AuthBody
  failure : AccountError → AuthBody
  invalid_request_body invalid_credentials : AuthBody

pub record AuthAnswer : Type 0 where
  pub status : ℕ
  pub body : AuthBody

abbrev reply : ℕ → AuthBody → AuthAnswer
reply status body = record { status = status; body = body }

abbrev signup_failure : AccountError → AuthAnswer
signup_failure already_exists = reply 409 (failure already_exists)
signup_failure e = reply 400 (failure e)

abbrev signin_failure : AccountError → AuthAnswer
signin_failure user_not_found = reply 401 invalid_credentials
signin_failure invalid_password = reply 401 invalid_credentials
signin_failure e = reply 400 (failure e)

-- The end of AuthHandler.Signup and of AuthHandler.Signin.
unfoldable pub signup_answer : Result AccountError AuthResponse → AuthAnswer
signup_answer (ok r) = reply 201 (session r)
signup_answer (err e) = signup_failure e

unfoldable pub signin_answer : Result AccountError AuthResponse → AuthAnswer
signin_answer (ok r) = reply 200 (session r)
signin_answer (err e) = signin_failure e

-- AuthHandler.Signup and AuthHandler.Signin; the body is none where it does not bind. The warming
-- of the scan cache after a sign-in, whose error is only logged, is left out.
unfoldable pub post_signup :
    Codec
    → Services
    → Refusals
    → ℕ
    → ℕ
    → Option SignupRequest
    → List Account
    → List Account × AuthAnswer
post_signup codec env db now fresh_id none accounts = (accounts, reply 400 invalid_request_body)
post_signup codec env db now fresh_id (some req) accounts =
    let (accounts', r) = signup codec env db now fresh_id req accounts in
    (accounts', signup_answer r)

unfoldable pub post_signin :
    Codec → Services → Refusals → ℕ → Option SigninRequest → List Account → AuthAnswer
post_signin codec env db now none accounts = reply 400 invalid_request_body
post_signin codec env db now (some req) accounts =
    signin_answer (signin codec env db now req accounts)

-- The answer of ValidateSessionForCPM.
pub record SessionAnswer : Type 0 where
  pub status : ℕ
  pub accepted : Bool
  pub claims : Option (ℕ × Text)
  pub request_id : Text

abbrev not_accepted : ℕ → Text → SessionAnswer
not_accepted status rid = record {
  status = status;
  accepted = false;
  claims = none;
  request_id = rid;
}

-- ValidateSessionForCPM, with the token of the body or none where the body is no JSON, and the keys of
-- the service or none where there is no service.
unfoldable pub validate_session :
    Codec → Option (Option Keys) → ℕ → Option (List ℕ) → Text → Option Text → SessionAnswer
validate_session codec service now random header none =
    not_accepted 400 (ensure_request_id random header)
validate_session codec service now random header (some token) =
    let rid = ensure_request_id random header in
    if is_nil (trim token) then not_accepted 400 rid else elim service [
      | none ↦ not_accepted 503 rid
      | some keys ↦ elim (verify_hybrid_jwt codec keys now (trim token)) [
        | err e ↦ not_accepted 401 rid
        | ok c ↦ record {
          status = 200;
          accepted = true;
          claims = some (c.user_id, c.email);
          request_id = rid;
        }
      ]
    ]
