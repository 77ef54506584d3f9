-- ===== src/Auth/Tests.antt =====
-- Runs of sign-up, sign-in and the tokens, with a codec that ends each text by a zero, and with keys
-- whose signature of a message is the message.
use cafe_discovery.Base.{
  any_of, ℕ, zero, suc, true, false, ◌≡◌, refl, ap, ◌∙◌, Option, none, some, List, [], ◌∷◌, ◌++◌,
  arith, ◌==◌, Text, codes, text_eq, text_eq_iff, ok,
}
use cafe_discovery.Auth.{
  Claims, JwsHeader, JwsSignature, JwsJson, Codec, Keys, session_claims, generate_token,
  verify_hybrid_jwt, mint_hybrid_jwt, hybrid_jws, signing_input, protect, pqc_header,
}
use cafe_discovery.Auth.Accounts.{
  Account, Services, Refusals, SignupRequest, SigninRequest, AuthResponse, verify_turnstile_token,
  find_by_email, exists_by_email, same_email, create, validate_signup, register, respond_with,
  signup, signin, post_signin,
}
use cafe_discovery.Auth.Accounts.Signup.{signin-signup}
use cafe_discovery.Auth.Accounts.Answers.{post_signin-hides_accounts}
use cafe_discovery.Auth.Gate.{jwt_middleware, split_spaces, admit, passed, guarded_post}
use cafe_discovery.Auth.Gate.Guarded.{bearer, guarded_post-IsHybrid}
use cafe_discovery.Accept.{Family}
use cafe_discovery.Accept.Paths.{is_accepted}
use cafe_discovery.Accept.Tests.{Kept, handler, request, start, post_accepted}
use cafe_discovery.Auth.Hybrid.{IsHybrid}
use cafe_discovery.Auth.Sessions.{IsCodec, IsSigner, verify-generate}

-- A list of texts as one text: each character one up, and a zero at the end of each text.
unfoldable pub put_text : Text → Text → Text
put_text [] rest = 0 ∷ rest
put_text (c ∷ s) rest = suc c ∷ put_text s rest

unfoldable pub write_texts : List Text → Text
unfolding put_text
write_texts [] = []
write_texts (s ∷ ss) = put_text s (write_texts ss)

unfoldable pub prefix_char : ℕ → List Text → List Text
prefix_char c [] = []
prefix_char c (s ∷ ss) = (c ∷ s) ∷ ss

unfoldable pub read_texts : Text → List Text
unfolding prefix_char
read_texts [] = []
read_texts (zero ∷ r) = [] ∷ read_texts r
read_texts (suc c ∷ r) = prefix_char c (read_texts r)

read-put_text : (s rest : Text) → read_texts (put_text s rest) ≡ s ∷ read_texts rest
unfolding read_texts put_text
read-put_text [] rest = refl
read-put_text (c ∷ s) rest = ap (prefix_char c) (read-put_text s rest)

read-write_texts : (ss : List Text) → read_texts (write_texts ss) ≡ ss
unfolding write_texts read_texts
read-write_texts [] = refl
read-write_texts (s ∷ ss) = read-put_text s (write_texts ss) ∙ ap (λ r. s ∷ r) (read-write_texts ss)

abbrev of_instant : Option ℕ → Text
of_instant none = []
of_instant (some n) = n ∷ []

abbrev to_instant : Text → Option ℕ
to_instant [] = none
to_instant (n ∷ s) = some n

abbrev to_claims : List Text → Option Claims
to_claims ((id ∷ _) ∷ email ∷ e ∷ i ∷ n ∷ _) = some (record {
  user_id = id;
  email = email;
  expires_at = to_instant e;
  issued_at = to_instant i;
  not_before = to_instant n;
})
to_claims _ = none

abbrev to_header : List Text → Option JwsHeader
to_header (a ∷ t ∷ k ∷ crit) = some (record { alg = a; typ = t; kid = k; crit = crit })
to_header _ = none

abbrev of_signatures : List JwsSignature → List Text
of_signatures [] = []
of_signatures (x ∷ xs) = x.protected ∷ x.signature ∷ of_signatures xs

abbrev to_signatures : List Text → List JwsSignature
to_signatures (p ∷ s ∷ ss) = (record { protected = p; signature = s }) ∷ to_signatures ss
to_signatures _ = []

abbrev to_jws : List Text → Option JwsJson
to_jws [] = none
to_jws (p ∷ ss) = some (record { payload = p; signatures = to_signatures ss })

abbrev pub codec : Codec
codec = record {
  b64u_encode = λ s. s;
  b64u_decode = λ s. some s;
  marshal_claims = λ c. write_texts (
      (c.user_id ∷ [])
      ∷ c.email
      ∷ of_instant c.expires_at
      ∷ of_instant c.issued_at
      ∷ of_instant c.not_before
      ∷ []);
  unmarshal_claims = λ s. to_claims (read_texts s);
  marshal_header = λ h. write_texts (h.alg ∷ h.typ ∷ h.kid ∷ h.crit);
  unmarshal_header = λ s. to_header (read_texts s);
  marshal_jws = λ j. write_texts (j.payload ∷ of_signatures j.signatures);
  unmarshal_jws = λ s. to_jws (read_texts s);
  numeric_date = λ t. t;
}

abbrev pub keys : Keys
keys = record {
  ed_sign = λ m. m;
  ed_verify = λ m s. text_eq m s;
  pqc_sign = λ m. some m;
  pqc_verify = λ m s. some (text_eq m s);
}

instants : (o : Option ℕ) → to_instant (of_instant o) ≡ o
instants none = refl
instants (some n) = refl

signatures_back : (xs : List JwsSignature) → to_signatures (of_signatures xs) ≡ xs
signatures_back [] = refl
signatures_back (x ∷ xs) = ap (λ ys. x ∷ ys) (signatures_back xs)

codec-IsCodec : IsCodec codec
unfolding write_texts put_text
codec-IsCodec = record {
  b64u_roundtrip = λ s. refl;
  claims_roundtrip = λ c.
      rw (read-write_texts, instants c.expires_at, instants c.issued_at, instants c.not_before)
        refl;
  header_roundtrip = λ h. rw (read-write_texts) refl;
  jws_roundtrip = λ j. rw (read-write_texts, signatures_back) refl;
  claims_written = λ c. refl;
}

keys-IsSigner : IsSigner keys
keys-IsSigner = record {
  ed_correct = λ m. (text_eq_iff m m).1 refl;
  pqc_correct = λ m s h. ap some ((text_eq_iff m s).1 (ground (arith, h)));
}

abbrev email : Text
email = codes "a@b"

abbrev claims : Claims
claims = record {
  user_id = 7;
  email = email;
  expires_at = some 65;
  issued_at = some 5;
  not_before = some 5;
}

abbrev payload : Text
payload = codec.b64u_encode (codec.marshal_claims claims)

-- The token of user 7, issued at 5 for 60.
abbrev token : Text
token = codec.b64u_encode (
    codec.marshal_jws
      (hybrid_jws codec keys payload (signing_input (protect codec pqc_header) payload)))

token_issued : generate_token codec (some keys) 60 5 7 email ≡ ok token
unfolding generate_token mint_hybrid_jwt session_claims
token_issued = refl

same_claims : session_claims codec 60 5 7 email ≡ claims
unfolding session_claims
same_claims = refl

verify-generate_example :
    verify_hybrid_jwt codec (some keys) 60 token ≡ ok (session_claims codec 60 5 7 email)
verify-generate_example =
    verify-generate codec keys codec-IsCodec keys-IsSigner 60 5 60 7 email token token_issued
      (ground (arith))

verified : verify_hybrid_jwt codec (some keys) 60 token ≡ ok claims
verified =
    verify-generate codec keys codec-IsCodec keys-IsSigner 60 5 60 7 email token token_issued
      (ground (arith))
    ∙ ap ok same_claims

abbrev env : Services
env = record {
  hash_password = λ p. some p;
  check_password = λ h p. text_eq h p;
  free_plan = some (some 1);
  turnstile_secret = [];
  site_verify = λ secret t. none;
  keys = some keys;
  expiry = 60;
}

abbrev db : Refusals
db = record {
  find_fails = false;
  create_fails = λ a accounts. any_of (same_email a.email) accounts;
}

abbrev signup_request : SignupRequest
signup_request = record {
  turnstile_token = codes "t";
  email = email;
  password = codes "secret";
  confirm_password = codes "secret";
}

abbrev signin_request : SigninRequest
signin_request = record { email = email; password = codes "secret"; turnstile_token = codes "t" }

abbrev wrong_request : SigninRequest
wrong_request = record signin_request { password = codes "wrong" }

abbrev account : Account
account = record {
  id = 7;
  email = email;
  password = codes "secret";
  plan_id = 1;
  is_deleted = false;
}

abbrev response : AuthResponse
response = record { token = token; user = account }

signed_up : signup codec env db 5 7 signup_request [] ≡ (account ∷ [], ok response)
unfolding signup register verify_turnstile_token validate_signup exists_by_email create
    generate_token mint_hybrid_jwt session_claims text_eq
signed_up = refl

turnstile_passes : verify_turnstile_token env (codes "t") ≡ ok tt
unfolding verify_turnstile_token
turnstile_passes = refl

hash_matches : (p h : Text) → env.hash_password p ≡ some h → env.check_password h p ≡ true
hash_matches p h e = (text_eq_iff h p).1 (ground (arith, e))

signin-signup_example :
    (account.id ≡ 7)
    × (signin codec env db 9 signin_request (account ∷ []) ≡ respond_with codec env 9 account)
signin-signup_example =
    signin-signup codec env db db 5 9 7 signup_request (codes "t") [] (account ∷ []) response
      hash_matches signed_up turnstile_passes refl

passwords_differ : env.check_password account.password wrong_request.password ≡ false
unfolding text_eq
passwords_differ = refl

no_account : find_by_email email [] ≡ none
unfolding find_by_email
no_account = refl

one_account : find_by_email email (account ∷ []) ≡ some account
unfolding find_by_email text_eq
one_account = refl

post_signin-hides_accounts_example :
    post_signin codec env db 9 (some wrong_request) []
    ≡ post_signin codec env db 9 (some wrong_request) (account ∷ [])
post_signin-hides_accounts_example =
    post_signin-hides_accounts codec env db 9 wrong_request [] (account ∷ []) account no_account
      one_account passwords_differ

admitted : jwt_middleware codec (some keys) 60 (bearer token) ≡ passed 7 email
unfolding jwt_middleware split_spaces admit text_eq write_texts hybrid_jws signing_input
admitted = rw (verified, jwt_middleware) refl

passes_gate :
    is_accepted (guarded_post codec (some keys) 60 (bearer token) Kept handler request start).1
    ≡ true
unfolding guarded_post
passes_gate = rw (admitted, guarded_post) post_accepted

guarded_post-IsHybrid_example :
    (t : Text) × (c : Claims) × (family : Family) × (target : Text) × (bearer token ≡ bearer t)
    × IsHybrid codec keys 60 t c
    × ((c.user_id == 0) ≡ false)
    × ((guarded_post codec (some keys) 60 (bearer token) Kept handler request start).0.stream
        ≡ []
          ++ (record { scan_id = 9; user_id = c.user_id; family = family; target = target }) ∷ [])
guarded_post-IsHybrid_example =
    guarded_post-IsHybrid codec keys 60 (bearer token) Kept handler request start passes_gate
