-- ===== src/Auth/Gate.antt =====
-- internal/middleware/jwt.go, and POST /discovery/v1/scan behind it.
pub mod Guarded
use cafe_discovery.Base.{
  ℕ, Bool, true, false, not, ◌&&◌, Option, none, some, List, [], ◌∷◌, ◌==◌, is_nil, Text, codes,
  text_eq, if◌then◌else◌, Result, ok, err,
}
use cafe_discovery.Auth.{Claims, Codec, Keys, TokenError, verify_hybrid_jwt}
use cafe_discovery.Accept.{Answer, already_written, signed_in, Call}
use cafe_discovery.Accept.Post.{Handler, State, post_discovery_scan}

abbrev prepend : ℕ → List Text → List Text
prepend c [] = (c ∷ []) ∷ []
prepend c (word ∷ words) = (c ∷ word) ∷ words

-- strings.Split(s, " ")
unfoldable pub split_spaces : Text → List Text
split_spaces [] = [] ∷ []
split_spaces (c ∷ s) = let rest = split_spaces s in if c == b' ' then [] ∷ rest else prepend c rest

-- What the middleware does: the reason of a 401, or the locals that it stores before the next handler.
pub data Passage : Type 0 where
  missing_header bad_format bad_token no_user : Passage
  passed : ℕ → Text → Passage

-- The end of JWTMiddleware, from the answer of ValidateToken.
unfoldable pub admit : Result TokenError Claims → Passage
admit (err e) = bad_token
admit (ok c) = if c.user_id == 0 then no_user else passed c.user_id c.email

abbrev pub admit_words : Codec → Option Keys → ℕ → List Text → Passage
admit_words codec keys now (scheme ∷ token ∷ []) =
    if text_eq scheme (codes "Bearer")
    then admit (verify_hybrid_jwt codec keys now token)
    else bad_format
admit_words codec keys now _ = bad_format

-- JWTMiddleware
unfoldable pub jwt_middleware : Codec → Option Keys → ℕ → Text → Passage
jwt_middleware codec keys now auth_header =
    if is_nil auth_header
    then missing_header
    else admit_words codec keys now (split_spaces auth_header)

-- A request that comes to PostDiscoveryScanV1 through the middleware. A rejected one is answered
-- there.
unfoldable pub guarded_post :
    Codec → Option Keys → ℕ → Text → (P : Type 0) → Handler P → Call → State P → State P × Answer
guarded_post codec keys now auth_header P h call s =
    elim (jwt_middleware codec keys now auth_header) [
      | passed user email ↦ post_discovery_scan P h (record call { locals = signed_in user }) s
      | _ ↦ (s, already_written)
    ]
