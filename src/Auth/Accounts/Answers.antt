-- ===== src/Auth/Accounts/Answers.antt =====
-- internal/handler/auth.go: what an answer gives away, and which sessions it accepts.
use cafe_discovery.Base.{ℕ, false, ◌≡◌, inl, inr, none, some, List, arith, Result-cases}
use cafe_discovery.Auth.{Codec}
use cafe_discovery.Auth.Accounts.{
  Account, Services, Refusals, SigninRequest, verify_turnstile_token, find_by_email, authenticate,
  signin, signin_answer, post_signin,
}

module _ (codec : Codec) where
  -- Sign-in answers a wrong password as it answers an email without an account, so its answer does not
  -- tell whether an account exists.
  pub post_signin-hides_accounts :
      (env : Services) (db : Refusals) (now : ℕ) (req : SigninRequest)
      (without holding : List Account) (user : Account)
      → find_by_email req.email without ≡ none
      → find_by_email req.email holding ≡ some user
      → env.check_password user.password req.password ≡ false
      → post_signin codec env db now (some req) without
        ≡ post_signin codec env db now (some req) holding
  unfolding post_signin signin_answer signin authenticate
  post_signin-hides_accounts env db now req without holding user nobody found wrong =
      elim (Result-cases (verify_turnstile_token env req.turnstile_token)) [
        | inr (x, a) ↦ ground (arith, a)
        | inl (u, a) ↦ ground (arith, a, nobody, found, wrong)
      ]
