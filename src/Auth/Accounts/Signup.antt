-- ===== src/Auth/Accounts/Signup.antt =====
-- A user who signed up can sign in, and the emails of the live accounts stay unique.
use cafe_discovery.Base.{
  ℕ, true, false, ◌≡◌, refl, sym, ap, ◌∙◌, ◌⊎◌, inl, inr, none, some, List, [], ◌∷◌, ◌++◌, arith,
  is_nil, any_of, Text, text_eq_iff, ok, Result-cases, Option-cases,
}
use cafe_discovery.Auth.{Codec, generate_token}
use cafe_discovery.Auth.Accounts.{
  Account, Services, Refusals, SignupRequest, AuthResponse, verify_turnstile_token, find_by_email,
  has_email, exists_by_email, create, validate_signup, new_account, register, authenticate,
  respond_with, signup, signin,
}

-- The parts of a sign-up that went through.
pub record IsRegistered (env : Services) (fresh_id : ℕ) (req : SignupRequest)
    (accounts : List Account) (user : Account) (accounts' : List Account) : Type 0 where
  pub hashed : env.hash_password req.password ≡ some user.password
  pub addressed : user.email ≡ req.email
  pub live : user.is_deleted ≡ false
  pub identified : user.id ≡ fresh_id
  pub email_given : is_nil req.email ≡ false
  pub password_given : is_nil req.password ≡ false
  pub unused : any_of (has_email user.email) accounts ≡ false
  pub appended : accounts' ≡ accounts ++ user ∷ []

validate_cases :
    (req : SignupRequest) (u : Unit {0})
    → validate_signup req ≡ ok u
    → (is_nil req.email ≡ false) × (is_nil req.password ≡ false)
unfolding validate_signup
validate_cases req u h = (ground (arith, h), ground (arith, h))

create_cases :
    (db : Refusals) (a : Account) (accounts accounts' : List Account)
    → create db a accounts ≡ ok accounts'
    → accounts' ≡ accounts ++ a ∷ []
unfolding create
create_cases db a accounts accounts' h = ground (arith, h)

IsRegistered-parts :
    (env : Services) (fresh_id : ℕ) (req : SignupRequest) (accounts rows : List Account)
    (hashed : Text) (plan : ℕ)
    → env.hash_password req.password ≡ some hashed
    → is_nil req.email ≡ false
    → is_nil req.password ≡ false
    → any_of (has_email req.email) accounts ≡ false
    → rows ≡ accounts ++ new_account fresh_id req.email hashed plan ∷ []
    → IsRegistered env fresh_id req accounts (new_account fresh_id req.email hashed plan) rows
IsRegistered-parts env fresh_id req accounts rows hashed plan c email_given password_given unused
      appended =
    record {
      hashed = c;
      addressed = refl;
      live = refl;
      identified = refl;
      email_given = email_given;
      password_given = password_given;
      unused = unused;
      appended = appended;
    }

pub register-IsRegistered :
    (env : Services) (db : Refusals) (fresh_id : ℕ) (req : SignupRequest)
    (accounts accounts' : List Account) (user : Account)
    → register env db fresh_id req accounts ≡ ok (user, accounts')
    → IsRegistered env fresh_id req accounts user accounts'
unfolding register exists_by_email
register-IsRegistered env db fresh_id req accounts accounts' user h =
    elim (Result-cases (verify_turnstile_token env req.turnstile_token)) [
      | inr (x, a) ↦ absurd (ground (arith, a, h))
      | inl (_, a) ↦ elim (Result-cases (validate_signup req)) [
        | inr (x, b) ↦ absurd (ground (arith, a, b, h))
        | inl (v, b) ↦ elim (Option-cases (env.hash_password req.password)) [
          | inl c ↦ absurd (ground (arith, a, b, c, h))
          | inr (hashed, c) ↦ elim (Option-cases env.free_plan) [
            | inl d ↦ absurd (ground (arith, a, b, c, d, h))
            | inr (none, d) ↦ absurd (ground (arith, a, b, c, d, h))
            | inr (some plan, d) ↦
                elim (Result-cases
                  (create db (new_account fresh_id req.email hashed plan) accounts)) [
                    | inr (x, e) ↦ absurd (ground (arith, a, b, c, d, e, h))
                    | inl (rows, e) ↦
                        let appended =
                          create_cases db (new_account fresh_id req.email hashed plan) accounts rows
                            e in
                        let unused : any_of (has_email req.email) accounts ≡ false =
                          ground (arith, a, b, h) in
                        let (email_given, password_given) = validate_cases req v b in
                        let same : new_account fresh_id req.email hashed plan ≡ user =
                          ground (arith, a, b, c, d, e, h) in
                        let same' : rows ≡ accounts' = ground (arith, a, b, c, d, e, h) in
                        rw same at (
                          rw same' at (
                            IsRegistered-parts env fresh_id req accounts rows hashed plan c
                              email_given password_given unused appended))
                  ]
          ]
        ]
      ]
    ]

-- No two accounts that are not deleted have the same email.
abbrev pub UniqueEmails : List Account → Type 0
UniqueEmails [] = Unit {0}
UniqueEmails (a ∷ accounts) =
    ((a.is_deleted ≡ true) ⊎ (any_of (has_email a.email) accounts ≡ false)) × UniqueEmails accounts

find-append :
    (accounts : List Account) (user : Account)
    → any_of (has_email user.email) accounts ≡ false
    → user.is_deleted ≡ false
    → find_by_email user.email (accounts ++ user ∷ []) ≡ some user
unfolding find_by_email
find-append [] user h live = ground (arith, live, text_eq_iff user.email user.email)
find-append (a ∷ accounts) user h live = ground (arith, h, find-append accounts user, live)

module _ (codec : Codec) where
  respond-user :
      (env : Services) (now : ℕ) (user : Account) (r : AuthResponse)
      → respond_with codec env now user ≡ ok r
      → user ≡ r.user
  respond-user env now user r h =
      elim (Result-cases (generate_token codec env.keys env.expiry now user.id user.email)) [
        | inr (x, a) ↦ absurd (ground (arith, a, h))
        | inl (token, a) ↦ ground (arith, a, h)
      ]

  signup_cases :
      (env : Services) (db : Refusals) (now fresh_id : ℕ) (req : SignupRequest)
      (accounts accounts' : List Account) (r : AuthResponse)
      → signup codec env db now fresh_id req accounts ≡ (accounts', ok r)
      → IsRegistered env fresh_id req accounts r.user accounts'
  unfolding signup
  signup_cases env db now fresh_id req accounts accounts' r h =
      elim (Result-cases (register env db fresh_id req accounts)) [
        | inr (x, a) ↦ absurd (ground (arith, a, h))
        | inl ((user, rows), a) ↦ elim (Result-cases (respond_with codec env now user)) [
          | inr (x, b) ↦ absurd (ground (arith, a, b, h))
          | inl (response, b) ↦
              let made = register-IsRegistered env db fresh_id req accounts rows user a in
              let same : response ≡ r = ground (arith, a, b, h) in
              let same_rows : rows ≡ accounts' = ground (arith, a, b, h) in
              let same_user : user ≡ r.user =
                respond-user env now user response b ∙ ap (λ x. x.user) same in
              rw same_user at (rw same_rows at made)
        ]
      ]

  -- A user who signed up can sign in with the same email and password, at any later time and under
  -- any other answer of the database that is no failure: the same account is found, with the id that
  -- sign-up gave it, and only the making of the token remains. A password is assumed to match its hash.
  pub signin-signup :
      (env : Services) (db db' : Refusals) (now later fresh_id : ℕ) (req : SignupRequest)
      (turnstile_token : Text) (accounts accounts' : List Account) (r : AuthResponse)
      → ((p h : Text) → env.hash_password p ≡ some h → env.check_password h p ≡ true)
      → signup codec env db now fresh_id req accounts ≡ (accounts', ok r)
      → verify_turnstile_token env turnstile_token ≡ ok tt
      → db'.find_fails ≡ false
      → (r.user.id ≡ fresh_id)
        × (signin codec env db' later
              (record {
                email = req.email;
                password = req.password;
                turnstile_token = turnstile_token;
              })
              accounts'
            ≡ respond_with codec env later r.user)
  unfolding signin authenticate
  signin-signup env db db' now later fresh_id req turnstile_token accounts accounts' r matches h
        known up =
      let made = signup_cases env db now fresh_id req accounts accounts' r h in
      let found : find_by_email req.email accounts' ≡ some r.user =
        rw (made.appended, sym made.addressed)
          (find-append accounts r.user made.unused made.live) in
      (
        made.identified,
        ground (
          arith,
          found,
          known,
          up,
          made.email_given,
          made.password_given,
          matches req.password r.user.password made.hashed,
        ),
      )
