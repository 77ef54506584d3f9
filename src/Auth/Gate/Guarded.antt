-- ===== src/Auth/Gate/Guarded.antt =====
-- Whose requests reach the handlers behind the middleware.
use cafe_discovery.Base.{
  ℕ, true, false, ◌≡◌, refl, sym, ap, ◌∙◌, ◌⊎◌, inl, inr, some, List, [], ◌∷◌, ◌++◌, arith, ◌==◌,
  ==_iff, is_nil, Text, codes, text_eq, text_eq_iff, Result, ok, err, Bool-cases,
}
use cafe_discovery.Auth.{Claims, Codec, Keys, TokenError, verify_hybrid_jwt}
use cafe_discovery.Auth.Hybrid.{IsHybrid, verify-IsHybrid}
use cafe_discovery.Auth.Gate.{
  split_spaces, prepend, Passage, missing_header, bad_format, bad_token, no_user, passed, admit,
  admit_words, jwt_middleware, guarded_post,
}
use cafe_discovery.Accept.{Family, signed_in, Call, get_authenticated_user_id}
use cafe_discovery.Accept.Post.{Handler, State, post_discovery_scan}
use cafe_discovery.Accept.Paths.{is_accepted}
use cafe_discovery.Accept.Outcome.{caller, accepted-queued}

-- The token of a header that has the form of a bearer token.
abbrev pub bearer : Text → Text
bearer token = codes "Bearer " ++ token

join : List Text → Text
join [] = []
join (word ∷ []) = word
join (word ∷ more ∷ words) = word ++ (b' ' ∷ join (more ∷ words))

join-prepend : (c : ℕ) (words : List Text) → join (prepend c words) ≡ c ∷ join words
unfolding join
join-prepend c [] = refl
join-prepend c (word ∷ []) = refl
join-prepend c (word ∷ more ∷ words) = refl

join_empty : (words : List Text) → is_nil words ≡ false → join ([] ∷ words) ≡ b' ' ∷ join words
unfolding join
join_empty [] h = absurd (ground (arith, h))
join_empty (word ∷ words) h = refl

prepend_some : (c : ℕ) (words : List Text) → is_nil (prepend c words) ≡ false
prepend_some c [] = refl
prepend_some c (word ∷ words) = refl

split_some : (s : Text) → is_nil (split_spaces s) ≡ false
unfolding split_spaces
split_some [] = refl
split_some (c ∷ s) = elim (Bool-cases (c == b' ')) [
  | inl e ↦ rw (e) refl
  | inr e ↦ rw (e) (prepend_some c (split_spaces s))
]

-- Splitting loses nothing.
join-split : (s : Text) → join (split_spaces s) ≡ s
unfolding split_spaces join
join-split [] = refl
join-split (c ∷ s) = elim (Bool-cases (c == b' ')) [
  | inl e ↦
      let blank : c ≡ b' ' = (==_iff c b' ').0 e in
      rw (e) (
        join_empty (split_spaces s) (split_some s)
        ∙ ap (λ t. b' ' ∷ t) (join-split s)
        ∙ ap (λ d. d ∷ s) (sym blank))
  | inr e ↦ rw (e) (join-prepend c (split_spaces s) ∙ ap (λ t. c ∷ t) (join-split s))
]

join-bearer : (token : Text) → join (codes "Bearer" ∷ token ∷ []) ≡ bearer token
unfolding join
join-bearer token = refl

module _ (codec : Codec) (keys : Keys) where
  admit_lem :
      (r : Result TokenError Claims) (user : ℕ) (email : Text)
      → admit r ≡ passed user email
      → (c : Claims) × (r ≡ ok c) × (c.user_id ≡ user) × (c.email ≡ email) × ((user == 0) ≡ false)
  unfolding admit
  admit_lem (err e) user email h = absurd (ground (arith, h))
  admit_lem (ok c) user email h = (c, refl, ground (arith, h), ground (arith, h), ground (arith, h))

  words_lem :
      (now : ℕ) (words : List Text) (user : ℕ) (email : Text)
      → admit_words codec (some keys) now words ≡ passed user email
      → (token : Text) × (words ≡ codes "Bearer" ∷ token ∷ [])
        × (admit (verify_hybrid_jwt codec (some keys) now token) ≡ passed user email)
  words_lem now [] user email h = absurd (ground (arith, h))
  words_lem now (scheme ∷ []) user email h = absurd (ground (arith, h))
  words_lem now (scheme ∷ token ∷ more ∷ words) user email h = absurd (ground (arith, h))
  words_lem now (scheme ∷ token ∷ []) user email h =
      elim (Bool-cases (text_eq scheme (codes "Bearer"))) [
        | inr e ↦ absurd (ground (arith, e, h))
        | inl e ↦ (
          token,
          ap (λ w. w ∷ token ∷ []) ((text_eq_iff scheme (codes "Bearer")).0 e),
          ground (arith, e, h),
        )
      ]

  -- The middleware lets a request through only with a header that is `Bearer`, a space and a token
  -- which carries both signatures and is unexpired; the locals it stores are the token's own user, who
  -- is not nil, and email.
  pub passed-IsHybrid :
      (now : ℕ) (auth_header : Text) (user : ℕ) (email : Text)
      → jwt_middleware codec (some keys) now auth_header ≡ passed user email
      → (token : Text) × (c : Claims) × (auth_header ≡ bearer token)
        × IsHybrid codec keys now token c
        × (c.user_id ≡ user)
        × (c.email ≡ email)
        × ((user == 0) ≡ false)
  unfolding jwt_middleware
  passed-IsHybrid now auth_header user email h = elim (Bool-cases (is_nil auth_header)) [
    | inl e ↦ absurd (ground (arith, e, h))
    | inr e ↦
        let (token, split, admitted) =
          words_lem now (split_spaces auth_header) user email (ground (arith, e, h)) in
        let (c, valid, same, same_email, somebody) =
          admit_lem (verify_hybrid_jwt codec (some keys) now token) user email admitted in
        (
          token,
          c,
          sym (join-split auth_header) ∙ ap join split ∙ join-bearer token,
          verify-IsHybrid codec keys now token c valid,
          same,
          same_email,
          somebody,
        )
  ]

  admitted_caller :
      (P : Type 0) (call : Call) (user : ℕ)
      → (user == 0) ≡ false
      → caller P (record call { locals = signed_in user }) ≡ user
  unfolding get_authenticated_user_id
  admitted_caller P call user somebody = ground (arith, somebody)

  passage_cases :
      (p : Passage)
      → ((user : ℕ) × (email : Text) × (p ≡ passed user email))
        ⊎ ((p ≡ missing_header) ⊎ ((p ≡ bad_format) ⊎ ((p ≡ bad_token) ⊎ (p ≡ no_user))))
  passage_cases (passed user email) = inl (user, email, refl)
  passage_cases missing_header = inr (inl refl)
  passage_cases bad_format = inr (inr (inl refl))
  passage_cases bad_token = inr (inr (inr (inl refl)))
  passage_cases no_user = inr (inr (inr (inr refl)))

  guarded_cases :
      (now : ℕ) (auth_header : Text) (P : Type 0) (h : Handler P) (call : Call) (s : State P)
      → is_accepted (guarded_post codec (some keys) now auth_header P h call s).1 ≡ true
      → (user : ℕ) × (email : Text) × (jwt_middleware codec (some keys) now auth_header
          ≡ passed user email)
        × (guarded_post codec (some keys) now auth_header P h call s
            ≡ post_discovery_scan P h (record call { locals = signed_in user }) s)
  unfolding guarded_post
  guarded_cases now auth_header P h call s yes_scan =
      elim (passage_cases (jwt_middleware codec (some keys) now auth_header)) [
        | inl (user, email, e) ↦ (user, email, e, rw (e, guarded_post) refl)
        | inr (inl e) ↦ absurd (ground (arith, e, yes_scan))
        | inr (inr (inl e)) ↦ absurd (ground (arith, e, yes_scan))
        | inr (inr (inr (inl e))) ↦ absurd (ground (arith, e, yes_scan))
        | inr (inr (inr (inr e))) ↦ absurd (ground (arith, e, yes_scan))
      ]

  -- Behind the middleware, a scan request is accepted only with a token that carries both signatures
  -- and is unexpired, and the one message that it puts on the work queue is for that token's user, who
  -- is not nil.
  pub guarded_post-IsHybrid :
      (now : ℕ) (auth_header : Text) (P : Type 0) (h : Handler P) (call : Call) (s : State P)
      → is_accepted (guarded_post codec (some keys) now auth_header P h call s).1 ≡ true
      → (token : Text) × (c : Claims) × (family : Family) × (target : Text) × (auth_header
          ≡ bearer token)
        × IsHybrid codec keys now token c
        × ((c.user_id == 0) ≡ false)
        × ((guarded_post codec (some keys) now auth_header P h call s).0.stream
            ≡ s.stream
              ++ (record {
                scan_id = call.scan_id;
                user_id = c.user_id;
                family = family;
                target = target;
              })
                ∷ [])
  guarded_post-IsHybrid now auth_header P h call s yes_scan =
      let (user, email, through, same) = guarded_cases now auth_header P h call s yes_scan in
      let (token, c, form, hybrid, owner, _, somebody) =
        passed-IsHybrid now auth_header user email through in
      let (family, target, _, _, sent, _) =
        accepted-queued P h (record call { locals = signed_in user }) s (rw same at yes_scan) in
      (
        token,
        c,
        family,
        target,
        form,
        hybrid,
        rw (owner) somebody,
        rw (same, owner) (rw (admitted_caller P call user somebody) at sent),
      )
