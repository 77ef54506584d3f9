-- ===== src/Cache/Startup/Requests.antt =====
-- What the start requests, and what its poll leaves missing.
use cafe_discovery.Base.{
  ℕ, ◌+◌, Bool, true, not, ◌&&◌, ◌≡◌, refl, sym, ap, ◌∙◌, inl, inr, Option, List, [], ◌∷◌, arith,
  select, any_of, map, Text, Bool-cases,
}
use cafe_discovery.Cache.{Entry, Command}
use cafe_discovery.Cache.Startup.{
  DefaultEndpoint, ScanRequest, Tick, is_present, to_request, request_all, poll,
  initialize_default_endpoints,
}

module _ (R : Type 0) (marshal : R → Option Text) (unmarshal : Text → Option R)
    (faults : Command → Text → Bool) (accepts : Text → Bool) (new_uuid : ℕ → ℕ) where
  requested_lem :
      (n : ℕ) (urls : List Text)
      → map
          (λ (r : ScanRequest). r.endpoint)
          (request_all R marshal unmarshal faults accepts new_uuid n urls)
        ≡ select accepts urls
  unfolding request_all
  requested_lem n [] = refl
  requested_lem n (url ∷ urls) = elim (Bool-cases (accepts url)) [
    | inl e ↦ rw (e) (ap (λ r. url ∷ r) (requested_lem (n + 1) urls))
    | inr e ↦ rw (e) (requested_lem (n + 1) urls)
  ]

  abbrev pub is_seen : List Tick → Text → Bool
  is_seen ticks u =
      any_of (λ t. is_present R marshal unmarshal faults accepts new_uuid t.now t.entries u) ticks

  select_twice :
      (p q r : Text → Bool) (xs : List Text)
      → ((u : Text) → r u ≡ (q u && p u))
      → select p (select q xs) ≡ select r xs
  select_twice p q r [] h = refl
  select_twice p q r (x ∷ xs) h = ground (arith, select_twice p q r xs h, h x)

  select_every : (p : Text → Bool) (xs : List Text) → ((u : Text) → p u ≡ true) → select p xs ≡ xs
  select_every p [] h = refl
  select_every p (x ∷ xs) h = ground (arith, select_every p xs h, h x)

  poll_lem :
      (ticks : List Tick) (urls : List Text)
      → poll R marshal unmarshal faults accepts new_uuid ticks urls
        ≡ select (λ u. not (is_seen ticks u)) urls
  unfolding poll
  poll_lem [] urls = sym (select_every (λ u. not (is_seen [] u)) urls (λ u. refl))
  poll_lem (t ∷ ticks) [] = refl
  poll_lem (t ∷ ticks) (u ∷ urls) =
      poll_lem ticks (
        select (λ v. not (is_present R marshal unmarshal faults accepts new_uuid t.now t.entries v))
          (u ∷ urls))
      ∙ select_twice (λ v. not (is_seen ticks v))
          (λ v. not (is_present R marshal unmarshal faults accepts new_uuid t.now t.entries v))
          (λ v. not (is_seen (t ∷ ticks) v)) (u ∷ urls) (λ v. ground arith)

  missing_lem :
      (now : ℕ) (s : List Entry) (eps : List DefaultEndpoint)
      → to_request R marshal unmarshal faults accepts new_uuid now s eps
        ≡ select
            (λ u. not (is_present R marshal unmarshal faults accepts new_uuid now s u))
            (map (λ (ep : DefaultEndpoint). ep.url) eps)
  unfolding to_request
  missing_lem now s [] = refl
  missing_lem now s (ep ∷ eps) = ground (arith, missing_lem now s eps)

  -- At the start the endpoints that have no result in Redis are requested in their order, less those
  -- whose publication is refused, and no other; and the ones left missing at the end are those of
  -- them that had a result at none of the poll's ticks.
  pub initialize_lem :
      (eps : List DefaultEndpoint) (now : ℕ) (s : List Entry) (ticks : List Tick)
      (missing : List Text)
      → select
          (λ u. not (is_present R marshal unmarshal faults accepts new_uuid now s u))
          (map (λ (ep : DefaultEndpoint). ep.url) eps)
        ≡ missing
      → (map
            (λ (r : ScanRequest). r.endpoint)
            (initialize_default_endpoints R marshal unmarshal faults accepts new_uuid eps now s
              ticks).0
          ≡ select accepts missing)
        × ((initialize_default_endpoints R marshal unmarshal faults accepts new_uuid eps now s
              ticks).1
            ≡ select (λ u. not (is_seen ticks u)) missing)
  unfolding initialize_default_endpoints
  initialize_lem eps now s ticks [] h = rw (missing_lem now s eps, h) (refl, refl)
  initialize_lem eps now s ticks (u ∷ missing) h =
      rw (missing_lem now s eps, h) (requested_lem 0 (u ∷ missing), poll_lem ticks (u ∷ missing))
