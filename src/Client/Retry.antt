-- ===== src/Client/Retry.antt =====
-- internal/persistence/scanhttp/client.go: the two attempts of doJSON.
use cafe_discovery.Base.{
  Bool, true, false, not, ◌||◌, ◌≡◌, inl, inr, Option, arith, Text, if◌then◌else◌, Result, ok, err,
  Result-cases, Bool-cases,
}
use cafe_discovery.Client.{
  Server, ClientError, is_unavailable, HttpRequest, do_json_once, attempt, do_json,
}

module _ (R : Type 0) (server : Server R) where
  -- One request, and a second one where the first found the service unavailable.
  abbrev pub once_more :
      {A : Type 0}
      → A
      → (Text → Option A)
      → HttpRequest
      → R × Result ClientError A
      → R × Result ClientError A
  once_more blank read req (r, ok a) = (r, ok a)
  once_more blank read req (r, err e) =
      if is_unavailable e then do_json_once R server blank read req r else (r, err e)

  module _ {A : Type 0} (blank : A) (read : Text → Option A) (req : HttpRequest) where
    last_attempt :
        (idempotent : Bool) (last : Result ClientError A) (r : R)
        → attempt R server 1 idempotent blank read req last r
          ≡ do_json_once R server blank read req r
    unfolding attempt
    last_attempt idempotent last r =
        elim (Result-cases (do_json_once R server blank read req r).1) [
          | inl (a, e) ↦ ground (arith, e)
          | inr (x, e) ↦ elim (Bool-cases (not idempotent || not (is_unavailable x))) [
            | inl f ↦ ground (arith, e, f)
            | inr f ↦ ground (arith, e, f)
          ]
        ]

    -- A call that is not idempotent is one request; one that is is a second request exactly where the
    -- first failed as unavailable, and its result is that of the last request made.
    pub do_json-once_more :
        (r : R)
        → (do_json R server false blank read req r ≡ do_json_once R server blank read req r)
          × (do_json R server true blank read req r
              ≡ once_more blank read req (do_json_once R server blank read req r))
    unfolding do_json attempt
    do_json-once_more r =
        let (r1, res) = do_json_once R server blank read req r in
        (
          last_attempt false (ok blank) r,
          elim (Result-cases (do_json_once R server blank read req r).1) [
            | inl (a, e) ↦ ground (arith, e)
            | inr (x, e) ↦
                let again = last_attempt true (err x) (do_json_once R server blank read req r).0 in
                elim (Bool-cases (is_unavailable x)) [
                  | inl f ↦ ground (arith, e, f, again)
                  | inr f ↦ ground (arith, e, f)
                ]
          ],
        )
