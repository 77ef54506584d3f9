-- ===== src/Authz/Tests.antt =====
-- Runs of the internal scan authorization: user 7 asks for the wallet scan 9, which is theirs.
use cafe_discovery.Base.{
  ℕ, false, true, ◌≡◌, refl, inl, Option, none, some, List, [], ◌∷◌, Text, codes, has_prefix,
  text_eq, trim, trim_left, trim_right, is_space, to_lower, ◌==◌, if◌then◌else◌,
}
use cafe_discovery.Ledger.Tables.{WalletRow, Db}
use cafe_discovery.Authz.{
  find_wallet, Outages, Request, respond, service_authenticated, serve, reason_allowed,
  ensure_request_id,
}
use cafe_discovery.Authz.Decisions.{CanRead, serve_allowed, serve-CanRead}

-- The ids 7 and 9 as texts, and nothing else, parse.
abbrev parse_id : Text → Option ℕ
parse_id (c ∷ []) = if c == b'7' then some 7 else if c == b'9' then some 9 else none
parse_id _ = none

abbrev row : WalletRow
row = record { id = 9; user_id = 7; status = "SUCCESS"; is_deleted = false }

abbrev tables : Db
tables = record { events = []; wallets = row ∷ []; endpoints = [] }

abbrev up : Outages
up = record { wallets_down = false; endpoints_down = false }

abbrev token : Text
token = codes "t0k"

abbrev question : Request
question = record {
  authorization = codes "Bearer t0k";
  user_header = codes " 7";
  tenant_header = [];
  request_header = codes "r-1";
  scan_param = codes "9";
}

known : service_authenticated token question.authorization ≡ true
unfolding service_authenticated trim trim_left trim_right is_space to_lower has_prefix text_eq
known = refl

found : find_wallet 9 tables.wallets ≡ some row
unfolding find_wallet
found = refl

abbrev may_read : CanRead tables (some 7) 9
may_read = inl (row, found, refl)

trimmed_user : trim (trim question.user_header) ≡ codes "7"
unfolding trim trim_left trim_right is_space
trimmed_user = refl

trimmed_scan : trim (trim question.scan_param) ≡ codes "9"
unfolding trim trim_left trim_right is_space
trimmed_scan = refl

served :
    serve parse_id token true up tables none question
    ≡ respond 200 true reason_allowed (ensure_request_id none question.request_header)
served =
    serve-CanRead parse_id token up tables none question 9 known refl refl (rw (trimmed_user) refl)
      (rw (trimmed_scan) refl) (rw (trimmed_scan) refl) (rw (trimmed_user) may_read)

serve_allowed_example :
    ((serve parse_id token true up tables none question).status ≡ 200)
    × (service_authenticated token question.authorization ≡ true)
    × (true ≡ true)
    × (id : ℕ) × (parse_id (trim (trim question.scan_param)) ≡ some id)
    × CanRead tables (parse_id (trim (trim question.user_header))) id
serve_allowed_example = serve_allowed parse_id token true up tables none question (rw (served) refl)

abbrev zeros : List ℕ
zeros = 0 ∷ 0 ∷ 0 ∷ 0 ∷ 0 ∷ 0 ∷ 0 ∷ 0 ∷ 0 ∷ 0 ∷ 0 ∷ 0 ∷ []
