-- ===== src/Client/Rows.antt =====
-- internal/persistence/scanhttp/client.go: scanread.Store over HTTP. `Decoders` has encoding/json for
-- the bodies and the zero values that an empty body leaves.
use cafe_discovery.Base.{
  ℕ, Bool, true, false, Option, none, some, List, [], ◌∷◌, ltb, Text, if◌then◌else◌, Result, ok,
  err,
}
use cafe_discovery.Scans.{WalletQuery}
use cafe_discovery.Client.{
  Server, ClientError, unavailable, not_found, bad_row, get_method, delete_method, wallet_scans,
  wallet_scan, tls_scans, tls_scans_defaults, tls_scan, http_request, do_json,
}
use cafe_discovery.Client.Wire.{
  Parsers, RowError, WalletRowWire, WalletEntity, TlsRowWire, TlsEntity, wallet_row_to_entity,
  tls_row_to_entity,
}

-- ListWalletScansWire, ListTLSScansWire and ListTLSDefaultsWire
pub record ListWire (Row : Type 0) : Type 0 where
  pub items : List Row
  pub total : ℕ
  pub limit : ℕ
  pub offset : ℕ

pub record Decoders (Real : Type 0) : Type 0 where
  pub wallet_row : Text → Option (WalletRowWire Real)
  pub tls_row : Text → Option (TlsRowWire Real)
  pub wallet_list : Text → Option (ListWire (WalletRowWire Real))
  pub tls_list : Text → Option (ListWire (TlsRowWire Real))
  pub no_wallet_row : WalletRowWire Real
  pub no_tls_row : TlsRowWire Real

abbrev no_list : {Row : Type 0} → ListWire Row
no_list = record { items = []; total = 0; limit = 0; offset = 0 }

-- A nil destination is not written.
abbrev pub unread : Text → Option (Unit {0})
unread body = some tt

-- The conversion of the rows of a list, which one bad row fails.
unfoldable pub convert_all : {A B : Type 0} → (A → Result RowError B) → List A → Option (List B)
convert_all f [] = some []
convert_all f (a ∷ rows) =
    let rest = convert_all f rows in
    elim (f a) [ err e ↦ none | ok b ↦ elim rest [ none ↦ none | some bs ↦ some (b ∷ bs) ] ]

abbrev convert_list :
    {A B : Type 0} → (A → Result RowError B) → List A → Result ClientError (List B)
convert_list f rows = elim (convert_all f rows) [ none ↦ err unavailable | some bs ↦ ok bs ]

-- A row that may be missing.
abbrev pub row_or_nil :
    {A B : Type 0} → (A → Result RowError B) → Result ClientError A → Result ClientError (Option B)
row_or_nil f (err not_found) = ok none
row_or_nil f (err e) = err e
row_or_nil f (ok a) = elim (f a) [ err e ↦ err bad_row | ok b ↦ ok (some b) ]

-- Whether there was a row to delete.
abbrev pub deleted_or_missing : Result ClientError (Unit {0}) → Result ClientError Bool
deleted_or_missing (err not_found) = ok false
deleted_or_missing (err e) = err e
deleted_or_missing (ok _) = ok true

abbrev page :
    {A B : Type 0}
    → (A → Result RowError B)
    → Result ClientError (ListWire A)
    → Result ClientError (ListWire B)
page f (err e) = err e
page f (ok wire) = elim (convert_list f wire.items) [
  | err e ↦ err e
  | ok items ↦
      ok (record { items = items; total = wire.total; limit = wire.limit; offset = wire.offset })
]

abbrev with_total : {A : Type 0} → Result ClientError (ListWire A) → Result ClientError (List A × ℕ)
with_total (err e) = err e
with_total (ok p) = ok (p.items, p.total)

abbrev items_only : {A : Type 0} → Result ClientError (ListWire A) → Result ClientError (List A)
items_only (err e) = err e
items_only (ok p) = ok p.items

abbrev positive_only : ℕ → Option ℕ
positive_only n = if ltb 0 n then some n else none

module _ (R : Type 0) (server : Server R) (Real : Type 0) (parsers : Parsers)
    (decoders : Decoders Real) where
  open decoders use {wallet_row, tls_row, wallet_list, tls_list, no_wallet_row, no_tls_row}

  -- ListWalletScans
  unfoldable pub list_wallet_scans :
      ℕ → Text → WalletQuery → R → R × Result ClientError (ListWire (WalletEntity Real))
  list_wallet_scans user tenant query r =
      let (r', res) =
        do_json R server true no_list wallet_list
          (http_request get_method (wallet_scans query) user tenant []) r in
      (r', page (wallet_row_to_entity parsers Real) res)

  -- GetWalletScan
  unfoldable pub get_wallet_scan :
      ℕ → Text → ℕ → R → R × Result ClientError (Option (WalletEntity Real))
  get_wallet_scan user tenant scan r =
      let (r', res) =
        do_json R server true no_wallet_row wallet_row
          (http_request get_method (wallet_scan scan) user tenant []) r in
      (r', row_or_nil (wallet_row_to_entity parsers Real) res)

  -- ListTLSScans
  unfoldable pub list_tls_scans :
      ℕ → Text → ℕ → ℕ → R → R × Result ClientError (List (TlsEntity Real) × ℕ)
  list_tls_scans user tenant limit offset r =
      let (r', res) =
        do_json R server true no_list tls_list
          (http_request get_method (tls_scans (positive_only limit) (positive_only offset)) user
            tenant [])
          r in
      (r', with_total (page (tls_row_to_entity parsers Real) res))

  -- ListTLSDefaultScans
  unfoldable pub list_tls_default_scans :
      ℕ → Text → R → R × Result ClientError (List (TlsEntity Real))
  list_tls_default_scans user tenant r =
      let (r', res) =
        do_json R server true no_list tls_list
          (http_request get_method tls_scans_defaults user tenant []) r in
      (r', items_only (page (tls_row_to_entity parsers Real) res))

  -- GetTLSScan
  unfoldable pub get_tls_scan : ℕ → Text → ℕ → R → R × Result ClientError (Option (TlsEntity Real))
  get_tls_scan user tenant scan r =
      let (r', res) =
        do_json R server true no_tls_row tls_row
          (http_request get_method (tls_scan scan) user tenant []) r in
      (r', row_or_nil (tls_row_to_entity parsers Real) res)

module _ (R : Type 0) (server : Server R) where
  -- DeleteWalletScan and DeleteTLSScan
  unfoldable pub delete_wallet_scan : ℕ → Text → ℕ → R → R × Result ClientError Bool
  delete_wallet_scan user tenant scan r =
      let (r', res) =
        do_json R server true tt unread
          (http_request delete_method (wallet_scan scan) user tenant []) r in
      (r', deleted_or_missing res)

  unfoldable pub delete_tls_scan : ℕ → Text → ℕ → R → R × Result ClientError Bool
  delete_tls_scan user tenant scan r =
      let (r', res) =
        do_json R server true tt unread (http_request delete_method (tls_scan scan) user tenant [])
          r in
      (r', deleted_or_missing res)
