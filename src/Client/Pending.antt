-- ===== src/Client/Pending.antt =====
-- internal/persistence/scanhttp/client_pending.go and client_transition.go: scanpending.Store and
-- ApplyWalletTransition over HTTP. json.Marshal of the request bodies is a parameter.
use cafe_discovery.Base.{
  ℕ, Bool, true, false, Option, none, some, [], ◌==◌, trim, Text, if◌then◌else◌, Result, ok, err,
}
use cafe_discovery.Client.{
  Server, ClientError, conflict, get_method, post_method, delete_method, pending_tls,
  pending_wallet, pending_wallet_of, pending_scan, wallet_scan_transition, http_request, do_json,
  do_json_once,
}
use cafe_discovery.Client.Wire.{Parsers, PendingWire, Record, record_from_wire}
use cafe_discovery.Client.Rows.{unread, row_or_nil}

-- PutTLSPendingRequestWire and ReserveWalletPendingRequestWire: the scan, the trimmed target, and the
-- time where it is not zero.
pub record PendingRequest : Type 0 where
  pub scan_id : ℕ
  pub target : Text
  pub created_at : Option ℕ

pub record WalletTransitionResponse : Type 0 where
  pub outcome : Text
  pub status : Text
  pub projection_ready : Bool

pub record PendingCodec : Type 0 where
  pub marshal : PendingRequest → Text
  pub pending_wire : Text → Option PendingWire
  pub reserved : Text → Option Bool
  pub transition : Text → Option WalletTransitionResponse
  pub no_pending : PendingWire

unfoldable pub pending_request : ℕ → Text → ℕ → PendingRequest
pending_request scan target created = record {
  scan_id = scan;
  target = trim target;
  created_at = if created == 0 then none else some created;
}

-- A conflict is a reservation that another scan holds.
abbrev pub held_or_taken : Result ClientError Bool → Result ClientError Bool
held_or_taken (err conflict) = ok false
held_or_taken (err e) = err e
held_or_taken (ok reserved) = ok reserved

abbrev pub no_value : {A : Type 0} → Result ClientError A → Result ClientError (Unit {0})
no_value (err e) = err e
no_value (ok _) = ok tt

module _ (R : Type 0) (server : Server R) where
  -- Delete
  unfoldable pub delete : ℕ → Text → ℕ → R → R × Result ClientError (Unit {0})
  delete user tenant scan r =
      do_json R server false tt unread
        (http_request delete_method (pending_scan scan) user tenant []) r

  -- DeleteWalletReservation
  unfoldable pub delete_wallet_reservation :
      ℕ → Text → Text → ℕ → R → R × Result ClientError (Unit {0})
  delete_wallet_reservation user tenant address scan r =
      do_json R server false tt unread
        (http_request delete_method (pending_wallet_of (trim address) (some scan)) user tenant []) r

  module _ (parsers : Parsers) (codec : PendingCodec) where
    open codec use {marshal, pending_wire, reserved, transition, no_pending}

    -- PutTLS, for a record
    unfoldable pub put_tls : ℕ → Text → Record → R → R × Result ClientError (Unit {0})
    put_tls user tenant rec r =
        let body = marshal (pending_request rec.scan_id rec.endpoint rec.created_at) in
        let (r', res) =
          do_json R server false no_pending pending_wire
            (http_request post_method pending_tls user tenant body) r in
        (r', no_value res)

    -- ReserveWallet, for a record
    unfoldable pub reserve_wallet : ℕ → Text → Record → R → R × Result ClientError Bool
    reserve_wallet user tenant rec r =
        let body = marshal (pending_request rec.scan_id rec.address rec.created_at) in
        let (r', res) =
          do_json R server false false reserved
            (http_request post_method pending_wallet user tenant body) r in
        (r', held_or_taken res)

    -- Get
    unfoldable pub get : ℕ → Text → ℕ → R → R × Result ClientError (Option Record)
    get user tenant scan r =
        let (r', res) =
          do_json R server true no_pending pending_wire
            (http_request get_method (pending_scan scan) user tenant []) r in
        (r', row_or_nil (record_from_wire parsers) res)

    -- GetWalletByOwnerAddress
    unfoldable pub get_wallet_by_owner_address :
        ℕ → Text → Text → R → R × Result ClientError (Option Record)
    get_wallet_by_owner_address user tenant address r =
        let (r', res) =
          do_json R server true no_pending pending_wire
            (http_request get_method (pending_wallet_of (trim address) none) user tenant []) r in
        (r', row_or_nil (record_from_wire parsers) res)

    -- ApplyWalletTransition: one call is one request.
    unfoldable pub apply_wallet_transition :
        ℕ → ℕ → Text → R → R × Result ClientError WalletTransitionResponse
    apply_wallet_transition user scan body r =
        do_json_once R server (record { outcome = []; status = []; projection_ready = false })
          transition (http_request post_method (wallet_scan_transition scan) user [] body) r
