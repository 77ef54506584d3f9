-- ===== src/Cache/Warm.antt =====
-- internal/service/user_scan_cache.go: after a sign-in the user's TLS rows are written to Redis. The rows are
-- those of internal/repository, and the instant of the writes is one.
use cafe_discovery.Base.{ℕ, Bool, Option, List, [], ◌∷◌, Text, pos, Result, ok, err}
use cafe_discovery.Client.Wire.{TlsEntity}
use cafe_discovery.Results.{Entity, Table, RepositoryError, Faults, find_by_user_id}
use cafe_discovery.Observation.Tls.{Decoders, TlsScanResult, to_tls_scan_result}
use cafe_discovery.Cache.{Entry, Command, save_by_user_id_and_url}

abbrev pub max_items_for_warm_or_read_through : ℕ
max_items_for_warm_or_read_through = 10_000

module _ (Real : Type 0) where
  abbrev pub tls_row : Entity (TlsEntity Real)
  tls_row = record {
    id = λ e. e.id;
    owner = λ e. e.user_id;
    created_at = λ e. e.created_at;
    with_id = λ id e. record e { id = id };
  }

  module _ (marshal : TlsScanResult Real → Option Text)
      (unmarshal : Text → Option (TlsScanResult Real)) (faults : Command → Text → Bool)
      (d : Decoders) where
    -- The loop of WarmForUser: a row that cannot be written is logged and left.
    unfoldable pub write_rows : ℕ → Text → List (TlsEntity Real) → List Entry → List Entry
    write_rows now user [] s = s
    write_rows now user (e ∷ rows) s =
        elim (save_by_user_id_and_url (TlsScanResult Real) marshal unmarshal faults now user e.url
          (to_tls_scan_result Real d e) s) [
            | ok s' ↦ write_rows now user rows s'
            | err x ↦ write_rows now user rows s
          ]

    -- WarmForUser, for the user's id and its text.
    unfoldable pub warm_for_user :
        Faults
        → (TlsEntity Real → ℕ)
        → ℕ
        → ℕ
        → Text
        → Table (TlsEntity Real)
        → List Entry
        → List Entry × Result RepositoryError (Unit {0})
    warm_for_user repository_faults rank now id uid t s =
        elim (find_by_user_id tls_row repository_faults rank id
          (pos max_items_for_warm_or_read_through) (pos 0) t) [
            | err e ↦ (s, err e)
            | ok rows ↦ (write_rows now uid rows s, ok tt)
          ]
