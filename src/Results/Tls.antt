-- ===== src/Results/Tls.antt =====
-- internal/repository/tls_scan_result_repository.go: the TLS scans, of users and of the shared catalogue.
use cafe_discovery.Base.{
  ℕ, Bool, not, ◌&&◌, ◌||◌, String, Option, List, ◌==◌, select, length, Text, text_eq, ℤ, Result,
  ok, guard, ◌>>◌, order_by,
}
use cafe_discovery.Results.{
  Entity, Table, find_rows, count_rows, query_failed, RepositoryError, Faults, owned_by, live,
  first_of, newest_first, newest_then_id, window, create, find_by_user_id, find_by_id,
  count_by_user_id, find_by_user_id_and_field, list_page, find_one, delete_rows_where,
}

-- TLSScanResultEntity, as far as the queries read it.
pub record TlsResult : Type 0 where
  pub id : ℕ
  pub user_id : Option ℕ
  pub url : Text
  pub is_default : Bool
  pub status : String
  pub created_at : ℕ

abbrev pub tls_entity : Entity TlsResult
tls_entity = record {
  id = λ e. e.id;
  owner = λ e. e.user_id;
  created_at = λ e. e.created_at;
  with_id = λ id e. record e { id = id };
}

abbrev pub owned_tls : ℕ → ℕ → TlsResult → Bool
owned_tls user scan e = (e.id == scan) && owned_by e.user_id user && not e.is_default

abbrev pub user_or_default : ℕ → TlsResult → Bool
user_or_default user e = owned_by e.user_id user || e.is_default

unfoldable pub create_tls_scan :
    Faults → ℕ → TlsResult → Table TlsResult → Result RepositoryError (Table TlsResult)
create_tls_scan = create tls_entity

unfoldable pub find_tls_scans_by_user :
    Faults → (TlsResult → ℕ) → ℕ → ℤ → ℤ → Table TlsResult → Result RepositoryError (List TlsResult)
find_tls_scans_by_user = find_by_user_id tls_entity

unfoldable pub find_tls_scan_by_id :
    Faults → ℕ → Table TlsResult → Result RepositoryError (Option TlsResult)
find_tls_scan_by_id = find_by_id tls_entity

unfoldable pub count_tls_scans_by_user : Faults → ℕ → Table TlsResult → Result RepositoryError ℕ
count_tls_scans_by_user = count_by_user_id tls_entity

-- FindDefaultTLSScanByID
unfoldable pub find_default_tls_scan_by_id :
    Faults → ℕ → Table TlsResult → Result RepositoryError (Option TlsResult)
find_default_tls_scan_by_id faults scan =
    find_one tls_entity faults (λ e. (e.id == scan) && e.is_default)

-- FindOwnedUserTLSScanByID
unfoldable pub find_owned_user_tls_scan_by_id :
    Faults → ℕ → ℕ → Table TlsResult → Result RepositoryError (Option TlsResult)
find_owned_user_tls_scan_by_id faults user scan = find_one tls_entity faults (owned_tls user scan)

-- DeleteOwnedUserTLSScan
unfoldable pub delete_owned_user_tls_scan :
    Faults → ℕ → ℕ → Table TlsResult → Table TlsResult × Result RepositoryError Bool
delete_owned_user_tls_scan faults user scan =
    delete_rows_where tls_entity faults (owned_tls user scan)

-- ListOwnerUserTLSScansDiscoveryV1
unfoldable pub list_owner_user_tls_scans :
    Faults → ℕ → ℕ → ℕ → Table TlsResult → Result RepositoryError (List TlsResult × ℕ)
list_owner_user_tls_scans faults user =
    list_page tls_entity faults (λ e. owned_by e.user_id user && not e.is_default)

-- FindByUserIDAndURL
unfoldable pub find_by_user_id_and_url :
    Faults → ℕ → Text → Table TlsResult → Result RepositoryError (Option TlsResult)
find_by_user_id_and_url faults user url =
    find_by_user_id_and_field tls_entity faults user (λ e. text_eq e.url url)

-- FindByURL and FindDefaultByURL
unfoldable pub find_newest :
    Faults → (TlsResult → Bool) → Table TlsResult → Result RepositoryError (Option TlsResult)
find_newest faults p t =
    guard (not (faults find_rows)) (query_failed find_rows)
    >> ok (first_of (order_by (newest_then_id tls_entity) (select p (live t))))

unfoldable pub find_by_url :
    Faults → Text → Table TlsResult → Result RepositoryError (Option TlsResult)
find_by_url faults url = find_newest faults (λ e. text_eq e.url url)

unfoldable pub find_default_by_url :
    Faults → Text → Table TlsResult → Result RepositoryError (Option TlsResult)
find_default_by_url faults url = find_newest faults (λ e. text_eq e.url url && e.is_default)

-- FindByUserIDOrDefault
unfoldable pub find_by_user_id_or_default :
    Faults → (TlsResult → ℕ) → ℕ → ℤ → ℤ → Table TlsResult → Result RepositoryError (List TlsResult)
find_by_user_id_or_default faults rank user limit offset t =
    guard (not (faults find_rows)) (query_failed find_rows)
    >> ok (
        window tls_entity limit offset
          (order_by (newest_first tls_entity rank) (select (user_or_default user) (live t))))

-- FindAllDefault
unfoldable pub find_all_default :
    Faults → (TlsResult → ℕ) → Table TlsResult → Result RepositoryError (List TlsResult)
find_all_default faults rank t =
    guard (not (faults find_rows)) (query_failed find_rows)
    >> ok (order_by (newest_first tls_entity rank) (select (λ e. e.is_default) (live t)))

-- CountByUserIDOrDefault
unfoldable pub count_by_user_id_or_default : Faults → ℕ → Table TlsResult → Result RepositoryError ℕ
count_by_user_id_or_default faults user t =
    guard (not (faults count_rows)) (query_failed count_rows)
    >> ok (length (select (user_or_default user) (live t)))
