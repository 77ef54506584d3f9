-- ===== src/Results.antt =====
-- internal/repository/base_repository.go: a table of entities with an identifier, an owner and a creation
-- time, of which GORM hides the soft-deleted rows. A query can fail (`Faults`). Where the query orders
-- by the creation time alone, the rank that the database gives to rows of one instant is a parameter.
pub mod Order
pub mod Paging
pub mod Deletion
pub mod Wallets
pub mod Tls
pub mod Adapter
mod Tests
use cafe_discovery.Base.{
  ℕ, ◌-◌, zero, suc, Bool, true, false, not, ◌&&◌, ◌||◌, Option, none, some, List, [], ◌∷◌, ◌++◌,
  ltb, ◌==◌, if◌then◌else◌, select, any_of, length, order_by, ℤ, is_positive, pos_part, Result, ok,
  err, guard, ◌>>=◌, ◌>>◌,
}

-- The columns that the queries read; a NULL owner is none.
pub record Entity (T : Type 0) : Type 0 where
  pub id : T → ℕ
  pub owner : T → Option ℕ
  pub created_at : T → ℕ
  pub with_id : ℕ → T → T

pub record Row (T : Type 0) : Type 0 where
  pub entity : T
  pub is_deleted : Bool

abbrev pub Table : Type 0 → Type 0
Table T = List (Row T)

pub data Query : Type 0 where
  insert_row find_rows count_rows delete_rows : Query

pub data RepositoryError : Type 0 where
  query_failed : Query → RepositoryError
  duplicate_id : RepositoryError

abbrev pub Faults : Type 0
Faults = Query → Bool

-- `user_id = ?`, which a NULL owner does not match.
abbrev pub owned_by : Option ℕ → ℕ → Bool
owned_by none user = false
owned_by (some u) user = u == user

module _ {A : Type 0} where
  -- LIMIT and OFFSET.
  abbrev pub take : ℕ → List A → List A
  take zero xs = []
  take (suc n) [] = []
  take (suc n) (x ∷ xs) = x ∷ take n xs

  abbrev pub skip : ℕ → List A → List A
  skip zero xs = xs
  skip (suc n) [] = []
  skip (suc n) (x ∷ xs) = skip n xs

  abbrev pub first_of : List A → Option A
  first_of [] = none
  first_of (x ∷ xs) = some x

module _ {T : Type 0} where
  -- The entities that are not deleted.
  abbrev pub live : Table T → List T
  live [] = []
  live (r ∷ rs) = if r.is_deleted then live rs else r.entity ∷ live rs

  -- The soft deletion of the rows that match: DELETE sets deleted_at.
  abbrev pub delete_where : (T → Bool) → Table T → Table T
  delete_where p [] = []
  delete_where p (r ∷ rs) = record r { is_deleted = r.is_deleted || p r.entity } ∷ delete_where p rs

  module _ (e : Entity T) where
    -- ORDER BY created_at DESC, and then by the larger rank.
    abbrev pub newest_first : (T → ℕ) → T → T → Bool
    newest_first rank x y =
        ltb (e.created_at y) (e.created_at x)
        || (e.created_at x == e.created_at y) && ltb (rank y) (rank x)

    -- ORDER BY created_at DESC and, as First adds it, the primary key.
    abbrev pub newest_then_id : T → T → Bool
    newest_then_id x y =
        ltb (e.created_at y) (e.created_at x)
        || (e.created_at x == e.created_at y) && ltb (e.id x) (e.id y)

    abbrev pub has_id : ℕ → T → Bool
    has_id id x = e.id x == id

    abbrev pub of_user : ℕ → T → Bool
    of_user user x = owned_by (e.owner x) user

    -- BeforeCreate: a nil identifier becomes the one that uuid.New gives.
    abbrev pub before_create : ℕ → T → T
    before_create fresh x = if e.id x == 0 then e.with_id fresh x else x

    -- baseRepository.create
    unfoldable pub create : Faults → ℕ → T → Table T → Result RepositoryError (Table T)
    create faults fresh x t =
        let stored = before_create fresh x in
        guard (not (faults insert_row)) (query_failed insert_row)
        >> guard (not (any_of (λ r. has_id (e.id stored) r.entity) t)) duplicate_id
        >> ok (t ++ (record { entity = stored; is_deleted = false }) ∷ [])

    -- The Limit and Offset that are set only where they are positive.
    unfoldable pub window : ℤ → ℤ → List T → List T
    window limit offset xs =
        let rest = if is_positive offset then skip (pos_part offset) xs else xs in
        if is_positive limit then take (pos_part limit) rest else rest

    -- baseRepository.findByUserID
    unfoldable pub find_by_user_id :
        Faults → (T → ℕ) → ℕ → ℤ → ℤ → Table T → Result RepositoryError (List T)
    find_by_user_id faults rank user limit offset t =
        guard (not (faults find_rows)) (query_failed find_rows)
        >> ok (window limit offset (order_by (newest_first rank) (select (of_user user) (live t))))

    -- baseRepository.findByID
    unfoldable pub find_by_id : Faults → ℕ → Table T → Result RepositoryError (Option T)
    find_by_id faults id t =
        guard (not (faults find_rows)) (query_failed find_rows)
        >> ok (first_of (select (has_id id) (live t)))

    -- baseRepository.countByUserID
    unfoldable pub count_by_user_id : Faults → ℕ → Table T → Result RepositoryError ℕ
    count_by_user_id faults user t =
        guard (not (faults count_rows)) (query_failed count_rows)
        >> ok (length (select (of_user user) (live t)))

    -- baseRepository.findByUserIDAndField, for the test of the field.
    unfoldable pub find_by_user_id_and_field :
        Faults → ℕ → (T → Bool) → Table T → Result RepositoryError (Option T)
    find_by_user_id_and_field faults user field t =
        guard (not (faults find_rows)) (query_failed find_rows)
        >> ok
            (first_of (order_by newest_then_id (select (λ x. of_user user x && field x) (live t))))

    -- A page of the rows that match, and their number: Count, then Find. Limit(0) is LIMIT 0.
    unfoldable pub list_page :
        Faults → (T → Bool) → ℕ → ℕ → Table T → Result RepositoryError (List T × ℕ)
    list_page faults p limit offset t = do
      guard (not (faults count_rows)) (query_failed count_rows)
      guard (not (faults find_rows)) (query_failed find_rows)
      ok (
        take limit (skip offset (order_by (newest_first e.id) (select p (live t)))),
        length (select p (live t)),
      )

    -- The first row that matches, for the queries that name it by its identifier.
    unfoldable pub find_one : Faults → (T → Bool) → Table T → Result RepositoryError (Option T)
    find_one faults p t =
        guard (not (faults find_rows)) (query_failed find_rows)
        >> ok (first_of (order_by (λ x y. ltb (e.id x) (e.id y)) (select p (live t))))

    -- A soft deletion, and `RowsAffected > 0`.
    unfoldable pub delete_rows_where :
        Faults → (T → Bool) → Table T → Table T × Result RepositoryError Bool
    delete_rows_where faults p t =
        if faults delete_rows
        then (t, err (query_failed delete_rows))
        else (delete_where p t, ok (any_of p (live t)))
