-- ===== src/Tdb.antt =====
-- What the databases need of libtdb: records by key. Its calls are parameters, and the laws are
-- what tdb_fetch, tdb_store with TDB_REPLACE and tdb_delete promise; traverse is what tdb_traverse visits.
use support_proxy.Base.{ℕ, ◌/◌, ◌%◌, ◌^◌, ◌≡◌, ◌≢◌, List, [], ◌∷◌, Option, none, some}

pub record Tdb : Type 1 where
  pub Db : Type 0
  pub fetch : Db → List ℕ → Option (List ℕ)
  pub store : Db → List ℕ → List ℕ → Option Db
  pub remove : Db → List ℕ → Option Db
  pub traverse : Db → List (List ℕ × List ℕ)
  pub fetch-store :
      (db db' : Db) (key value : List ℕ)
      → store db key value ≡ some db'
      → fetch db' key ≡ some value
  pub fetch-store_ne :
      (db db' : Db) (key other value : List ℕ)
      → store db key value ≡ some db'
      → other ≢ key
      → fetch db' other ≡ fetch db other
  pub fetch-remove : (db db' : Db) (key : List ℕ) → remove db key ≡ some db' → fetch db' key ≡ none
  pub fetch-remove_ne :
      (db db' : Db) (key other : List ℕ)
      → remove db key ≡ some db'
      → other ≢ key
      → fetch db' other ≡ fetch db other

-- A non-negative `int` in memory, little-endian.
unfoldable pub int_bytes : ℕ → List ℕ
int_bytes n = n % 256 ∷ n / 2 ^ 8 % 256 ∷ n / 2 ^ 16 % 256 ∷ n / 2 ^ 24 % 256 ∷ []
