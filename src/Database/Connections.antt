-- ===== src/Database/Connections.antt =====
-- The life of the connections of src/database/db_config.c under db_query_run of db_query.c.
use mod_mp.Base.{
  drop, ℤ, success, codes, negsuc, ℕ, zero, suc, ◌≡◌, refl, Option, none, some, List, [], ◌∷◌,
  arith,
}
use mod_mp.ErrorMessages.{error, error_messages_add}
use mod_mp.Database.{DbConfig, db_config_get_connection, db_query_run}

-- A sequence of queries, with their statuses.
pub run_queries : ℕ → DbConfig → Option (List ℤ × DbConfig)
run_queries zero config = some ([], config)
run_queries (suc n) config = elim (db_query_run config) [
  | none ↦ none
  | some (status, _, after) ↦ elim (run_queries n after) [
    | none ↦ none
    | some (statuses, last) ↦ some (status ∷ statuses, last)
  ]
]

-- One success for each connection, and failures from then on.
unfoldable pub statuses_of : ℕ → List ℕ → List ℤ
statuses_of zero conns = []
statuses_of (suc n) [] = negsuc 89 ∷ statuses_of n []
statuses_of (suc n) (conn ∷ conns) = success ∷ statuses_of n conns

drop-nil : (n : ℕ) → drop {A = ℕ} n [] ≡ []
drop-nil zero = refl
drop-nil (suc n) = refl

abbrev pub Exhausts : ℕ → List ℕ → Option (List ℤ × DbConfig) → Type 0
Exhausts n conns r =
    (last : DbConfig) × (r ≡ some (statuses_of n conns, last))
    × (last.db_conn_list ≡ some (drop n conns))

-- The configuration after a query without a connection.
abbrev refused : DbConfig → DbConfig
refused config = record config {
  error_messages =
      (error_messages_add config.error_messages error (codes "Database Query")
        (codes "Failed to get connection")).1;
}

run_refused :
    (config : DbConfig)
    → config.db_conn_list ≡ some []
    → db_query_run config ≡ some (negsuc 89, record { row_array = none }, refused config)
unfolding db_query_run db_config_get_connection
run_refused config h = ground (arith, h)

pub run_served :
    (config : DbConfig) (conn : ℕ) (conns : List ℕ)
    → config.db_conn_list ≡ some (conn ∷ conns)
    → db_query_run config
      ≡ some (success, record { row_array = none }, record config { db_conn_list = some conns })
unfolding db_query_run db_config_get_connection
run_served config conn conns h = ground (arith, h)

-- No query gives its connection back: of any number of queries, one for each connection succeeds,
-- oldest connection first, and every later one returns -90.
pub run_queries-Exhausts :
    (n : ℕ) (config : DbConfig) (conns : List ℕ)
    → config.db_conn_list ≡ some conns
    → Exhausts n conns (run_queries n config)
unfolding run_queries statuses_of
run_queries-Exhausts zero config conns h = (config, refl, h)
run_queries-Exhausts (suc n) config [] h =
    let (last, done, rest) = run_queries-Exhausts n (refused config) [] h in
    (last, rw (run_queries, run_refused config h, done) refl, rw (drop-nil n) at rest)
run_queries-Exhausts (suc n) config (conn ∷ conns) h =
    let (last, done, rest) =
      run_queries-Exhausts n (record config { db_conn_list = some conns }) conns refl in
    (last, rw (run_queries, run_served config conn conns h, done) refl, rest)
