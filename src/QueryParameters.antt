-- ===== src/QueryParameters.antt =====
-- src/database/db_query_parameters.h and db_query_parameters.c: the WHERE conditions, SQL clauses
-- and custom parameters of a query. The outer `none` of a result is an access through a NULL
-- pointer.
pub mod Where
use mod_mp.Base.{
  leb, ◌==◌, if◌then◌else◌, length, get_or, set, drop, replicate, all, ℤ, success, Bytes, codes,
  strchr, negsuc, ℕ, zero, suc, ◌+◌, Bool, true, false, ◌&&◌, ◌||◌, Option, none, some, List, [],
  ◌∷◌, ◌++◌,
}
use mod_mp.Apr.{Apr}

-- enum column_types and the table and column structs of db_config.h. Pointers to columns are
-- compared, so a column carries its address.
pub data ColumnType : Type 0 where
  int varchar datetime bigint : ColumnType

pub record DbTable : Type 0 where
  pub id : Bytes
  pub name : Bytes
  pub foreign_key : Option Bytes

pub record DbTableColumn : Type 0 where
  pub address : ℕ
  pub id : Bytes
  pub name : Bytes
  pub freindly_name : Bytes
  pub type : ColumnType
  pub table : DbTable

pub data ConditionOperator : Type 0 where
  equal like greater less between is_in : ConditionOperator

pub record QueryWhereCondition : Type 0 where
  pub column : DbTableColumn
  pub operator : ConditionOperator
  pub condition : Bytes

pub record QuerySqlClause : Type 0 where
  pub freindly_name : Option Bytes
  pub value : Option Bytes

pub record CustomParameter : Type 0 where
  pub freindly_name : Bytes
  pub type : Bytes
  pub value : Option Bytes

-- `has_pool` says whether `pool` is not NULL.
pub record DbQueryParameters : Type 0 where
  pub has_pool : Bool
  pub where_conditions : List QueryWhereCondition
  pub sql_clauses : List QuerySqlClause
  pub custom_parameters : Option (List CustomParameter)

abbrev limit_clause : ℕ
limit_clause = 0

abbrev offset_clause : ℕ
offset_clause = 1

abbrev group_by_clause : ℕ
group_by_clause = 2

abbrev pub order_by_clause : ℕ
order_by_clause = 3

abbrev num_sql_clauses : ℕ
num_sql_clauses = 4

setup_sql_clause : List QuerySqlClause → ℕ → Option Bytes → List QuerySqlClause
setup_sql_clause clauses type fname =
    set clauses type (record (get_or clauses type (record { freindly_name = none; value = none })) {
      freindly_name = fname;
    })

-- The pool and the custom parameters keep the zeros of apr_pcalloc.
unfoldable pub db_query_parameters_init : DbQueryParameters
unfolding setup_sql_clause
db_query_parameters_init =
    let zeroed = replicate num_sql_clauses (record { freindly_name = none; value = none }) in
    let with_limit = setup_sql_clause zeroed limit_clause (some (codes "limit")) in
    let with_offset = setup_sql_clause with_limit offset_clause (some (codes "offset")) in
    let with_group = setup_sql_clause with_offset group_by_clause none in
    record {
      has_pool = false;
      where_conditions = [];
      sql_clauses = setup_sql_clause with_group order_by_clause (some (codes "sort_by"));
      custom_parameters = none;
    }

-- The classes of characters, in the C locale.
unfoldable pub isdigit : ℕ → Bool
isdigit c = leb b'0' c && leb c b'9'

unfoldable pub isalnum : ℕ → Bool
unfolding isdigit
isalnum c = isdigit c || (leb b'A' c && leb c b'Z' || (leb b'a' c && leb c b'z'))

unfoldable pub isprint : ℕ → Bool
isprint c = leb b' ' c && leb c b'~'

-- The first loop of the VARCHAR branch: every character passes the test.
all_printable : Bytes → Bool
unfolding isalnum isprint
all_printable condition = all (λ c. isalnum c || isprint c) condition

-- The loop of the INT branch.
all_digits : Bytes → Bool
unfolding isdigit
all_digits condition = all (λ c. isdigit c || c == b',') condition

-- `while ((asterisk = strchr(asterisk, '*')) != NULL) asterisk[0] = '%'`, by the rounds left.
replace_loop : ℕ → ℕ → Bytes → Bytes
replace_loop zero asterisk condition = condition
replace_loop (suc rounds) asterisk condition = elim (strchr b'*' (drop asterisk condition)) [
  | none ↦ condition
  | some next ↦ replace_loop rounds (asterisk + next) (set condition (asterisk + next) b'%')
]

-- Each round removes an asterisk.
unfoldable pub replace_asterisks : Bytes → Bytes
unfolding replace_loop
replace_asterisks condition = replace_loop (length condition) 0 condition

abbrev has_char : ℕ → Bytes → Bool
has_char c condition = elim (strchr c condition) [ none ↦ false | some _ ↦ true ]

push_where : DbQueryParameters → DbTableColumn → ConditionOperator → Bytes → DbQueryParameters
push_where p column operator condition = record p {
  where_conditions =
      p.where_conditions
      ++ record { column = column; operator = operator; condition = condition } ∷ [];
}

module _ (apr : Apr) where
  -- apr_pstrcat with the pool of the parameters.
  pool_strcat : DbQueryParameters → List Bytes → Option Bytes
  pool_strcat p parts = if p.has_pool then some (apr.pstrcat parts) else none

  -- The three branches on the type of the column, as far as operator and condition: a status of
  -- its own or a pair to push.
  varchar_condition : DbQueryParameters → Bytes → Option (Option (ConditionOperator × Bytes))
  unfolding all_printable pool_strcat
  varchar_condition p condition =
      if all_printable condition
      then (let starred = has_char b'*' condition in
          let replaced = if starred then replace_asterisks condition else condition in
          elim (pool_strcat p (codes "\"" ∷ replaced ∷ codes "\"" ∷ [])) [
            | none ↦ none
            | some quoted ↦ some (some ((if starred then like else equal), quoted))
          ])
      else some none

  int_condition : DbQueryParameters → Bytes → Option (Option (ConditionOperator × Bytes))
  unfolding all_digits pool_strcat
  int_condition p condition =
      if all_digits condition
      then (if has_char b',' condition
          then elim (pool_strcat p (codes "(" ∷ condition ∷ codes ")" ∷ [])) [
            | none ↦ none
            | some list ↦ some (some (is_in, list))
          ]
          else some (some (equal, condition)))
      else some none

  checked_condition :
      DbQueryParameters → ColumnType → Bytes → Option (Option (ConditionOperator × Bytes))
  unfolding varchar_condition int_condition
  checked_condition p varchar condition = varchar_condition p condition
  checked_condition p datetime condition = some (some (equal, condition))
  checked_condition p int condition = int_condition p condition
  checked_condition p bigint condition = int_condition p condition

  -- The caller's string is changed in place too, where it has asterisks; that copy is not kept.
  unfoldable pub db_query_parameter_add_where :
      DbQueryParameters → DbTableColumn → Bytes → Option (ℤ × DbQueryParameters)
  unfolding checked_condition push_where
  db_query_parameter_add_where p column condition =
      elim (checked_condition p column.type condition) [
        | none ↦ none
        | some none ↦ some (negsuc 0, p)
        | some (some (operator, text)) ↦ some (success, push_where p column operator text)
      ]

  find_custom : Bytes → List CustomParameter → Option CustomParameter
  find_custom friendly_name [] = none
  find_custom friendly_name (cus_par ∷ rest) =
      if apr.strnatcmp_is_zero cus_par.freindly_name friendly_name
      then some cus_par
      else find_custom friendly_name rest

  -- The inner `none` stands for the status -1, with the pointer left alone.
  unfoldable pub db_query_parameter_find_custom_by_friendly :
      DbQueryParameters → Bytes → Option (Option CustomParameter)
  unfolding find_custom
  db_query_parameter_find_custom_by_friendly p friendly_name = elim p.custom_parameters [
    | none ↦ none
    | some parameter_array ↦ some (find_custom friendly_name parameter_array)
  ]
