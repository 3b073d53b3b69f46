-- ===== src/Database/Results.antt =====
-- What get_column_results_for_row of src/database/db_config.c gives.
use mod_mp.Base.{
  ◌==◌, if◌then◌else◌, Bool-cases, Option-cases, length, get_elem?, drop, get_elem?-lt, ℤ, success,
  Bytes, negsuc, ℕ, zero, suc, ◌+◌, ◌<◌, ◌≡◌, refl, inl, inr, Option, none, some, List, [], ◌∷◌,
  arith,
}
use native.Mathlib.Numerals.{add-one}
use mod_mp.QueryParameters.{DbTableColumn}
use mod_mp.Database.{DbQuery, ResultsRow, column_index, get_column_results_for_row}

-- Every row has an entry for every selected column.
unfoldable pub IsTable : ℕ → List ResultsRow → Type 0
IsTable n [] = Unit
IsTable n (row ∷ rows) = (length row ≡ n) × IsTable n rows

IsTable-length :
    (n i : ℕ) (rows : List ResultsRow) (row : ResultsRow)
    → IsTable n rows
    → get_elem? rows i ≡ some row
    → length row ≡ n
unfolding IsTable
IsTable-length n i [] row t e = cc e
IsTable-length n zero (x ∷ rows) row t e = ground (arith, t.0, e)
IsTable-length n (suc i) (x ∷ rows) row t e = IsTable-length n i rows row t.1 e

-- The entry that stands under the first column with the given address.
pub under : ℕ → List DbTableColumn → ResultsRow → Option (Option Bytes)
under column [] row = none
under column (c ∷ columns) [] = none
under column (c ∷ columns) (entry ∷ row) =
    if column == c.address then some entry else under column columns row

pub found_entry : Option (Option Bytes) → ℤ × Option (Option Bytes)
found_entry none = (negsuc 0, none)
found_entry (some entry) = (success, some entry)

abbrev entry_at : Option ℕ → ResultsRow → Option (Option Bytes)
entry_at none row = none
entry_at (some j) row = get_elem? row j

drop-cons :
    (i : ℕ) (row : ResultsRow) (e : Option Bytes) (rest : ResultsRow)
    → drop i row ≡ e ∷ rest
    → (get_elem? row i ≡ some e) × (drop (suc i) row ≡ rest)
drop-cons zero [] e rest h = cc h
drop-cons zero (x ∷ row) e rest h = (cc h, cc h)
drop-cons (suc i) [] e rest h = cc h
drop-cons (suc i) (x ∷ row) e rest h = drop-cons i row e rest h

column_index-under :
    (i column : ℕ) (columns : List DbTableColumn) (row here : ResultsRow)
    → drop i row ≡ here
    → length here ≡ length columns
    → entry_at (column_index i column columns) row ≡ under column columns here
unfolding column_index under
column_index-under i column [] row here d h = refl
column_index-under i column (c ∷ columns) row [] d h = absurd (omega arith)
column_index-under i column (c ∷ columns) row (e ∷ here) d h =
    let (at, rest) = drop-cons i row e here d in
    let next = column_index-under (i + 1) column columns row here (rw add-one rest) (omega arith) in
    elim (Bool-cases (column == c.address)) [ inl hit ↦ rw hit at | inr miss ↦ rw miss next ]

column_index-lt :
    (i column : ℕ) (columns : List DbTableColumn) (j : ℕ)
    → column_index i column columns ≡ some j
    → j < i + length columns
unfolding column_index
column_index-lt i column [] j h = cc h
column_index-lt i column (c ∷ columns) j h =
    ground (arith, h, column_index-lt (i + 1) column columns j)

-- On results where every row has an entry for each selected column, the call at a row gives the
-- entry that stands under the first selected column that is the given one, and -1 if there is
-- none; it never reads outside the row.
pub get_column_results_for_row-under :
    (db_query : DbQuery) (rows : List ResultsRow) (column : DbTableColumn) (row_index : ℕ)
    (row : ResultsRow)
    → IsTable (length db_query.select_columns) rows
    → get_elem? rows row_index ≡ some row
    → get_column_results_for_row db_query (record { row_array = some rows }) column row_index
      ≡ some (found_entry (under column.address db_query.select_columns row))
unfolding get_column_results_for_row found_entry
get_column_results_for_row-under db_query [] column row_index row t e = cc e
get_column_results_for_row-under db_query (first ∷ rows) column row_index row t e =
    let size = IsTable-length (length db_query.select_columns) row_index (first ∷ rows) row t e in
    let same = column_index-under 0 column.address db_query.select_columns row row refl size in
    elim (Option-cases (column_index 0 column.address db_query.select_columns)) [
      | inl none_found ↦
          let nothing : none ≡ under column.address db_query.select_columns row =
            rw none_found at same in
          rw (get_column_results_for_row, none_found, ← nothing) refl
      | inr (j, found) ↦
          let (entry, at) = get_elem?-lt row j (
            omega
              (arith, size, column_index-lt 0 column.address db_query.select_columns j found)) in
          let something : some entry ≡ under column.address db_query.select_columns row =
            rw (found, at) at same in
          rw (get_column_results_for_row, found, e, at, ← something) refl
    ]
