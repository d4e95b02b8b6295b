-- ===== src/OmxCore/Registry/Building.antt =====
-- OMX_BuildComponentTable lists the rows of the static table.
use camerahal.Common.{
  ℕ, zero, suc, ◌≤◌, ◌≡◌, inl, inr, refl, sym, ap, ◌∙◌, Bool, true, false, none, some, List, [],
  ◌∷◌, ◌++◌, append_assoc, append-nil, map, length, take, arith, if◌then◌else◌, Bool-cases,
}
use camerahal.OmxCore.Registry.{
  Text, max_comp, ComponentTable, Row, roles_of_row, has_name, build_rows, build_component_table,
}

-- A row with a name and its roles, as the initialiser has it.
pub record Listed : Type 0 where
  pub name : Text
  pub roles : List Text

abbrev row_of : Listed → Row
row_of l = some l.name ∷ (map some l.roles ++ none ∷ [])

-- The rows of the components, and the row of NULLs behind them.
abbrev pub rows_of : List Listed → List Row
rows_of [] = (none ∷ none ∷ []) ∷ []
rows_of (l ∷ ls) = row_of l ∷ rows_of ls

abbrev entry_of : Listed → ComponentTable
entry_of l = record { name = l.name; roles = l.roles }

abbrev pub table_of : List Listed → List ComponentTable
table_of ls = map entry_of ls

-- No name is among those of the table, nor twice in the list.
abbrev pub are_new : List ComponentTable → List Listed → Bool
are_new table [] = true
are_new table (l ∷ ls) =
    let rest = are_new (table ++ entry_of l ∷ []) ls in
    if has_name table l.name then false else rest

roles_of_row-map :
    (roles : List Text) (row : Row) → roles_of_row (map some roles ++ none ∷ row) ≡ roles
unfolding roles_of_row
roles_of_row-map [] row = refl
roles_of_row-map (r ∷ roles) row = ap (λ l. r ∷ l) (roles_of_row-map roles row)

build_rows-rows_of :
    (ls : List Listed) (table : List ComponentTable)
    → are_new table ls ≡ true
    → build_rows (rows_of ls) table false ≡ table ++ table_of ls
unfolding build_rows
build_rows-rows_of [] table h = sym (append-nil table)
build_rows-rows_of (l ∷ ls) table h = elim (Bool-cases (has_name table l.name)) [
  | inl e ↦ let h' : false ≡ true = rw e at h in cc
  | inr e ↦
      rw (e, roles_of_row-map l.roles [])
        (build_rows-rows_of ls (table ++ entry_of l ∷ []) (rw e at h)
          ∙ append_assoc table (entry_of l ∷ []) (table_of ls))
]

take_le : {A : Type 0} (n : ℕ) (xs : List A) → length xs ≤ n → take n xs ≡ xs
take_le zero [] h = refl
take_le zero (x ∷ xs) h = absurd (omega arith)
take_le (suc n) [] h = refl
take_le (suc n) (x ∷ xs) h = ap (λ l. x ∷ l) (take_le n xs (omega arith))

-- From the rows of components with distinct names, which with their terminating row fit into
-- MAXCOMP, the table of these components is built, in their order and with all roles.
pub build_component_table-table_of :
    (ls : List Listed)
    → length (rows_of ls) ≤ max_comp
    → are_new [] ls ≡ true
    → build_component_table (rows_of ls) ≡ table_of ls
unfolding build_component_table
build_component_table-table_of ls e h =
    ap (λ r. build_rows r [] false) (take_le max_comp (rows_of ls) e) ∙ build_rows-rows_of ls [] h
