-- ===== src/Store/UpSection.antt =====
-- internal/store/db.go: the section of a migration file that is run, extractUpMigrationSQL.
pub mod Sections
use Prim.Native.Char.{Char, code}
use shuosc_network_server_ba.Common.{
  String, Option, none, some, List, [], ◌∷◌, ◌==◌, str_eq, if◌then◌else◌,
}
use shuosc_network_server_ba.Common.Words.{trim_space, is_empty, concat}

abbrev pub put_before : Char → List String → List String
put_before c [] = String.◌∷◌ c "" ∷ []
put_before c (l ∷ ls) = String.◌∷◌ c l ∷ ls

-- `strings.Split(content, "\n")`
unfoldable pub split_lines : String → List String
split_lines String.[] = "" ∷ []
split_lines (String.◌∷◌ c s) =
    let rest = split_lines s in if code c == 10 then "" ∷ rest else put_before c rest

-- `strings.Join(lines, "\n")`
unfoldable pub join_lines : List String → String
join_lines [] = ""
join_lines (l ∷ []) = l
join_lines (l ∷ m ∷ ms) = concat l (String.◌∷◌ "\n" (join_lines (m ∷ ms)))

pub data LineKind : Type 0 where
  up_line down_line sql_line : LineKind

-- The cases of the switch.
unfoldable pub line_kind : String → LineKind
line_kind line =
    if str_eq (trim_space line) "-- +migrate Up"
    then up_line
    else if str_eq (trim_space line) "-- +migrate Down"
    then down_line
    else sql_line

-- The loop once foundUp is set: the lines up to Down.
unfoldable pub up_lines : List String → List String
up_lines [] = []
up_lines (l ∷ ls) = elim (line_kind l) [
  | up_line ↦ up_lines ls
  | down_line ↦ []
  | sql_line ↦ l ∷ up_lines ls
]

-- The loop before: none where no line is Up.
unfoldable pub from_up : List String → Option (List String)
from_up [] = none
from_up (l ∷ ls) = elim (line_kind l) [
  | up_line ↦ some (up_lines ls)
  | down_line ↦ from_up ls
  | sql_line ↦ from_up ls
]

-- An empty text is an error.
unfoldable pub unless_empty : String → Option String
unless_empty sql = if is_empty sql then none else some sql

-- extractUpMigrationSQL.
unfoldable pub extract_up_migration_sql : String → Option String
extract_up_migration_sql content = elim (from_up (split_lines content)) [
  | some lines ↦ unless_empty (trim_space (join_lines lines))
  | none ↦ unless_empty (trim_space content)
]
