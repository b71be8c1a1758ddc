-- ===== src/Store/UpSection/Sections.antt =====
-- What extractUpMigrationSQL of internal/store/db.go takes from a file with both sections.
use Prim.Native.Char.{Char, code}
use shuosc_network_server_ba.Common.{
  ◌≡◌, refl, ap, ◌∙◌, String, false, some, List, [], ◌∷◌, ◌++◌, ◌==◌, All, arith,
}
use shuosc_network_server_ba.Common.Words.{trim_space, concat, any_rune}
use shuosc_network_server_ba.Store.UpSection.{
  split_lines, join_lines, up_line, down_line, sql_line, line_kind, up_lines, from_up, unless_empty,
  extract_up_migration_sql,
}

-- A line holds no line feed.
abbrev pub IsLine : String → Type 0
IsLine l = any_rune (λ c. c == 10) l ≡ false

IsLine-tail :
    (c : Char) (l : String) → IsLine (String.◌∷◌ c l) → ((code c == 10) ≡ false) × IsLine l
unfolding any_rune
IsLine-tail c l h = ground arith

split-concat :
    (l t : String) → IsLine l → split_lines (concat l (String.◌∷◌ "\n" t)) ≡ l ∷ split_lines t
unfolding split_lines any_rune
split-concat String.[] t h = refl
split-concat (String.◌∷◌ c l) t h =
    rw ((IsLine-tail c l h).0, split-concat l t (IsLine-tail c l h).1) refl

split-line : (l : String) → IsLine l → split_lines l ≡ l ∷ []
unfolding split_lines any_rune
split-line String.[] h = refl
split-line (String.◌∷◌ c l) h = rw ((IsLine-tail c l h).0, split-line l (IsLine-tail c l h).1) refl

pub split-join :
    (l : String) (ls : List String)
    → All IsLine (l ∷ ls)
    → split_lines (join_lines (l ∷ ls)) ≡ l ∷ ls
unfolding join_lines
split-join l [] h = split-line l h.0
split-join l (m ∷ ms) h =
    split-concat l (join_lines (m ∷ ms)) h.0 ∙ ap (λ rest. l ∷ rest) (split-join m ms h.1)

from_up-skips :
    (intro rest : List String)
    → All (λ l. line_kind l ≡ sql_line) intro
    → from_up (intro ++ rest) ≡ from_up rest
unfolding from_up
from_up-skips [] rest h = refl
from_up-skips (l ∷ ls) rest h = rw (from_up, h.0) (from_up-skips ls rest h.1)

up_lines-until :
    (body rest : List String) (down : String)
    → All (λ l. line_kind l ≡ sql_line) body
    → line_kind down ≡ down_line
    → up_lines (body ++ (down ∷ rest)) ≡ body
unfolding up_lines
up_lines-until [] rest down h d = rw (up_lines, d) refl
up_lines-until (l ∷ ls) rest down h d = rw (up_lines, h.0, up_lines-until ls rest down h.1 d) refl

found_section :
    (intro body rest : List String) (up down : String)
    → All (λ l. line_kind l ≡ sql_line) intro
    → All (λ l. line_kind l ≡ sql_line) body
    → line_kind up ≡ up_line
    → line_kind down ≡ down_line
    → from_up (intro ++ (up ∷ (body ++ (down ∷ rest)))) ≡ some body
unfolding from_up
found_section intro body rest up down i b u d =
    from_up-skips intro (up ∷ (body ++ (down ∷ rest))) i
    ∙ rw (from_up, u, up_lines-until body rest down b d) refl

-- The lines of a text that has one.
split-text :
    (intro rest : List String) (up : String)
    → All IsLine (intro ++ (up ∷ rest))
    → split_lines (join_lines (intro ++ (up ∷ rest))) ≡ intro ++ (up ∷ rest)
split-text [] rest up h = split-join up rest h
split-text (l ∷ ls) rest up h = split-join l (ls ++ (up ∷ rest)) h

-- If a file has, line by line, an introduction that may be empty and a section, neither with a marker,
-- such that a line that is Up once trimmed stands between them and one that is Down behind the section,
-- then the SQL is the trimmed section, whatever follows, and an error if that is empty.
pub extract_up_migration_sql-section :
    (intro body rest : List String) (up down : String)
    → All (λ l. line_kind l ≡ sql_line) intro
    → All (λ l. line_kind l ≡ sql_line) body
    → line_kind up ≡ up_line
    → line_kind down ≡ down_line
    → All IsLine (intro ++ (up ∷ (body ++ (down ∷ rest))))
    → extract_up_migration_sql (join_lines (intro ++ (up ∷ (body ++ (down ∷ rest)))))
      ≡ unless_empty (trim_space (join_lines body))
unfolding extract_up_migration_sql
extract_up_migration_sql-section intro body rest up down i b u d lines =
    rw
      (
        extract_up_migration_sql,
        split-text intro (body ++ (down ∷ rest)) up lines,
        found_section intro body rest up down i b u d,
      )
      refl
