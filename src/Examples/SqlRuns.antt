-- ===== src/Examples/SqlRuns.antt =====
-- db/sqlcore/rebind.go on statements with marks in and outside of code.
use maniflex.Prelude.{◌≡◌, refl}
use maniflex.Prelude.Bytes.{codes, format_uint}
use maniflex.Sql.Scan.{scan_sql}
use maniflex.Sql.Rebind.{postgres, sqlite, rebind, strip_literals_and_comments}
use maniflex.Sql.Pieces.{texts, texts-scan_sql}

literal_kept :
    rebind postgres (codes "a=? AND b='?''?' AND c=?") ≡ codes "a=$1 AND b='?''?' AND c=$2"
unfolding rebind format_uint
literal_kept = refl

comments_kept :
    rebind postgres (codes "/* ? /* ? */ ? */ x ?| y -- ?") ≡ codes "/* ? /* ? */ ? */ x ?| y -- ?"
unfolding rebind format_uint
comments_kept = refl

-- A backslash escapes the quote of an E-string only.
escapes : rebind postgres (codes "E'\\'?' ? '\\' ?") ≡ codes "E'\\'?' $1 '\\' $2"
unfolding rebind format_uint
escapes = refl

dollar_quoted : rebind postgres (codes "$f$ ? $g$ ? $f$ ? $1") ≡ codes "$f$ ? $g$ ? $f$ $1 $1"
unfolding rebind format_uint
dollar_quoted = refl

native_marks : rebind sqlite (codes "a=?") ≡ codes "a=?"
unfolding rebind
native_marks = refl

stripped : strip_literals_and_comments (codes "x 'returning' y") ≡ codes "x   y"
unfolding strip_literals_and_comments
stripped = refl

texts-scan_sql_example : texts (scan_sql (codes "a='?' -- ?")) ≡ codes "a='?' -- ?"
texts-scan_sql_example = texts-scan_sql (codes "a='?' -- ?")

-- A dollar inside a name opens a text for the scanner, and hides the mark up to the next such name.
dollar_names : rebind postgres (codes "t$x$=? AND u$x$=?") ≡ codes "t$x$=? AND u$x$=$1"
unfolding rebind format_uint
dollar_names = refl
