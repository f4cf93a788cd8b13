-- ===== src/Ledger/Post.antt =====
-- pkg/ledger/ledger.go: Ledger.Post, writeEntryAndLines and insertLines.
--
-- The database is a parameter: `W` is its state, `T` a transaction. An operation returns the state that
-- it leaves, and its result or its error. `create_entry` and `create_line` are maniflex.Create in a
-- context with that transaction; an entry is known by the id that its row got. The clock, which stamps
-- the entry, is part of `create_entry`.
use maniflex.Prelude.{ℕ, ◌+◌, String, Option, none, some, List, [], ◌∷◌, ltb, if◌then◌else◌, length}
use maniflex.Prelude.Int.{ℤ}
use maniflex.Ledger.Lines.{
  LineInput, LedgerError, no_lines, begin_failed, insert_entry_failed, insert_line_failed,
  commit_failed, validate_lines, validate_balance, line_currency, or_else,
}

pub record EntryInput : Type 0 where
  pub description : String
  pub reference : String
  pub period_id : String
  pub date : ℕ

-- The row of a leg.
pub record LedgerLine : Type 0 where
  pub entry_id : String
  pub account_id : String
  pub debit_cents : ℤ
  pub credit_cents : ℤ
  pub currency : String
  pub notes : String

pub data Answer (A E : Type 0) : Type 0 where
  ok : A → Answer A E
  failed : E → Answer A E

pub record Database (W T : Type 0) : Type 0 where
  pub begin_tx : W → W × Answer T String
  pub create_entry : Option T → EntryInput → W → W × Answer String String
  pub create_line : Option T → LedgerLine → W → W × Option String
  pub commit : Option T → W → W × Option String
  pub rollback : Option T → W → W

-- The transaction of the request, and the database.
pub record LedgerContext (W T : Type 0) : Type 0 where
  pub tx : Option T
  pub world : W

abbrev pub line_row : String → LineInput → LedgerLine
line_row entry l = record {
  entry_id = entry;
  account_id = l.account_id;
  debit_cents = l.debit.cents;
  credit_cents = l.credit.cents;
  currency = line_currency l;
  notes = l.notes;
}

abbrev pub next_line :
    {W : Type 0} → ℕ → W × Option String → (W → W × Option LedgerError) → W × Option LedgerError
next_line i (w, none) rest = rest w
next_line i (w, some e) rest = (w, some (insert_line_failed i e))

abbrev pub entry_written :
    {W : Type 0} → String → W × Option LedgerError → W × Answer String LedgerError
entry_written entry (w, none) = (w, ok entry)
entry_written entry (w, some e) = (w, failed e)

abbrev pub checks : List LineInput → Option LedgerError
checks lines =
    if ltb (length lines) 2
    then some no_lines
    else or_else (validate_lines 0 lines) (validate_balance lines)

module _ {W T : Type 0} where
  -- The loop, from line i on.
  unfoldable pub insert_lines :
      Database W T → Option T → String → ℕ → List LineInput → W → W × Option LedgerError
  insert_lines db tx entry i [] w = (w, none)
  insert_lines db tx entry i (l ∷ ls) w =
      next_line i (db.create_line tx (line_row entry l) w) (insert_lines db tx entry (i + 1) ls)

  abbrev pub with_entry :
      Database W T
      → Option T
      → List LineInput
      → W × Answer String String
      → W × Answer String LedgerError
  with_entry db tx lines (w, failed e) = (w, failed (insert_entry_failed e))
  with_entry db tx lines (w, ok entry) = entry_written entry (insert_lines db tx entry 0 lines w)

  unfoldable pub write_entry_and_lines :
      Database W T → Option T → EntryInput → List LineInput → W → W × Answer String LedgerError
  unfolding insert_lines
  write_entry_and_lines db tx entry lines w = with_entry db tx lines (db.create_entry tx entry w)

  -- The end of a transaction of Post's own.
  abbrev pub committed :
      Database W T
      → Option T
      → String
      → W × Option String
      → LedgerContext W T × Answer String LedgerError
  committed db tx entry (w, none) = (record { tx = none; world = w }, ok entry)
  committed db tx entry (w, some e) =
      (record { tx = none; world = db.rollback tx w }, failed (commit_failed e))

  abbrev pub finish_own :
      Database W T
      → Option T
      → W × Answer String LedgerError
      → LedgerContext W T × Answer String LedgerError
  finish_own db tx (w, failed e) = (record { tx = none; world = db.rollback tx w }, failed e)
  finish_own db tx (w, ok entry) = committed db tx entry (db.commit tx w)

  abbrev pub post_own :
      Database W T
      → EntryInput
      → List LineInput
      → W × Answer T String
      → LedgerContext W T × Answer String LedgerError
  post_own db entry lines (w, failed e) = (record { tx = none; world = w }, failed (begin_failed e))
  post_own db entry lines (w, ok t) =
      finish_own db (some t) (write_entry_and_lines db (some t) entry lines w)

  abbrev pub joined :
      T → W × Answer String LedgerError → LedgerContext W T × Answer String LedgerError
  joined t (w, answer) = (record { tx = some t; world = w }, answer)

  -- A transaction of the caller's is joined and left open.
  abbrev pub post_in :
      Database W T
      → EntryInput
      → List LineInput
      → Option T
      → W
      → LedgerContext W T × Answer String LedgerError
  post_in db entry lines none w = post_own db entry lines (db.begin_tx w)
  post_in db entry lines (some t) w = joined t (write_entry_and_lines db (some t) entry lines w)

  abbrev pub post_checked :
      Database W T
      → EntryInput
      → List LineInput
      → LedgerContext W T
      → Option LedgerError
      → LedgerContext W T × Answer String LedgerError
  post_checked db entry lines c (some e) = (c, failed e)
  post_checked db entry lines c none = post_in db entry lines c.tx c.world

  unfoldable pub post :
      Database W T
      → EntryInput
      → List LineInput
      → LedgerContext W T
      → LedgerContext W T × Answer String LedgerError
  unfolding write_entry_and_lines
  post db entry lines c = post_checked db entry lines c (checks lines)
