-- ===== src/Ledger/Closed.antt =====
-- pkg/ledger/ledger.go: a Post that fails leaves no transaction open that was not open before.
use maniflex.Prelude.{ℕ, ◌+◌, ◌≡◌, ◌≢◌, ◌⊎◌, inl, inr, String, Option, none, some, List, [], ◌∷◌}
use maniflex.Ledger.Lines.{LineInput, LedgerError}
use maniflex.Ledger.Post.{
  EntryInput, LedgerLine, Answer, Database, ok, failed, next_line, insert_lines, entry_written,
  with_entry, line_row, write_entry_and_lines, committed, finish_own, post_own, post_in,
}

-- Which transactions a database holds open: Begin opens the one that it returns, and no other call opens
-- one, whether it succeeds or fails; a rollback closes its transaction.
pub record Tracks {W T : Type 0} (db : Database W T) (IsOpen : T → W → Type 0) : Type 0 where
  pub begins :
      (u : T) (w : W) → IsOpen u (db.begin_tx w).0 → IsOpen u w ⊎ ((db.begin_tx w).1 ≡ ok u)
  pub creates_entry :
      (u t : T) (e : EntryInput) (w : W) → IsOpen u (db.create_entry (some t) e w).0 → IsOpen u w
  pub creates_line :
      (u t : T) (l : LedgerLine) (w : W) → IsOpen u (db.create_line (some t) l w).0 → IsOpen u w
  pub commits : (u t : T) (w : W) → IsOpen u (db.commit (some t) w).0 → IsOpen u w
  pub rolls_back : (u t : T) (w : W) → IsOpen u (db.rollback (some t) w) → IsOpen u w × (u ≢ t)

module _ {W T : Type 0} (db : Database W T) (IsOpen : T → W → Type 0) (laws : Tracks db IsOpen)
    (u : T) where
  next_line-opens :
      (i : ℕ) (r : W × Option String) (rest : W → W × Option LedgerError)
      → ((w : W) → IsOpen u (rest w).0 → IsOpen u w)
      → IsOpen u (next_line i r rest).0
      → IsOpen u r.0
  next_line-opens i (w, none) rest k h = k w h
  next_line-opens i (w, some e) rest k h = h

  insert_lines-opens :
      (t : T) (entry : String) (i : ℕ) (ls : List LineInput) (w : W)
      → IsOpen u (insert_lines db (some t) entry i ls w).0
      → IsOpen u w
  unfolding insert_lines
  insert_lines-opens t entry i [] w h = h
  insert_lines-opens t entry i (l ∷ ls) w h = laws.creates_line u t (line_row entry l) w (
      next_line-opens i (db.create_line (some t) (line_row entry l) w)
        (insert_lines db (some t) entry (i + 1) ls) (insert_lines-opens t entry (i + 1) ls) h)

  entry_written-opens :
      (entry : String) (r : W × Option LedgerError)
      → IsOpen u (entry_written entry r).0
      → IsOpen u r.0
  entry_written-opens entry (w, none) h = h
  entry_written-opens entry (w, some e) h = h

  with_entry-opens :
      (t : T) (lines : List LineInput) (r : W × Answer String String)
      → IsOpen u (with_entry db (some t) lines r).0
      → IsOpen u r.0
  with_entry-opens t lines (w, failed e) h = h
  with_entry-opens t lines (w, ok entry) h =
      insert_lines-opens t entry 0 lines w
        (entry_written-opens entry (insert_lines db (some t) entry 0 lines w) h)

  write-opens :
      (t : T) (entry : EntryInput) (lines : List LineInput) (w : W)
      → IsOpen u (write_entry_and_lines db (some t) entry lines w).0
      → IsOpen u w
  unfolding write_entry_and_lines
  write-opens t entry lines w h =
      laws.creates_entry u t entry w (with_entry-opens t lines (db.create_entry (some t) entry w) h)

  -- A transaction of its own is no longer open, and no other has been opened.
  committed-closes :
      (t : T) (entry : String) (r : W × Option String) (e : LedgerError)
      → (committed db (some t) entry r).1 ≡ failed e
      → IsOpen u (committed db (some t) entry r).0.world
      → IsOpen u r.0 × (u ≢ t)
  committed-closes t entry (w, none) e k h = let no : ok entry ≡ failed e = k in cc
  committed-closes t entry (w, some f) e k h = laws.rolls_back u t w h

  finish_own-closes :
      (t : T) (r : W × Answer String LedgerError) (e : LedgerError)
      → (finish_own db (some t) r).1 ≡ failed e
      → IsOpen u (finish_own db (some t) r).0.world
      → IsOpen u r.0 × (u ≢ t)
  finish_own-closes t (w, failed f) e k h = laws.rolls_back u t w h
  finish_own-closes t (w, ok entry) e k h =
      let (open_still, other) = committed-closes t entry (db.commit (some t) w) e k h in
      (laws.commits u t w open_still, other)

  post_own-closes :
      (entry : EntryInput) (lines : List LineInput) (r : W × Answer T String) (w : W)
      (e : LedgerError)
      → (IsOpen u r.0 → IsOpen u w ⊎ (r.1 ≡ ok u))
      → (post_own db entry lines r).1 ≡ failed e
      → IsOpen u (post_own db entry lines r).0.world
      → IsOpen u w
  post_own-closes entry lines (v, failed f) w e begun k h = elim (begun h) [
    | inl before ↦ before
    | inr opened ↦ let no : failed f ≡ ok u = opened in cc
  ]
  post_own-closes entry lines (v, ok t) w e begun k h =
      let (written, other) =
        finish_own-closes t (write_entry_and_lines db (some t) entry lines v) e k h in
      elim (begun (write-opens t entry lines v written)) [
        | inl before ↦ before
        | inr opened ↦ let same : ok t ≡ ok u = opened in absurd (other (cc))
      ]

  pub post_in-closes :
      (entry : EntryInput) (lines : List LineInput) (tx : Option T) (w : W) (e : LedgerError)
      → (post_in db entry lines tx w).1 ≡ failed e
      → IsOpen u (post_in db entry lines tx w).0.world
      → IsOpen u w
  post_in-closes entry lines none w e k h =
      post_own-closes entry lines (db.begin_tx w) w e (laws.begins u w) k h
  post_in-closes entry lines (some t) w e k h = write-opens t entry lines w h
