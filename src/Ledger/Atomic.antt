-- ===== src/Ledger/Atomic.antt =====
-- pkg/ledger/ledger.go: a Post that fails leaves nothing behind.
use maniflex.Prelude.{
  ℕ, ◌+◌, ◌≡◌, refl, ◌∙◌, inl, inr, String, Option, none, some, List, [], ◌∷◌, Option-cases,
}
use maniflex.Ledger.Lines.{LineInput, LedgerError}
use maniflex.Ledger.Closed.{Tracks, post_in-closes}
use maniflex.Ledger.Post.{
  EntryInput, LedgerLine, Answer, Database, LedgerContext, ok, failed, next_line, insert_lines,
  entry_written, with_entry, line_row, write_entry_and_lines, committed, finish_own, post_own,
  post_in, checks, post,
}

-- What a database promises of its transactions: what others see of it, `visible`, is changed by a
-- commit that succeeds, and by nothing else that is done in a transaction.
pub record Transactional {W T D : Type 0} (db : Database W T) (visible : W → D) : Type 0 where
  pub begun : (w : W) → visible (db.begin_tx w).0 ≡ visible w
  pub entry_hidden :
      (t : T) (e : EntryInput) (w : W) → visible (db.create_entry (some t) e w).0 ≡ visible w
  pub line_hidden :
      (t : T) (l : LedgerLine) (w : W) → visible (db.create_line (some t) l w).0 ≡ visible w
  pub rolled_back : (t : T) (w : W) → visible (db.rollback (some t) w) ≡ visible w
  pub not_committed :
      (t : T) (w : W) (e : String)
      → (db.commit (some t) w).1 ≡ some e
      → visible (db.commit (some t) w).0 ≡ visible w

module _ {W T D : Type 0} (db : Database W T) (visible : W → D)
    (laws : Transactional db visible) where
  next_line-visible :
      (i : ℕ) (r : W × Option String) (rest : W → W × Option LedgerError) (seen : D)
      → visible r.0 ≡ seen
      → ((w : W) → visible (rest w).0 ≡ visible w)
      → visible (next_line i r rest).0 ≡ seen
  next_line-visible i (w, none) rest seen h k = k w ∙ h
  next_line-visible i (w, some e) rest seen h k = h

  insert_lines-visible :
      (t : T) (entry : String) (i : ℕ) (ls : List LineInput) (w : W)
      → visible (insert_lines db (some t) entry i ls w).0 ≡ visible w
  unfolding insert_lines
  insert_lines-visible t entry i [] w = refl
  insert_lines-visible t entry i (l ∷ ls) w =
      next_line-visible i (db.create_line (some t) (line_row entry l) w)
        (insert_lines db (some t) entry (i + 1) ls) (visible w)
        (laws.line_hidden t (line_row entry l) w) (insert_lines-visible t entry (i + 1) ls)

  entry_written-visible :
      (entry : String) (r : W × Option LedgerError)
      → visible (entry_written entry r).0 ≡ visible r.0
  entry_written-visible entry (w, none) = refl
  entry_written-visible entry (w, some e) = refl

  with_entry-visible :
      (t : T) (lines : List LineInput) (r : W × Answer String String)
      → visible (with_entry db (some t) lines r).0 ≡ visible r.0
  with_entry-visible t lines (w, failed e) = refl
  with_entry-visible t lines (w, ok entry) =
      entry_written-visible entry (insert_lines db (some t) entry 0 lines w)
      ∙ insert_lines-visible t entry 0 lines w

  write-visible :
      (t : T) (entry : EntryInput) (lines : List LineInput) (w : W)
      → visible (write_entry_and_lines db (some t) entry lines w).0 ≡ visible w
  unfolding write_entry_and_lines
  write-visible t entry lines w =
      with_entry-visible t lines (db.create_entry (some t) entry w) ∙ laws.entry_hidden t entry w

  -- The transaction is over, and what others see is as it was.
  abbrev Undone : Option T → D → LedgerContext W T → Type 0
  Undone tx seen c = (visible c.world ≡ seen) × (c.tx ≡ tx)

  committed-Undone :
      (t : T) (entry : String) (r : W × Option String) (seen : D) (e : LedgerError)
      → ((f : String) → r.1 ≡ some f → visible r.0 ≡ seen)
      → (committed db (some t) entry r).1 ≡ failed e
      → Undone none seen (committed db (some t) entry r).0
  committed-Undone t entry (w, none) seen e h k = let no : ok entry ≡ failed e = k in cc
  committed-Undone t entry (w, some f) seen e h k = (laws.rolled_back t w ∙ h f refl, refl)

  finish_own-Undone :
      (t : T) (r : W × Answer String LedgerError) (seen : D) (e : LedgerError)
      → visible r.0 ≡ seen
      → (finish_own db (some t) r).1 ≡ failed e
      → Undone none seen (finish_own db (some t) r).0
  finish_own-Undone t (w, failed f) seen e h k = (laws.rolled_back t w ∙ h, refl)
  finish_own-Undone t (w, ok entry) seen e h k =
      committed-Undone t entry (db.commit (some t) w) seen e
        (λ f not_done. laws.not_committed t w f not_done ∙ h) k

  post_own-Undone :
      (entry : EntryInput) (lines : List LineInput) (r : W × Answer T String) (seen : D)
      (e : LedgerError)
      → visible r.0 ≡ seen
      → (post_own db entry lines r).1 ≡ failed e
      → Undone none seen (post_own db entry lines r).0
  post_own-Undone entry lines (w, failed f) seen e h k = (h, refl)
  post_own-Undone entry lines (w, ok t) seen e h k =
      finish_own-Undone t (write_entry_and_lines db (some t) entry lines w) seen e
        (write-visible t entry lines w ∙ h) k

  post_in-Undone :
      (entry : EntryInput) (lines : List LineInput) (tx : Option T) (w : W) (e : LedgerError)
      → (post_in db entry lines tx w).1 ≡ failed e
      → Undone tx (visible w) (post_in db entry lines tx w).0
  post_in-Undone entry lines none w e h =
      post_own-Undone entry lines (db.begin_tx w) (visible w) e (laws.begun w) h
  post_in-Undone entry lines (some t) w e h = (write-visible t entry lines w, refl)

-- A Post that fails, at a check, at the database or at the commit, leaves what others see of the
-- database as it was, however many rows it had written, the request in the transaction in which it was,
-- and no transaction open that was not open before, so that its own one is closed; if the database
-- keeps its promises on transactions.
pub post_atomic :
    {W T D : Type 0} (db : Database W T) (visible : W → D) (IsOpen : T → W → Type 0)
    (entry : EntryInput) (lines : List LineInput) (c : LedgerContext W T) (e : LedgerError)
    → Transactional db visible
    → Tracks db IsOpen
    → (post db entry lines c).1 ≡ failed e
    → (visible (post db entry lines c).0.world ≡ visible c.world)
      × ((post db entry lines c).0.tx ≡ c.tx)
      × ((u : T) → IsOpen u (post db entry lines c).0.world → IsOpen u c.world)
unfolding post
post_atomic db visible IsOpen entry lines c e laws tracks h = elim (Option-cases (checks lines)) [
  | inl passed ↦
      let (seen, left) =
        post_in-Undone db visible laws entry lines c.tx c.world e (rw passed at h) in
      rw passed (
        seen,
        left,
        λ u. post_in-closes db IsOpen tracks u entry lines c.tx c.world e (rw passed at h),
      )
  | inr (f, refused) ↦ rw refused (refl, refl, λ u h. h)
]
