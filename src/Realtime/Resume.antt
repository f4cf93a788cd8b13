-- ===== src/Realtime/Resume.antt =====
-- realtime/resume.go: memoryResumeStore and the cursors that it stamps.
--
-- `E` is the type of the events, which are only stored. A store is a record, and a mutex makes each
-- operation one step. The epoch that newEpoch draws is an argument.
use maniflex.Prelude.{
  ℕ, zero, suc, ◌+◌, ◌-◌, ◌^◌, ◌%◌, Bool, true, false, Option, none, some, List, [], ◌∷◌, ◌++◌, map,
  ltb, leb, ◌==◌, if◌then◌else◌, length, drop, filter,
}
use maniflex.Prelude.Int.{ℤ, pos, negsuc}
use maniflex.Prelude.Bytes.{Bytes, format_uint, parse_uint, split_last}

pub record StoredEvent (E : Type 0) : Type 0 where
  pub seq : ℕ
  pub ev : E

pub record BufferedEvent (E : Type 0) : Type 0 where
  pub cursor : Bytes
  pub event : E

pub record ResumeStore (E : Type 0) : Type 0 where
  pub epoch : Bytes
  pub seq : ℕ
  pub cap : ℕ
  pub ring : List (StoredEvent E)

unfoldable pub format_cursor : Bytes → ℕ → Bytes
format_cursor epoch seq = epoch ++ (b':' ∷ format_uint seq)

abbrev read_seq : Bytes → Option ℕ → Option (Bytes × ℕ)
read_seq epoch none = none
read_seq epoch (some n) = some (epoch, n)

abbrev split_cursor : Option (Bytes × Bytes) → Option (Bytes × ℕ)
split_cursor none = none
split_cursor (some (epoch, s)) = read_seq epoch (parse_uint s)

unfoldable pub parse_cursor : Bytes → Option (Bytes × ℕ)
parse_cursor s = split_cursor (split_last b':' s)

-- The comparison of two epochs.
abbrev pub bytes_eq : Bytes → Bytes → Bool
bytes_eq [] [] = true
bytes_eq [] (y ∷ t) = false
bytes_eq (x ∷ s) [] = false
bytes_eq (x ∷ s) (y ∷ t) = if x == y then bytes_eq s t else false

-- A capacity of 0 or less stands for 1024.
abbrev pub capacity_of : ℤ → ℕ
capacity_of (pos zero) = 1024
capacity_of (pos (suc n)) = suc n
capacity_of (negsuc n) = 1024

module _ {E : Type 0} where
  unfoldable pub new_store : Bytes → ℤ → ResumeStore E
  new_store epoch capacity = record {
    epoch = epoch;
    seq = 0;
    cap = capacity_of capacity;
    ring = [];
  }

  -- The ring without what is over the capacity, its oldest entries.
  abbrev pub trimmed : ℕ → List (StoredEvent E) → List (StoredEvent E)
  trimmed room ring = if ltb room (length ring) then drop (length ring - room) ring else ring

  unfoldable pub append : ResumeStore E → E → ResumeStore E × Bytes
  append m e =
      let seq = (m.seq + 1) % 2 ^ 64 in
      (
        record m {
          seq = seq;
          ring = trimmed m.cap (m.ring ++ (record { seq = seq; ev = e } ∷ []));
        },
        format_cursor m.epoch seq,
      )

  abbrev pub buffered : Bytes → StoredEvent E → BufferedEvent E
  buffered epoch se = record { cursor = format_cursor epoch se.seq; event = se.ev }

  -- What the ring holds behind a sequence number; none asks the client to resync.
  abbrev pub replay_ring :
      ResumeStore E → ℕ → List (StoredEvent E) → Option (List (BufferedEvent E))
  replay_ring m seq [] = if leb m.seq seq then some [] else none
  replay_ring m seq (oldest ∷ ring) =
      if ltb ((seq + 1) % 2 ^ 64) oldest.seq
      then none
      else some (map (buffered m.epoch) (filter (λ se. ltb seq se.seq) (oldest ∷ ring)))

  abbrev pub replay_from : ResumeStore E → Option (Bytes × ℕ) → Option (List (BufferedEvent E))
  replay_from m none = none
  replay_from m (some (epoch, seq)) =
      if bytes_eq epoch m.epoch then replay_ring m seq m.ring else none

  unfoldable pub replay : ResumeStore E → Bytes → Option (List (BufferedEvent E))
  unfolding parse_cursor
  replay m after = replay_from m (parse_cursor after)

  -- A history of appends.
  unfoldable pub append_all : ResumeStore E → List E → ResumeStore E
  unfolding append
  append_all m [] = m
  append_all m (e ∷ es) = append_all (append m e).0 es
