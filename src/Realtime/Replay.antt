-- ===== src/Realtime/Replay.antt =====
-- realtime/resume.go: what a client that comes back with a cursor is given, against the whole log.
use maniflex.Prelude.{
  ℕ, zero, suc, ◌+◌, ◌-◌, ◌^◌, ◌%◌, ◌<◌, ◌≤◌, ◌≡◌, refl, ◌≢◌, ap, ◌∙◌, sym, true, false, inl, inr,
  none, some, List, [], ◌∷◌, ◌++◌, map, ltb, leb, if◌then◌else◌, length, drop, filter, All-map,
  arith, Bool-cases, length-append,
}
use maniflex.Prelude.Int.{ℤ, pos, negsuc}
use maniflex.Prelude.Bytes.{
  Bytes, format_uint, format_uint-IsDigit, parse_uint-format_uint, split_last-append,
}
use maniflex.Realtime.Resume.{
  BufferedEvent, ResumeStore, format_cursor, parse_cursor, bytes_eq, capacity_of, new_store, append,
  buffered, replay_ring, replay, append_all,
}
use maniflex.Realtime.Ring.{
  numbered, length-drop, drop-nil, drop-drop, kept, append-kept, append_all-kept,
}

bytes_eq_refl : (s : Bytes) → bytes_eq s s ≡ true
bytes_eq_refl [] = refl
bytes_eq_refl (x ∷ s) = ground (arith, bytes_eq_refl s)

bytes_eq_sound : (s t : Bytes) → bytes_eq s t ≡ true → s ≡ t
bytes_eq_sound [] [] h = refl
bytes_eq_sound [] (y ∷ t) h = cc
bytes_eq_sound (x ∷ s) [] h = cc
bytes_eq_sound (x ∷ s) (y ∷ t) h = ground (arith, bytes_eq_sound s t)

-- A cursor is read back as the epoch and the number it was made of, whatever bytes the epoch has.
pub parse_cursor-format_cursor :
    (epoch : Bytes) (n : ℕ) → n < 2 ^ 64 → parse_cursor (format_cursor epoch n) ≡ some (epoch, n)
unfolding parse_cursor format_cursor
parse_cursor-format_cursor epoch n h =
    let no_colon =
      All-map {Q = λ x. x ≢ b':'} (λ x d e. absurd (omega arith)) (format_uint n)
        (format_uint-IsDigit n) in
    rw (split_last-append b':' epoch (format_uint n) no_colon) (rw (parse_uint-format_uint n h))

capacity_pos : (capacity : ℤ) → 0 < capacity_of capacity
capacity_pos (pos zero) = omega arith
capacity_pos (pos (suc n)) = omega arith
capacity_pos (negsuc n) = omega arith

module _ {E : Type 0} where
  filter-later_all :
      (k d : ℕ) (es : List E) → k ≤ d → filter (λ se. ltb k se.seq) (numbered d es) ≡ numbered d es
  filter-later_all k d [] h = refl
  filter-later_all k d (e ∷ es) h = ground (arith, filter-later_all k (d + 1) es)

  filter-later :
      (k d : ℕ) (es : List E)
      → d ≤ k
      → filter (λ se. ltb k se.seq) (numbered d es) ≡ numbered k (drop (k - d) es)
  filter-later k d [] h = ap (numbered k) (sym (drop-nil (k - d)))
  filter-later k d (e ∷ es) h = elim (Bool-cases (ltb d k)) [
    | inl below ↦
        let seen : ltb k (d + 1) ≡ false = ground arith in
        let past : k - d ≡ suc (k - (d + 1)) = ground arith in
        rw (seen, past) (filter-later k (d + 1) es (ground arith))
    | inr level ↦
        let here : d ≡ k = ground arith in
        let nothing : k - k ≡ 0 = omega arith in
        rw here (rw nothing (filter-later_all k k (e ∷ es) (omega arith)))
  ]

  replay_ring-numbered :
      (m : ResumeStore E) (k d : ℕ) (e : E) (es : List E)
      → k < 2 ^ 64 - 1
      → replay_ring m k (numbered d (e ∷ es)) ≡ (
          if ltb k d
          then none
          else some (map (buffered m.epoch) (numbered k (drop (k - d) (e ∷ es)))))
  replay_ring-numbered m k d e es h =
      let wrap : (k + 1) % 2 ^ 64 ≡ k + 1 = omega arith in
      rw wrap (elim (Bool-cases (ltb k d)) [
        | inl gap ↦ let gap' : ltb (k + 1) (d + 1) ≡ true = ground arith in rw (gap, gap')
        | inr level ↦
            let level' : ltb (k + 1) (d + 1) ≡ false = ground arith in
            rw (level, level')
              (ap (λ r. some (map (buffered m.epoch) r)) (filter-later k d (e ∷ es) (ground arith)))
      ])

  nonempty : (es : List E) → 0 < length es → (x : E) × (xs : List E) × (es ≡ x ∷ xs)
  nonempty [] h = absurd (omega arith)
  nonempty (e ∷ es) h = (e, es, refl)

  -- What is replayed, of the log itself.
  abbrev pub missed : Bytes → ℕ → List E → List (BufferedEvent E)
  missed epoch k log = map (buffered epoch) (numbered k (drop k log))

  same_gap :
      (epoch : Bytes) (room k d : ℕ) (log : List E)
      → d ≡ length log - room
      → (if ltb k d
          then none
          else some (map (buffered epoch) (numbered k (drop (k - d) (drop d log)))))
        ≡ (if ltb (k + room) (length log) then none else some (missed epoch k log))
  same_gap epoch room k d log hd = elim (Bool-cases (ltb k d)) [
    | inl gap ↦ let gap' : ltb (k + room) (length log) ≡ true = ground arith in rw (gap, gap')
    | inr level ↦
        let level' : ltb (k + room) (length log) ≡ false = ground arith in
        let there : d + (k - d) ≡ k = ground arith in
        rw (level, level') (rw (drop-drop (k - d) d log) (rw there))
  ]

  replay_ring-kept :
      (epoch : Bytes) (room k : ℕ) (log : List E)
      → 0 < room
      → k < 2 ^ 64 - 1
      → replay_ring (kept epoch room log) k (kept epoch room log).ring
        ≡ (if ltb (k + room) (length log) then none else some (missed epoch k log))
  replay_ring-kept epoch room k [] hc hk =
      let nothing : 0 - room ≡ 0 = omega arith in
      let known : leb 0 k ≡ true = ground arith in
      let level : ltb (k + room) 0 ≡ false = ground arith in
      rw (nothing, known, level) (rw (drop-nil k))
  replay_ring-kept epoch room k (e ∷ es) hc hk =
      let log = e ∷ es in
      let d = length log - room in
      let (x, xs, rest) = nonempty (drop d log) (omega (arith, length-drop d log)) in
      ap (λ r. replay_ring (kept epoch room log) k (numbered d r)) rest
      ∙ replay_ring-numbered (kept epoch room log) k d x xs hk
      ∙ ap
          (λ r. if ltb k d then none else some (map (buffered epoch) (numbered k (drop (k - d) r))))
          (sym rest)
      ∙ same_gap epoch room k d log refl

  replay-kept :
      (epoch : Bytes) (room k : ℕ) (log : List E)
      → 0 < room
      → k < 2 ^ 64 - 1
      → replay (kept epoch room log) (format_cursor epoch k)
        ≡ (if ltb (k + room) (length log) then none else some (missed epoch k log))
  unfolding replay
  replay-kept epoch room k log hc hk =
      rw (parse_cursor-format_cursor epoch k (omega arith))
        (rw (bytes_eq_refl epoch) (replay_ring-kept epoch room k log hc hk))

  append_all-new_store :
      (epoch : Bytes) (capacity : ℤ) (log : List E)
      → length log < 2 ^ 64
      → append_all (new_store epoch capacity) log ≡ kept epoch (capacity_of capacity) log
  unfolding new_store
  append_all-new_store epoch capacity log h =
      let nothing : 0 - capacity_of capacity ≡ 0 = omega arith in
      let empty : kept epoch (capacity_of capacity) [] ≡ new_store epoch capacity =
        ap (λ r. record { epoch = epoch; seq = 0; cap = capacity_of capacity; ring = r })
          (ap (numbered (0 - capacity_of capacity)) (drop-nil (0 - capacity_of capacity))) in
      ap (λ m. append_all m log) (sym empty)
      ∙ append_all-kept epoch (capacity_of capacity) [] log (omega arith)

  -- A store against the log of all events it was ever given: a cursor of its own epoch, whatever number
  -- it carries, is answered with exactly the events of the log behind that number, in order, each under
  -- its cursor; it is refused exactly when more than the capacity of them came since, so that the ring
  -- has let some go. The store has seen fewer than 2 ^ 64 events, and the number is not the largest of
  -- 64 bits.
  pub replay-append_all :
      (epoch : Bytes) (capacity : ℤ) (log : List E) (k : ℕ)
      → length log < 2 ^ 64
      → k < 2 ^ 64 - 1
      → replay (append_all (new_store epoch capacity) log) (format_cursor epoch k)
        ≡ (if ltb (k + capacity_of capacity) (length log) then none else some (missed epoch k log))
  replay-append_all epoch capacity log k hl hk =
      rw (append_all-new_store epoch capacity log hl)
        (replay-kept epoch (capacity_of capacity) k log (capacity_pos capacity) hk)

  drop-length_append : (log es : List E) → drop (length log) (log ++ es) ≡ es
  drop-length_append [] es = refl
  drop-length_append (x ∷ log) es = drop-length_append log es

  -- A client that saw the event that Append stamped with a cursor, and comes back with that cursor when
  -- `more` events have followed, is given exactly those, in order; it is refused exactly when they are
  -- more than the capacity. The store never sees 2 ^ 64 - 1 events.
  pub resume_complete :
      (epoch : Bytes) (capacity : ℤ) (log : List E) (e : E) (more : List E)
      → length log + length more + 1 < 2 ^ 64 - 1
      → let seen = append (append_all (new_store epoch capacity) log) e in
        replay (append_all seen.0 more) seen.1 ≡ (
          if ltb (capacity_of capacity) (length more)
          then none
          else some (map (buffered epoch) (numbered (length log + 1) more)))
  resume_complete epoch capacity log e more h =
      let room = capacity_of capacity in
      let all = (log ++ (e ∷ [])) ++ more in
      let seen : length (log ++ (e ∷ [])) ≡ length log + 1 =
        omega (arith, length-append log (e ∷ [])) in
      let behind : drop (length log + 1) all ≡ more =
        ap (λ n. drop n all) (sym seen) ∙ drop-length_append (log ++ (e ∷ [])) more in
      let total : length all ≡ length log + 1 + length more =
        omega (arith, length-append (log ++ (e ∷ [])) more, seen) in
      let gap : ltb (length log + 1 + room) (length log + 1 + length more)
          ≡ ltb room (length more) =
        ground arith in
      ap (λ m. replay (append_all (append m e).0 more) (append m e).1)
        (append_all-new_store epoch capacity log (omega arith))
      ∙ ap (λ r. replay (append_all r.0 more) r.1) (append-kept epoch room log e (omega arith))
      ∙ ap (λ m. replay m (format_cursor epoch (length log + 1)))
          (append_all-kept epoch room (log ++ (e ∷ [])) more (omega (arith, seen)))
      ∙ replay-kept epoch room (length log + 1) all (capacity_pos capacity) (omega arith)
      ∙ rw (total, gap, behind)

  -- A cursor of another epoch, as one from before a restart, is refused whatever the store holds.
  pub replay_foreign :
      (m : ResumeStore E) (epoch : Bytes) (k : ℕ)
      → epoch ≢ m.epoch
      → k < 2 ^ 64
      → replay m (format_cursor epoch k) ≡ none
  unfolding replay
  replay_foreign m epoch k other h =
      rw (parse_cursor-format_cursor epoch k h) (elim (Bool-cases (bytes_eq epoch m.epoch)) [
        | inl same ↦ absurd (other (bytes_eq_sound epoch m.epoch same))
        | inr differ ↦ rw differ
      ])
