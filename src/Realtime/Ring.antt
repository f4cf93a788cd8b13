-- ===== src/Realtime/Ring.antt =====
-- realtime/resume.go: the ring as a window on the log of all events that were appended.
use maniflex.Prelude.{
  ℕ, zero, suc, ◌+◌, ◌-◌, ◌^◌, ◌%◌, ◌<◌, ◌≤◌, ◌≡◌, refl, ap, ◌∙◌, sym, inl, inr, List, [], ◌∷◌,
  ◌++◌, ltb, length, drop, arith, Bool-cases, append_assoc, append-nil, length-append,
}
use maniflex.Prelude.Bytes.{Bytes}
use maniflex.Realtime.Resume.{StoredEvent, ResumeStore, format_cursor, trimmed, append, append_all}

module _ {E : Type 0} where
  -- The events of a log with their numbers, counted from behind d.
  abbrev pub numbered : ℕ → List E → List (StoredEvent E)
  numbered d [] = []
  numbered d (e ∷ es) = record { seq = d + 1; ev = e } ∷ numbered (d + 1) es

  length-numbered : (d : ℕ) (es : List E) → length (numbered d es) ≡ length es
  length-numbered d [] = refl
  length-numbered d (e ∷ es) = omega (arith, length-numbered (d + 1) es)

  pub length-drop : (n : ℕ) (es : List E) → length (drop n es) ≡ length es - n
  length-drop zero es = omega arith
  length-drop (suc n) [] = omega arith
  length-drop (suc n) (e ∷ es) = omega (arith, length-drop n es)

  pub drop-nil : (n : ℕ) → drop n (let none_left : List E = [] in none_left) ≡ []
  drop-nil zero = refl
  drop-nil (suc n) = refl

  pub drop-drop : (m n : ℕ) (es : List E) → drop m (drop n es) ≡ drop (n + m) es
  drop-drop m zero es = ap (λ k. drop k es) (omega arith)
  drop-drop m (suc n) [] = drop-nil m ∙ sym (drop-nil (suc n + m))
  drop-drop m (suc n) (e ∷ es) =
      let shift : suc n + m ≡ suc (n + m) = omega arith in rw shift (drop-drop m n es)

  drop-append : (n : ℕ) (es fs : List E) → n ≤ length es → drop n (es ++ fs) ≡ drop n es ++ fs
  drop-append zero es fs h = refl
  drop-append (suc n) [] fs h = absurd (omega arith)
  drop-append (suc n) (e ∷ es) fs h = drop-append n es fs (omega arith)

  drop-numbered : (m d : ℕ) (es : List E) → drop m (numbered d es) ≡ numbered (d + m) (drop m es)
  drop-numbered zero d es = ap (λ k. numbered k es) (omega arith)
  drop-numbered (suc m) d [] = refl
  drop-numbered (suc m) d (e ∷ es) =
      drop-numbered m (d + 1) es ∙ ap (λ k. numbered k (drop m es)) (omega arith)

  numbered-append :
      (d n : ℕ) (es : List E) (e : E)
      → n ≡ d + length es + 1
      → numbered d (es ++ (e ∷ [])) ≡ numbered d es ++ (record { seq = n; ev = e } ∷ [])
  numbered-append d n [] e h = ap (λ k. record { seq = k; ev = e } ∷ []) (omega arith)
  numbered-append d n (x ∷ es) e h =
      ap (λ r. record { seq = d + 1; ev = x } ∷ r) (numbered-append (d + 1) n es e (omega arith))

  -- The store that has seen a log: the last events of it, as many as the capacity, numbered.
  abbrev pub kept : Bytes → ℕ → List E → ResumeStore E
  kept epoch room log = record {
    epoch = epoch;
    seq = length log;
    cap = room;
    ring = numbered (length log - room) (drop (length log - room) log);
  }

  trimmed-drop :
      (room : ℕ) (ring : List (StoredEvent E)) → trimmed room ring ≡ drop (length ring - room) ring
  trimmed-drop room ring = elim (Bool-cases (ltb room (length ring))) [
    | inl over ↦ rw over
    | inr under ↦ let nothing : length ring - room ≡ 0 = ground arith in rw (under, nothing)
  ]

  ring-append :
      (room n d : ℕ) (log : List E) (e : E)
      → n ≡ length log + 1
      → d ≡ length log - room
      → trimmed room (numbered d (drop d log) ++ (record { seq = n; ev = e } ∷ []))
        ≡ numbered (n - room) (drop (n - room) (log ++ (e ∷ [])))
  ring-append room n d log e hn hd =
      let within : d ≤ length log = omega arith in
      let longer : length (drop d (log ++ (e ∷ []))) ≡ n - d =
        length-drop d (log ++ (e ∷ [])) ∙ omega (arith, length-append log (e ∷ [])) in
      let excess = n - d - room in
      let there : d + excess ≡ n - room = omega arith in
      rw (← numbered-append d n (drop d log) e (omega (arith, length-drop d log))) (
        rw (← drop-append d log (e ∷ []) within) (
          trimmed-drop room (numbered d (drop d (log ++ (e ∷ []))))
          ∙ rw (length-numbered d (drop d (log ++ (e ∷ []))), longer)
              (drop-numbered excess d (drop d (log ++ (e ∷ [])))
                ∙ rw (drop-drop excess d (log ++ (e ∷ [])), there))))

  pub append-kept :
      (epoch : Bytes) (room : ℕ) (log : List E) (e : E)
      → length log + 1 < 2 ^ 64
      → append (kept epoch room log) e
        ≡ (kept epoch room (log ++ (e ∷ [])), format_cursor epoch (length log + 1))
  unfolding append
  append-kept epoch room log e h =
      let wrap : (length log + 1) % 2 ^ 64 ≡ length log + 1 = omega arith in
      let longer : length (log ++ (e ∷ [])) ≡ length log + 1 =
        omega (arith, length-append log (e ∷ [])) in
      rw (wrap, longer)
        (ap
          (λ r. (
            record { epoch = epoch; seq = length log + 1; cap = room; ring = r },
            format_cursor epoch (length log + 1),
          ))
          (ring-append room (length log + 1) (length log - room) log e refl refl))

  pub append_all-kept :
      (epoch : Bytes) (room : ℕ) (log es : List E)
      → length log + length es < 2 ^ 64
      → append_all (kept epoch room log) es ≡ kept epoch room (log ++ es)
  unfolding append_all
  append_all-kept epoch room log [] h = rw append-nil
  append_all-kept epoch room log (e ∷ es) h =
      ap (λ r. append_all r.0 es) (append-kept epoch room log e (omega arith))
      ∙ append_all-kept epoch room (log ++ (e ∷ [])) es (omega (arith, length-append log (e ∷ [])))
      ∙ ap (kept epoch room) (append_assoc log (e ∷ []) es)
