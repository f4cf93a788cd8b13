-- ===== src/Sql/Pieces.antt =====
-- db/sqlcore/rebind.go: a scan loses no byte.
use maniflex.Prelude.{
  ℕ, zero, suc, ◌+◌, ◌≤◌, ◌<◌, ◌≡◌, refl, ap, ◌∙◌, false, Option, none, some, List, [], ◌∷◌, ◌++◌,
  arith, length, take, drop,
}
use maniflex.Prelude.Bytes.{Bytes}
use maniflex.Sql.Scan.{SqlSegment, region, back_onto, flush_code, scan_loop, scan_sql}

abbrev pub texts : List SqlSegment → Bytes
texts [] = []
texts (seg ∷ segs) = seg.text ++ texts segs

take-drop : (n : ℕ) (s : Bytes) → take n s ++ drop n s ≡ s
take-drop zero s = refl
take-drop (suc n) [] = refl
take-drop (suc n) (c ∷ s) = ap (λ r. c ∷ r) (take-drop n s)

length-drop_le : (n : ℕ) (s : Bytes) → length (drop n s) ≤ length s
length-drop_le zero s = omega arith
length-drop_le (suc n) [] = omega arith
length-drop_le (suc n) (c ∷ s) = omega (arith, length-drop_le n s)

back_onto_append : (xs ys zs : Bytes) → back_onto xs ys ++ zs ≡ back_onto xs (ys ++ zs)
unfolding back_onto
back_onto_append [] ys zs = refl
back_onto_append (x ∷ xs) ys zs = back_onto_append xs (x ∷ ys) zs

texts-flush_code :
    (code : Bytes) (segs : List SqlSegment)
    → texts (flush_code code segs) ≡ back_onto code (texts segs)
unfolding back_onto
texts-flush_code [] segs = refl
texts-flush_code (c ∷ code) segs = back_onto_append (c ∷ code) [] (texts segs)

-- Both ways of a round of the loop.
either_round :
    (r : Option ℕ) (code_run : List SqlSegment) (opened : ℕ → List SqlSegment) (all : Bytes)
    → texts code_run ≡ all
    → ((n : ℕ) → texts (opened n) ≡ all)
    → texts (elim r [ none ↦ code_run | some n ↦ opened n ]) ≡ all
either_round none code_run opened all h k = h
either_round (some n) code_run opened all h k = k n

texts-scan_loop :
    (fuel : ℕ) (before code rest : Bytes)
    → length rest < fuel
    → texts (scan_loop fuel before code rest) ≡ back_onto code rest
unfolding scan_loop
texts-scan_loop zero before code rest h = elim h [ ]
texts-scan_loop (suc fuel) before code [] h = texts-flush_code code []
texts-scan_loop (suc fuel) before code (c ∷ s) h =
    either_round (region before c s) (scan_loop fuel (c ∷ before) (c ∷ code) s)
      (λ n. flush_code code (
        record { text = c ∷ take n s; is_code = false }
        ∷ scan_loop fuel (back_onto (c ∷ take n s) before) [] (drop n s)))
      (back_onto code (c ∷ s)) (texts-scan_loop fuel (c ∷ before) (c ∷ code) s (omega arith))
      (λ n.
        texts-flush_code code (
          record { text = c ∷ take n s; is_code = false }
          ∷ scan_loop fuel (back_onto (c ∷ take n s) before) [] (drop n s))
        ∙ ap (back_onto code) (
            ap (λ r. (c ∷ take n s) ++ r)
              (texts-scan_loop fuel (back_onto (c ∷ take n s) before) [] (drop n s)
                (omega (arith, length-drop_le n s)))
            ∙ ap (λ r. c ∷ r) (take-drop n s)))

-- A scan loses no byte of the statement and adds none: its segments, one after the other, are the
-- statement. A round for each byte is enough to reach its end.
pub texts-scan_sql : (q : Bytes) → texts (scan_sql q) ≡ q
unfolding scan_sql
texts-scan_sql q = texts-scan_loop (length q + 1) [] [] q (omega arith)
