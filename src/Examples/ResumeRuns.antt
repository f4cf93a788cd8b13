-- ===== src/Examples/ResumeRuns.antt =====
-- realtime/resume.go on a ring of two events that are numbers.
use maniflex.Prelude.{ℕ, ◌≡◌, refl, none, some, [], ◌∷◌, map, arith}
use maniflex.Prelude.Int.{pos}
use maniflex.Prelude.Bytes.{Bytes, codes, format_uint, parse_uint, split_last}
use maniflex.Realtime.Resume.{
  ResumeStore, format_cursor, parse_cursor, new_store, append, append_all, buffered, replay,
}
use maniflex.Realtime.Ring.{numbered}
use maniflex.Realtime.Replay.{
  missed, parse_cursor-format_cursor, replay-append_all, resume_complete,
}

abbrev epoch : Bytes
epoch = codes "9f:c0"

abbrev store : ResumeStore ℕ
store = new_store epoch (pos 2)

after_three :
    replay (append_all store (7 ∷ 8 ∷ 9 ∷ [])) (codes "9f:c0:1")
    ≡ some (
        record { cursor = codes "9f:c0:2"; event = 8 }
        ∷ record { cursor = codes "9f:c0:3"; event = 9 }
        ∷ [])
unfolding replay append_all new_store format_cursor format_uint parse_uint split_last
after_three = refl

evicted : replay (append_all store (7 ∷ 8 ∷ 9 ∷ [])) (codes "9f:c0:0") ≡ none
unfolding replay append_all new_store format_cursor format_uint parse_uint split_last
evicted = refl

parse_cursor-format_cursor_example : parse_cursor (format_cursor epoch 41) ≡ some (epoch, 41)
parse_cursor-format_cursor_example = parse_cursor-format_cursor epoch 41 (omega arith)

replay-append_all_example :
    replay (append_all store (7 ∷ 8 ∷ 9 ∷ [])) (format_cursor epoch 2)
    ≡ some (missed epoch 2 (7 ∷ 8 ∷ 9 ∷ []))
replay-append_all_example =
    replay-append_all epoch (pos 2) (7 ∷ 8 ∷ 9 ∷ []) 2 (omega arith) (omega arith)

resume_complete_example :
    replay (append_all (append store 7).0 (8 ∷ 9 ∷ [])) (append store 7).1
    ≡ some (map (buffered epoch) (numbered 1 (8 ∷ 9 ∷ [])))
unfolding append_all
resume_complete_example = resume_complete epoch (pos 2) [] 7 (8 ∷ 9 ∷ []) (omega arith)
