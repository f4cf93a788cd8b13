-- ===== src/Saga/Compensation.antt =====
-- pkg/saga/saga.go: which steps a saga runs and undoes, and what state it leaves.
use maniflex.Prelude.{
  ℕ, suc, String, ◌≡◌, refl, sym, ap, ◌∙◌, ◌⊎◌, inl, inr, Option, none, some, List, [], ◌∷◌, ◌++◌,
  append_assoc, append-nil, Option-cases, All,
}
use maniflex.Saga.Defs.{
  SagaStep, Saga, done, failed, undo_loop, undo_step, verdict, compensate, execute_loop, execute,
}
use mathlib.Core.List.{reverse, reverse-append}

module _ {S : Type 0} where
  -- The steps that lead from a state to another without an error.
  pub data Runs : List (SagaStep S) → S → S → Type 0 where
    no_steps : {s : S} → Runs [] s s
    succeeds :
        {st : SagaStep S} {sts : List (SagaStep S)} {s t u : S}
        → st.do_step s ≡ (none, t)
        → Runs sts t u
        → Runs (st ∷ sts) s u

  pub execute_loop-Runs :
      (ctx_err : ℕ → Option String) (n : ℕ) (completed pre post : List (SagaStep S)) (s t : S)
      → ((k : ℕ) → ctx_err k ≡ none)
      → Runs pre s t
      → (m : ℕ) × (execute_loop ctx_err n completed (pre ++ post) s
          ≡ execute_loop ctx_err m (completed ++ pre) post t)
  unfolding execute_loop
  execute_loop-Runs ctx_err n completed [] post s _ live no_steps =
      (n, ap (λ c. execute_loop ctx_err n c post s) (sym (append-nil completed)))
  execute_loop-Runs ctx_err n completed (st ∷ pre) post s t live (succeeds {t = u} ok rest) =
      let (m, further) =
        execute_loop-Runs ctx_err (suc n) (completed ++ st ∷ []) pre post u t live rest in
      (
        m,
        simp (ok, live n) further
            ∙ ap (λ c. execute_loop ctx_err m c post t) (append_assoc completed (st ∷ []) pre),
      )

  -- With a context that is never cancelled, a saga whose steps succeed up to one that fails runs no
  -- step behind it, undoes the steps before it in reverse order, on the state that the failing step
  -- left, and does not undo the failing step. The error is the step's, or an UndoError with it as the
  -- cause when an undo failed.
  pub execute_fails :
      (ctx_err : ℕ → Option String) (name : String) (pre post : List (SagaStep S)) (st : SagaStep S)
      (s t u : S) (e : String)
      → ((k : ℕ) → ctx_err k ≡ none)
      → Runs pre s t
      → st.do_step t ≡ (some e, u)
      → execute ctx_err (record { name = name; steps = pre ++ st ∷ post }) s
        ≡ verdict e (undo_loop (reverse pre) ([], u))
  unfolding execute execute_loop compensate
  execute_fails ctx_err name pre post st s t u e live runs fails =
      let (m, reached) = execute_loop-Runs ctx_err 1 [] pre (st ∷ post) s t live runs in
      simp (live 0) (reached ∙ simp (live m, fails) refl)

  -- With a context that is never cancelled, a saga whose steps all succeed undoes nothing and ends
  -- without an error in the state they lead to.
  pub execute_succeeds :
      (ctx_err : ℕ → Option String) (name : String) (sts : List (SagaStep S)) (s t : S)
      → ((k : ℕ) → ctx_err k ≡ none)
      → Runs sts s t
      → execute ctx_err (record { name = name; steps = sts }) s ≡ (done, t)
  unfolding execute execute_loop
  execute_succeeds ctx_err name sts s t live runs =
      let (m, reached) = execute_loop-Runs ctx_err 1 [] sts [] s t live runs in
      simp (live 0) (ap (λ x. execute_loop ctx_err 1 [] x s) (sym (append-nil sts)) ∙ reached)

  -- The undo of a step takes back what the step did, and a step that fails does nothing.
  pub record IsInvertible (st : SagaStep S) : Type 0 where
    pub inverse : S → Option String × S
    pub has_undo : st.undo ≡ some inverse
    pub takes_back : (s : S) → (st.do_step s).0 ≡ none → inverse (st.do_step s).1 ≡ (none, s)
    pub fails_clean : (s : S) (e : String) → (st.do_step s).0 ≡ some e → (st.do_step s).1 ≡ s

  pub compensate_back :
      (completed : List (SagaStep S)) (s0 s : S) (e : String)
      → undo_loop (reverse completed) ([], s) ≡ ([], s0)
      → compensate completed s e ≡ (failed e, s0)
  unfolding compensate
  compensate_back completed s0 s e back = ap (verdict e) back

  pub undone :
      (st : SagaStep S) (s : S)
      → IsInvertible st
      → (st.do_step s).0 ≡ none
      → undo_step st ([], (st.do_step s).1) ≡ ([], s)
  undone st s i ok = simp (i.has_undo, i.takes_back s ok) refl

  pub undo_loop-last :
      (completed : List (SagaStep S)) (st : SagaStep S) (s0 s : S)
      → IsInvertible st
      → (st.do_step s).0 ≡ none
      → undo_loop (reverse completed) ([], s) ≡ ([], s0)
      → undo_loop (reverse (completed ++ st ∷ [])) ([], (st.do_step s).1) ≡ ([], s0)
  unfolding undo_loop
  undo_loop-last completed st s0 s i ok back =
      ap (λ r. undo_loop r ([], (st.do_step s).1)) (reverse-append completed (st ∷ []))
      ∙ ap (undo_loop (reverse completed)) (undone st s i ok)
      ∙ back

  pub execute_loop-atomic :
      (ctx_err : ℕ → Option String) (n : ℕ) (completed sts : List (SagaStep S)) (s0 s : S)
      → All IsInvertible sts
      → undo_loop (reverse completed) ([], s) ≡ ([], s0)
      → ((t : S) × Runs sts s t × (execute_loop ctx_err n completed sts s ≡ (done, t)))
        ⊎ ((e : String) × (execute_loop ctx_err n completed sts s ≡ (failed e, s0)))
  unfolding execute_loop
  execute_loop-atomic ctx_err n completed [] s0 s _ back = inl (s, no_steps, refl)
  execute_loop-atomic ctx_err n completed (st ∷ sts) s0 s (i, is) back =
      elim (Option-cases (ctx_err n)) [
        | inr (e, cut) ↦ simp (cut) (inr (e, compensate_back completed s0 s e back))
        | inl live ↦ elim (Option-cases (st.do_step s).0) [
          | inr (e, fails) ↦
              simp (live, fails)
                (inr (
                  e,
                  compensate_back completed s0 (st.do_step s).1 e (
                      ap (λ t. undo_loop (reverse completed) ([], t)) (i.fails_clean s e fails)
                      ∙ back),
                ))
          | inl ok ↦
              simp (live, ok)
                (elim (execute_loop-atomic ctx_err (suc n) (completed ++ st ∷ []) sts s0
                  (st.do_step s).1 is (undo_loop-last completed st s0 s i ok back)) [
                    | inl (t, ran, same) ↦
                        inl (t, succeeds (λ j. (ok j, (st.do_step s).1)) ran, same)
                    | inr undone_all ↦ inr undone_all
                  ])
        ]
      ]

  -- A saga whose undos take back what their steps did, and whose failing steps do nothing, is all or
  -- nothing, wherever a step fails and whenever the context is cancelled: every step has run, in order
  -- and without an error, and it ends without one in the state that they lead to; or it ends with one
  -- that is no UndoError in the state it started from.
  pub execute_atomic :
      (ctx_err : ℕ → Option String) (sg : Saga S) (s : S)
      → All IsInvertible sg.steps
      → ((t : S) × Runs sg.steps s t × (execute ctx_err sg s ≡ (done, t)))
        ⊎ ((e : String) × (execute ctx_err sg s ≡ (failed e, s)))
  unfolding execute undo_loop
  execute_atomic ctx_err sg s is = elim (Option-cases (ctx_err 0)) [
    | inr (e, cut) ↦ simp (cut) (inr (e, refl))
    | inl live ↦ simp (live) (execute_loop-atomic ctx_err 1 [] sg.steps s s is refl)
  ]
