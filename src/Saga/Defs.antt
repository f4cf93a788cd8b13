-- ===== src/Saga/Defs.antt =====
-- pkg/saga/saga.go: Saga, Step, Idempotent, Execute and compensate; pkg/saga/errors.go: UndoFailure and
-- UndoError.
--
-- The State that every step mutates is a type of the user's, passed through the steps and their undos.
-- The context that undos get is context.Background(), which is never cancelled. What ctx.Err() answers
-- is an argument: the answer to the n-th time it is asked, counted from 0. Logging is left out.
use maniflex.Prelude.{ℕ, suc, String, Bool, true, false, Option, none, some, List, [], ◌∷◌, ◌++◌}
use mathlib.Core.List.{reverse}

-- A StepFn: the error it returns, and the state it leaves.
abbrev pub StepFn : Type 0 → Type 0
StepFn S = S → Option String × S

pub record SagaStep (S : Type 0) : Type 0 where
  pub name : String
  pub do_step : StepFn S
  pub undo : Option (StepFn S)
  pub idempotent : Bool

pub record Saga (S : Type 0) : Type 0 where
  pub name : String
  pub steps : List (SagaStep S)

-- UndoFailure.
pub record UndoFailure : Type 0 where
  pub step : String
  pub err : String

-- What Execute returns: nil, the error that stopped it, or an UndoError.
pub data Outcome : Type 0 where
  done : Outcome
  failed : String → Outcome
  undo_error : (cause : String) → List UndoFailure → Outcome

module _ {S : Type 0} where
  abbrev pub new : String → Saga S
  new name = record { name = name; steps = [] }

  abbrev pub step : String → StepFn S → Option (StepFn S) → Saga S → Saga S
  step name f g s = record s {
    steps = s.steps ++ record { name = name; do_step = f; undo = g; idempotent = false } ∷ [];
  }

  -- The last step is marked, where there is one.
  unfoldable pub mark_last : List (SagaStep S) → List (SagaStep S)
  mark_last [] = []
  mark_last (st ∷ []) = record st { idempotent = true } ∷ []
  mark_last (st ∷ st' ∷ sts) = st ∷ mark_last (st' ∷ sts)

  unfoldable pub idempotent : Saga S → Saga S
  unfolding mark_last
  idempotent s = record s { steps = mark_last s.steps }

  -- One round of the loop of compensate: the failures so far, and the state.
  abbrev pub record_failure : String → List UndoFailure → Option String × S → List UndoFailure × S
  record_failure name failures (none, state) = (failures, state)
  record_failure name failures (some e, state) =
      (failures ++ record { step = name; err = e } ∷ [], state)

  abbrev pub run_undo : String → Option (StepFn S) → List UndoFailure × S → List UndoFailure × S
  run_undo name none acc = acc
  run_undo name (some undo) (failures, state) = record_failure name failures (undo state)

  abbrev pub undo_step : SagaStep S → List UndoFailure × S → List UndoFailure × S
  undo_step st acc = run_undo st.name st.undo acc

  unfoldable pub undo_loop : List (SagaStep S) → List UndoFailure × S → List UndoFailure × S
  undo_loop [] acc = acc
  undo_loop (st ∷ sts) acc = undo_loop sts (undo_step st acc)

  abbrev pub verdict : String → List UndoFailure × S → Outcome × S
  verdict cause ([], state) = (failed cause, state)
  verdict cause (f ∷ fs, state) = (undo_error cause (f ∷ fs), state)

  -- The loop counts down over the completed steps.
  unfoldable pub compensate : List (SagaStep S) → S → String → Outcome × S
  unfolding undo_loop
  compensate completed state cause = verdict cause (undo_loop (reverse completed) ([], state))

  -- if err := …; err != nil { return … }
  abbrev pub on_error : Option String → (String → Outcome × S) → Outcome × S → Outcome × S
  on_error none handle rest = rest
  on_error (some e) handle rest = handle e

  -- The loop of Execute, with how often ctx.Err() was asked and the steps that completed.
  unfoldable pub execute_loop :
      (ℕ → Option String) → ℕ → List (SagaStep S) → List (SagaStep S) → S → Outcome × S
  execute_loop ctx_err asked completed [] state = (done, state)
  execute_loop ctx_err asked completed (st ∷ sts) state =
      let (fault, state') = st.do_step state in
      let rest = execute_loop ctx_err (suc asked) (completed ++ st ∷ []) sts state' in
      on_error (ctx_err asked) (compensate completed state)
        (on_error fault (compensate completed state') rest)

  unfoldable pub execute : (ℕ → Option String) → Saga S → S → Outcome × S
  execute ctx_err s state =
      on_error (ctx_err 0) (λ e. (failed e, state)) (execute_loop ctx_err 1 [] s.steps state)
