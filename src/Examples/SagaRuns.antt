-- ===== src/Examples/SagaRuns.antt =====
-- pkg/saga on a state that is a number: steps that add, and undos that subtract.
use maniflex.Prelude.{
  ℕ, ◌+◌, ◌-◌, String, ◌≡◌, refl, ◌⊎◌, false, Option, none, some, ltb, if◌then◌else◌, [], ◌∷◌,
  arith,
}
use maniflex.Saga.{SagaStep, Saga, done, failed, undo_loop, compensate, execute_loop, execute}
use maniflex.Saga.Compensation.{Runs, IsInvertible, execute_atomic}

abbrev adds : String → ℕ → SagaStep ℕ
adds name n = record {
  name = name;
  do_step = λ s. (none, s + n);
  undo = some (λ s. (none, s - n));
  idempotent = false;
}

abbrev refuses : SagaStep ℕ
refuses = record {
  name = "deduct_stock";
  do_step = λ s. (some "out of stock", s);
  undo = some (λ s. (none, 0));
  idempotent = false;
}

abbrev never : ℕ → Option String
never k = none

abbrev charge : Saga ℕ
charge = record {
  name = "charge";
  steps = adds "invoice" 3 ∷ adds "ledger" 4 ∷ refuses ∷ adds "mail" 9 ∷ [];
}

rolled_back : execute never charge 10 ≡ (failed "out of stock", 10)
unfolding execute execute_loop compensate undo_loop
rolled_back = refl

abbrev ends_third : ℕ → Option String
ends_third k = if ltb k 2 then none else some "cancelled"

cancelled_midway : execute ends_third charge 10 ≡ (failed "cancelled", 10)
unfolding execute execute_loop compensate undo_loop
cancelled_midway = refl

back : (n s : ℕ) → s + n - n ≡ s
back n s = omega arith

adds-IsInvertible : (name : String) (n : ℕ) → IsInvertible (adds name n)
adds-IsInvertible name n = record {
  inverse = λ s. (none, s - n);
  has_undo = refl;
  takes_back = λ s ok i. (none, back n s i);
  fails_clean = λ s e fails. cc;
}

refuses-IsInvertible : IsInvertible refuses
refuses-IsInvertible = record {
  inverse = λ s. (none, 0);
  has_undo = refl;
  takes_back = λ s ok. cc;
  fails_clean = λ s e fails. refl;
}

execute_atomic_example :
    ((t : ℕ) × Runs charge.steps 10 t × (execute never charge 10 ≡ (done, t)))
    ⊎ ((e : String) × (execute never charge 10 ≡ (failed e, 10)))
execute_atomic_example = execute_atomic never charge 10 (
  adds-IsInvertible "invoice" 3,
  (adds-IsInvertible "ledger" 4, (refuses-IsInvertible, (adds-IsInvertible "mail" 9, tt))),
)
