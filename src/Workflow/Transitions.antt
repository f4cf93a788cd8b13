-- ===== src/Workflow/Transitions.antt =====
-- middleware/workflow: which transitions go through, on the Validate step and on the DB step.
use maniflex.Prelude.{
  String, ◌≡◌, refl, sym, ap, ◌∙◌, ◌≢◌, ◌⊎◌, inl, inr, Bool, true, false, not, ◌||◌, none, some,
  List, [], ◌∷◌, str_eq, if◌then◌else◌, Bool-cases, Option-cases,
}
use maniflex.Request.Operation.{op_update, op_eq}
use maniflex.Request.Context.Map.{Map}
use maniflex.Request.Context.Types.{Any}
use mathlib.Core.Path.{subst}
use maniflex.Workflow.Rules.{
  declared_hooks, hooks_for-declared, match_rule-first, match_rule-no_rule, Passes, no_more, passes,
  Fails, fails_here, fails_behind, Permits, Forbids,
}
use maniflex.Workflow.Defs.{
  WorkContext, Done, Next, Check, Machine, Loaded, found, string_field, or_empty, body_field,
  refuses, reject, abort, match_rule, run_guards, on_error, on_match, handle_update, middleware,
  hooks_for, run_hooks, apply_transition, after_next, hooks, is_none, hook_failed,
}

module _ {S : Type 0} where
  -- What the guards decide: all pass and the rest follows, or one rejects.
  abbrev pub Decided : String → String → List (Check S) → Next S → WorkContext S → Done S → Type 0
  Decided from to gs follow c r =
      ((d : WorkContext S) × Passes from to gs c d × (r ≡ follow d))
      ⊎ ((d : WorkContext S) × Fails from to gs c d × (r ≡ (reject from to d, none)))

  pub on_error-decides :
      (from to : String) (g : Check S) (gs : List (Check S)) (follow : Next S) (c : WorkContext S)
      (r : Done S) (rest : Done S)
      → g from to c ≡ r
      → Decided from to gs follow r.0 rest
      → Decided from to (g ∷ gs) follow c (on_error r (reject from to r.0, none) rest)
  on_error-decides from to g gs follow c (d, some err) rest ran more = inr (d, fails_here ran, refl)
  on_error-decides from to g gs follow c (d, none) rest ran (inr (e, failed, is)) =
      inr (e, fails_behind ran failed, is)
  on_error-decides from to g gs follow c (d, none) rest ran (inl (e, passed, is)) =
      inl (e, passes ran passed, is)

  pub run_guards-decides :
      (from to : String) (gs : List (Check S)) (follow : Next S) (c : WorkContext S)
      → Decided from to gs follow c (run_guards gs from to follow c)
  unfolding run_guards
  run_guards-decides from to [] follow c = inl (c, no_more, refl)
  run_guards-decides from to (g ∷ gs) follow c =
      on_error-decides from to g gs follow c (g from to c)
        (run_guards gs from to follow (g from to c).0) refl
        (run_guards-decides from to gs follow (g from to c).0)

  pub on_match-decides :
      (m : Machine S) (from to : String) (follow : Next S) (c : WorkContext S)
      → ((d : WorkContext S) × Permits m from to c d
          × (on_match (match_rule m.rules from to) from to follow c ≡ follow d))
        ⊎ ((d : WorkContext S) × Forbids m from to c d
            × (on_match (match_rule m.rules from to) from to follow c ≡ (reject from to d, none)))
  on_match-decides m from to follow c = elim (Option-cases (match_rule m.rules from to)) [
    | inl unmatched ↦
        inr (c, inl (match_rule-no_rule from to m.rules unmatched, refl), simp (unmatched) refl)
    | inr (gs, hit) ↦
        let (r, first, same) = match_rule-first from to m.rules gs hit in
        elim (run_guards-decides from to gs follow c) [
          | inl (d, passed, is) ↦
              inl
                (d, (r, first, subst (λ l. Passes from to l c d) (sym same) passed), simp (hit) is)
          | inr (d, failed, is) ↦
              inr (
                d,
                inr (r, first, subst (λ l. Fails from to l c d) (sym same) failed),
                simp (hit) is,
              )
        ]
  ]

  -- On the Validate step an update of a stored record that names another state goes on only when a
  -- rule is for the stored state and the new one, and all guards of the first such rule pass: the rest
  -- of the pipeline then runs on the context that the guards left. Otherwise the answer is a rejection,
  -- on the context as it came where no rule is for the two, or else as the guards left it up to the
  -- first that failed: the rest does not run.
  pub middleware_decides :
      (m : Machine S) (read : WorkContext S → Loaded) (next : Next S) (c : WorkContext S)
      (to : String) (current : Map Any)
      → (is_none c.parsed_body || not c.has_model) ≡ false
      → c.operation ≡ op_update
      → body_field m.field c.parsed_body ≡ some to
      → str_eq c.resource_id "" ≡ false
      → read c ≡ found current
      → str_eq (or_empty (string_field m.field current)) to ≡ false
      → ((d : WorkContext S) × Permits m (or_empty (string_field m.field current)) to c d
          × (middleware m read next c ≡ next d))
        ⊎ ((d : WorkContext S) × Forbids m (or_empty (string_field m.field current)) to c d
            × (middleware m read next c
                ≡ (reject (or_empty (string_field m.field current)) to d, none)))
  unfolding middleware handle_update op_eq
  middleware_decides m read next c to current present update named stored loaded other =
      simp (present, update, named, stored, loaded, other)
        (on_match-decides m (or_empty (string_field m.field current)) to next c)

  -- The hooks of a transition, each run on the context that the one before it left, with no error and
  -- no refusal.
  pub data HooksRun (from to : String)
      : List (Check S) → WorkContext S → WorkContext S → Type 0 where
    no_hooks : {c : WorkContext S} → HooksRun from to [] c c
    fires :
        {fn : Check S} {fns : List (Check S)} {c d e : WorkContext S}
        → fn from to c ≡ (d, none)
        → refuses d.response ≡ false
        → HooksRun from to fns d e
        → HooksRun from to (fn ∷ fns) c e

  pub hook_failed-refuses : (c : WorkContext S) → refuses (hook_failed c).response ≡ true
  hook_failed-refuses c = kept_or_aborted (refuses c.response) refl
    where
      kept_or_aborted :
          (b : Bool)
          → refuses c.response ≡ b
          → refuses (if b then c else abort 500 "WORKFLOW_HOOK_ERROR" c).response ≡ true
      kept_or_aborted true own = own
      kept_or_aborted false other = refl

  -- A refusal is no quiet end.
  pub refused_differs :
      (c d : WorkContext S) → refuses c.response ≡ true → refuses d.response ≡ false → c ≢ d
  refused_differs c d refusal calm is =
      let bad : true ≡ false = sym refusal ∙ ap (λ x. refuses x.response) is ∙ calm in cc

  pub on_hook-accepts :
      (from to : String) (fn : Check S) (fns : List (Check S)) (c d : WorkContext S) (r : Done S)
      (rest : Done S)
      → fn from to c ≡ r
      → (rest ≡ (d, none) → HooksRun from to fns r.0 d)
      → refuses d.response ≡ false
      → on_error r (hook_failed r.0, none) (if refuses r.0.response then (r.0, none) else rest)
        ≡ (d, none)
      → HooksRun from to (fn ∷ fns) c d
  on_hook-accepts from to fn fns c d (e, some err) rest ran more calm is =
      absurd (refused_differs (hook_failed e) d (hook_failed-refuses e) calm (ap (λ r. r.0) is))
  on_hook-accepts from to fn fns c d (e, none) rest ran more calm is =
      elim (Bool-cases (refuses e.response)) [
        | inl refusal ↦
            absurd (refused_differs e d refusal calm (ap (λ r. r.0) (simp (refusal) at is)))
        | inr quiet ↦ fires ran quiet (more (simp (quiet) at is))
      ]

  pub run_hooks-accepts :
      (from to : String) (fns : List (Check S)) (c d : WorkContext S)
      → refuses d.response ≡ false
      → run_hooks fns from to c ≡ (d, none)
      → HooksRun from to fns c d
  unfolding run_hooks
  run_hooks-accepts from to [] c d calm is = rw (sym (ap (λ r. r.0) is)) no_hooks
  run_hooks-accepts from to (fn ∷ fns) c d calm is =
      on_hook-accepts from to fn fns c d (fn from to c) (run_hooks fns from to (fn from to c).0)
        refl (run_hooks-accepts from to fns (fn from to c).0 d calm) calm is

  pub apply_transition-accepts :
      (m : Machine S) (from to : String) (c d : WorkContext S)
      → refuses d.response ≡ false
      → apply_transition m from to c ≡ (d, none)
      → (e : WorkContext S) × Permits m from to c e
        × HooksRun from to (declared_hooks from to m.hooks) e d
  unfolding apply_transition
  apply_transition-accepts m from to c d calm is =
      elim (on_match-decides m from to (run_hooks (hooks_for m.hooks from to) from to) c) [
        | inl (e, permitted, same) ↦ (
          e,
          permitted,
          subst (λ fns. HooksRun from to fns e d) (hooks_for-declared from to m.hooks)
              (run_hooks-accepts from to (hooks_for m.hooks from to) e d calm (sym same ∙ is)),
        )
        | inr (e, forbidden, same) ↦
            absurd (refused_differs (reject from to e) d refl calm (ap (λ r. r.0) (sym same ∙ is)))
      ]

  pub after_next-accepts :
      (m : Machine S) (from to : String) (r : Done S) (d : WorkContext S)
      → str_eq from to ≡ false
      → refuses d.response ≡ false
      → after_next m from to r ≡ (d, none)
      → (w e : WorkContext S) × (r ≡ (w, none))
        × (refuses w.response ≡ false)
        × Permits m from to w e
        × HooksRun from to (declared_hooks from to m.hooks) e d
  after_next-accepts m from to (w, some err) d other calm is = cc
  after_next-accepts m from to (w, none) d other calm is = elim (Bool-cases (refuses w.response)) [
    | inl refusal ↦ absurd (refused_differs w d refusal calm (ap (λ r. r.0) (simp (refusal) at is)))
    | inr quiet ↦
        let (e, permitted, ran) =
          apply_transition-accepts m from to w d calm (simp (quiet, other) at is) in
        (w, e, refl, quiet, permitted, ran)
  ]

  -- On the DB step an update that moves a locked record to another state and is not refused in the end
  -- was permitted: the rest of the pipeline ended without an error and its answer was no refusal, a rule
  -- is for the locked state and the new one, all guards of the first such rule passed on what it left,
  -- and then every hook that is declared for the two ran, in order, without an error or a refusal.
  pub hooks_enforce :
      (m : Machine S) (lock : WorkContext S → WorkContext S × Loaded) (next : Next S)
      (c l d : WorkContext S) (to : String) (current : Map Any)
      → (is_none c.parsed_body || (not c.has_model || not (op_eq c.operation op_update))) ≡ false
      → body_field m.field c.parsed_body ≡ some to
      → str_eq c.resource_id "" ≡ false
      → c.has_tx ≡ true
      → lock c ≡ (l, found current)
      → str_eq (or_empty (string_field m.field current)) to ≡ false
      → hooks m lock next c ≡ (d, none)
      → refuses d.response ≡ false
      → (w e : WorkContext S) × (next l ≡ (w, none))
        × (refuses w.response ≡ false)
        × Permits m (or_empty (string_field m.field current)) to w e
        × HooksRun
            (or_empty (string_field m.field current))
            to
            (declared_hooks (or_empty (string_field m.field current)) to m.hooks)
            e
            d
  unfolding hooks
  hooks_enforce m lock next c l d to current present named stored in_tx locked other is calm =
      after_next-accepts m (or_empty (string_field m.field current)) to (next l) d other calm
        (simp (present, named, stored, in_tx, locked) at is)
