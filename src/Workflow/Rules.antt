-- ===== src/Workflow/Rules.antt =====
-- middleware/workflow: which rule of a machine decides a transition, which hooks it fires, and what its
-- guards come to, told without the loops of the code.
use maniflex.Prelude.{
  String, ◌≡◌, refl, ap, ◌⊎◌, inl, inr, Bool, true, false, ◌&&◌, ◌||◌, none, some, List, [], ◌∷◌,
  ◌++◌, map, filter, str_eq, Bool-cases, All,
}
use maniflex.Workflow.Defs.{WorkContext, Check, Rule, HookRule, Machine, match_rule, hooks_for}

-- A pattern of a rule or a hook is a state or the wildcard.
abbrev pub names : String → String → Bool
names pattern state = str_eq pattern "*" || str_eq pattern state

module _ {S : Type 0} where
  abbrev pub is_for : String → String → Rule S → Bool
  is_for from to r = names r.from from && names r.to to

  -- The first rule for a transition: it stands behind rules that are not for it.
  pub record IsFirstRule (from to : String) (rules : List (Rule S)) (r : Rule S) : Type 0 where
    pub before : List (Rule S)
    pub after : List (Rule S)
    pub splits : rules ≡ before ++ r ∷ after
    pub skipped : All (λ q. is_for from to q ≡ false) before
    pub fits : is_for from to r ≡ true

  pub match_rule-first :
      (from to : String) (rules : List (Rule S)) (gs : List (Check S))
      → match_rule rules from to ≡ some gs
      → (r : Rule S) × IsFirstRule from to rules r × (r.guards ≡ gs)
  unfolding match_rule
  match_rule-first from to [] gs h = cc
  match_rule-first from to (r ∷ rules) gs h = elim (Bool-cases (is_for from to r)) [
    | inl fits ↦ (
      r,
      record { before = []; after = rules; splits = refl; skipped = tt; fits = fits },
      let same : some r.guards ≡ some gs = simp (fits) at h in cc,
    )
    | inr misses ↦
        let (q, found, same) = match_rule-first from to rules gs (simp (misses) at h) in
        (
          q,
          record {
            before = r ∷ found.before;
            after = found.after;
            splits = ap (λ l. r ∷ l) found.splits;
            skipped = (misses, found.skipped);
            fits = found.fits;
          },
          same,
        )
  ]

  pub match_rule-no_rule :
      (from to : String) (rules : List (Rule S))
      → match_rule rules from to ≡ none
      → All (λ q. is_for from to q ≡ false) rules
  unfolding match_rule
  match_rule-no_rule from to [] h = tt
  match_rule-no_rule from to (r ∷ rules) h = elim (Bool-cases (is_for from to r)) [
    | inl fits ↦ let bad : some r.guards ≡ none = simp (fits) at h in cc
    | inr misses ↦ (misses, match_rule-no_rule from to rules (simp (misses) at h))
  ]

  -- The hooks for a transition, in the order in which they were declared.
  abbrev pub declared_hooks : String → String → List (HookRule S) → List (Check S)
  declared_hooks from to hs = map (λ h. h.fn) (filter (λ h. names h.from from && names h.to to) hs)

  pub hooks_for-declared :
      (from to : String) (hs : List (HookRule S)) → hooks_for hs from to ≡ declared_hooks from to hs
  unfolding hooks_for
  hooks_for-declared from to [] = refl
  hooks_for-declared from to (h ∷ hs) =
      let ih = hooks_for-declared from to hs in
      elim (Bool-cases (names h.from from && names h.to to)) [
        | inl fits ↦ simp (fits) (ap (λ l. h.fn ∷ l) ih)
        | inr misses ↦ simp (misses) ih
      ]

  -- Checks that all pass, each on the context that the one before it left.
  pub data Passes (from to : String) : List (Check S) → WorkContext S → WorkContext S → Type 0 where
    no_more : {c : WorkContext S} → Passes from to [] c c
    passes :
        {g : Check S} {gs : List (Check S)} {c d e : WorkContext S}
        → g from to c ≡ (d, none)
        → Passes from to gs d e
        → Passes from to (g ∷ gs) c e

  -- Checks of which one fails, behind those that pass, and the context that it leaves.
  pub data Fails (from to : String) : List (Check S) → WorkContext S → WorkContext S → Type 0 where
    fails_here :
        {g : Check S} {gs : List (Check S)} {c d : WorkContext S} {err : String}
        → g from to c ≡ (d, some err)
        → Fails from to (g ∷ gs) c d
    fails_behind :
        {g : Check S} {gs : List (Check S)} {c d e : WorkContext S}
        → g from to c ≡ (d, none)
        → Fails from to gs d e
        → Fails from to (g ∷ gs) c e

  -- A transition is permitted when the guards of the first rule for it all pass,
  abbrev pub Permits : Machine S → String → String → WorkContext S → WorkContext S → Type 0
  Permits m from to c d = (r : Rule S) × IsFirstRule from to m.rules r × Passes from to r.guards c d

  -- and forbidden when there is no rule for it, or a guard of the first one fails.
  abbrev pub Forbids : Machine S → String → String → WorkContext S → WorkContext S → Type 0
  Forbids m from to c d =
      (All (λ r. is_for from to r ≡ false) m.rules × (d ≡ c))
      ⊎ ((r : Rule S) × IsFirstRule from to m.rules r × Fails from to r.guards c d)
