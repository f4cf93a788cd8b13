-- ===== src/Auth/Policy.antt =====
-- middleware/auth/abac.go: Policy, AllOf, AnyOf and Not.
--
-- A policy reads a context and a record of the type `R`; it may write to the context.
use maniflex.Prelude.{
  String, ◌≢◌, ◌↔◌, ◌⊎◌, ◌++◌, sym, append-nil, ◌≡◌, refl, ap, ◌∙◌, inl, inr, Bool, true, false,
  not, Option, none, some, List, [], ◌∷◌, map,
}

abbrev pub Policy : Type 0 → Type 0 → Type 0
Policy C R = C → R → C × Bool × Option String

-- A round of the loops: an error ends it, and so does the verdict that decides.
abbrev pub until :
    {C : Type 0}
    → Bool
    → C × Bool × Option String
    → C × Bool × Option String
    → C × Bool × Option String
until verdict (c, ok, some e) rest = (c, false, some e)
until true (c, true, none) rest = (c, true, none)
until true (c, false, none) rest = rest
until false (c, true, none) rest = rest
until false (c, false, none) rest = (c, false, none)

-- return !ok, err
abbrev pub negate : {C : Type 0} → C × Bool × Option String → C × Bool × Option String
negate (c, ok, err) = (c, not ok, err)

-- What a caller reads of a policy's answer: no verdict where there is an error.
abbrev pub answer : {C : Type 0} → C × Bool × Option String → C × (String ⊎ Bool)
answer (c, ok, none) = (c, inr ok)
answer (c, ok, some e) = (c, inl e)

pub until-allows :
    {C : Type 0} (v rest : C × Bool × Option String) (e : C)
    → until false v rest ≡ (e, true, none)
    → (v ≡ (v.0, true, none)) × (rest ≡ (e, true, none))
until-allows (c, true, none) rest e h = (refl, h)
until-allows (c, false, none) rest e h = cc
until-allows (c, ok, some x) rest e h = cc

pub until-negate :
    {C : Type 0} (v rest rest' : C × Bool × Option String)
    → answer (negate rest) ≡ answer rest'
    → answer (negate (until true v rest)) ≡ answer (until false (negate v) rest')
until-negate (c, true, none) rest rest' h = refl
until-negate (c, false, none) rest rest' h = h
until-negate (c, true, some x) rest rest' h = refl
until-negate (c, false, some x) rest rest' h = refl

pub until-stops :
    {C : Type 0} (c : C) (ok : Bool) (err : Option String) (rest : C × Bool × Option String)
    → (ok ≡ false) ⊎ (err ≢ none)
    → until false (c, ok, err) rest ≡ (c, false, err)
until-stops c ok (some x) rest h = refl
until-stops c false none rest h = refl
until-stops c true none rest (inl h) = cc
until-stops c true none rest (inr h) = elim (h refl) [ ]

module _ {C R : Type 0} where
  unfoldable pub all_of : List (Policy C R) → Policy C R
  all_of [] c r = (c, true, none)
  all_of (p ∷ ps) c r = let v = p c r in until false v (all_of ps v.0 r)

  unfoldable pub any_of : List (Policy C R) → Policy C R
  any_of [] c r = (c, false, none)
  any_of (p ∷ ps) c r = let v = p c r in until true v (any_of ps v.0 r)

  unfoldable pub not_policy : Policy C R → Policy C R
  not_policy p c r = negate (p c r)

  -- The policies of a list, each run on the context that the one before it left, and each allowing.
  pub data AllAllow (r : R) : List (Policy C R) → C → C → Type 0 where
    no_more : {c : C} → AllAllow r [] c c
    allows :
        {p : Policy C R} {ps : List (Policy C R)} {c d e : C}
        → p c r ≡ (d, true, none)
        → AllAllow r ps d e
        → AllAllow r (p ∷ ps) c e

  pub all_of-allows :
      (r : R) (pre post : List (Policy C R)) (c d : C)
      → AllAllow r pre c d
      → all_of (pre ++ post) c r ≡ all_of post d r
  unfolding all_of
  all_of-allows r [] post c _ no_more = refl
  all_of-allows r (p ∷ ps) post c e (allows {d = d} ok rest) =
      simp (ok) (all_of-allows r ps post d e rest)

  pub allowed :
      (r : R) (ps : List (Policy C R)) (c e : C)
      → all_of ps c r ≡ (e, true, none)
      → AllAllow r ps c e
  unfolding all_of
  allowed r [] c e h = rw (sym (ap (λ v. v.0) h)) no_more
  allowed r (p ∷ ps) c e h =
      let (first, others) = until-allows (p c r) (all_of ps (p c r).0 r) e h in
      allows first (allowed r ps (p c r).0 e others)

  -- AllOf allows exactly when each of its policies does, each run on the context that the one before
  -- it left, and it then leaves the context of the last.
  pub all_of_iff :
      (r : R) (ps : List (Policy C R)) (c e : C)
      → (all_of ps c r ≡ (e, true, none)) ↔ AllAllow r ps c e
  unfolding all_of
  all_of_iff r ps c e = (
    allowed r ps c e,
    λ a. ap (λ l. all_of l c r) (sym (append-nil ps)) ∙ all_of-allows r ps [] c e a,
  )

  -- The first policy that denies or fails decides: when the policies before it allow, those behind it
  -- do not run, and AllOf denies with the error of that policy, if it has one.
  pub all_of_denial :
      (r : R) (pre post : List (Policy C R)) (p : Policy C R) (c d e : C) (ok : Bool)
      (err : Option String)
      → AllAllow r pre c d
      → p d r ≡ (e, ok, err)
      → (ok ≡ false) ⊎ (err ≢ none)
      → all_of (pre ++ p ∷ post) c r ≡ (e, false, err)
  unfolding all_of
  all_of_denial r pre post p c d e ok err before ran stops =
      all_of-allows r pre (p ∷ post) c d before
      ∙ simp (ran) (until-stops e ok err (all_of post e r) stops)

  -- De Morgan's law, evaluation order and errors included: the negation of AnyOf answers as AllOf of
  -- the negated policies does, in the same context and with the same error.
  pub any_of_de_morgan :
      (ps : List (Policy C R)) (c : C) (r : R)
      → answer (not_policy (any_of ps) c r) ≡ answer (all_of (map not_policy ps) c r)
  unfolding any_of all_of not_policy
  any_of_de_morgan [] c r = refl
  any_of_de_morgan (p ∷ ps) c r =
      until-negate (p c r) (any_of ps (p c r).0 r) (all_of (map not_policy ps) (p c r).0 r)
        (any_of_de_morgan ps (p c r).0 r)
