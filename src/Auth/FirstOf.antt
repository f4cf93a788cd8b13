-- ===== src/Auth/FirstOf.antt =====
-- middleware/auth/firstof.go: FirstOf; middleware/auth/jwt.go: trustedPrincipal and anonymousAllowed.
--
-- A principal is its pointer, a number, since FirstOf compares pointers. `rest` stands for the rest of
-- the context. The panics at construction are not modelled.
use maniflex.Prelude.{
  ℕ, String, ◌≡◌, refl, sym, ap, ◌∙◌, append-nil, Bool, true, false, not, ◌&&◌, Option, none, some,
  List, [], ◌∷◌, ◌++◌, leb, ◌==◌, if◌then◌else◌,
}
use maniflex.Request.Context.Types.{ApiResponse}

pub record AuthContext (D : Type 0) : Type 0 where
  pub in_process : Bool
  pub auth : Option ℕ
  pub response : Option ApiResponse
  pub credential_optional : Bool
  pub anonymous_ok : Bool
  pub rest : D

abbrev pub same_principal : Option ℕ → Option ℕ → Bool
same_principal none none = true
same_principal (some p) (some q) = p == q
same_principal _ _ = false

abbrev pub is_some : Option ℕ → Bool
is_some none = false
is_some (some p) = true

-- ctx.Response != nil && ctx.Response.StatusCode >= 400
abbrev pub refuses : Option ApiResponse → Bool
refuses none = false
refuses (some r) = leb 400 r.status_code

abbrev pub Next : Type 0 → Type 0
Next D = AuthContext D → AuthContext D × Option String

abbrev pub Authenticator : Type 0 → Type 0
Authenticator D = Next D → Next D

-- What the loop ends with: an error, or whether a member refused or matched.
pub data Verdict : Type 0 where
  errored : String → Verdict
  refused matched unseen : Verdict

module _ {D : Type 0} where
  -- The continuation that members get.
  abbrev pub no_op : Next D
  no_op c = (c, none)

  abbrev pub trusted_principal : AuthContext D → Bool
  trusted_principal c = c.in_process && is_some c.auth

  abbrev pub set_optional : Bool → AuthContext D → AuthContext D
  set_optional b c = record c { credential_optional = b }

  abbrev pub unauthorized : AuthContext D → AuthContext D
  unauthorized c = record c {
    response = some (record {
      status_code = 401;
      code = "UNAUTHORIZED";
      message = "no recognised credential was presented";
    });
  }

  abbrev pub on_member :
      Option ℕ → AuthContext D × Option String → AuthContext D × Verdict → AuthContext D × Verdict
  on_member entry (c, some e) rest = (c, errored e)
  on_member entry (c, none) rest =
      if refuses c.response
      then (c, refused)
      else if not (same_principal c.auth entry)
      then (c, matched)
      else rest

  unfoldable pub first_of_loop :
      Option ℕ → List (Authenticator D) → AuthContext D → AuthContext D × Verdict
  first_of_loop entry [] c = (c, unseen)
  first_of_loop entry (m ∷ ms) c =
      let r = m no_op c in on_member entry r (first_of_loop entry ms r.0)

  abbrev pub conclude : Next D → AuthContext D × Verdict → AuthContext D × Option String
  conclude next (c, errored e) = (set_optional false c, some e)
  conclude next (c, refused) = (set_optional false c, none)
  conclude next (c, matched) = next (set_optional false c)
  conclude next (c, unseen) =
      if c.anonymous_ok
      then next (set_optional false c)
      else (unauthorized (set_optional false c), none)

  unfoldable pub first_of : List (Authenticator D) → Authenticator D
  unfolding first_of_loop
  first_of ms next c =
      if trusted_principal c
      then next c
      else conclude next (first_of_loop c.auth ms (set_optional true c))

  -- Members that saw no credential: no error, no refusal, and the principal as it was.
  pub data Silent (entry : Option ℕ)
      : List (Authenticator D) → AuthContext D → AuthContext D → Type 0 where
    nobody : {c : AuthContext D} → Silent entry [] c c
    defers :
        {m : Authenticator D} {ms : List (Authenticator D)} {c d e : AuthContext D}
        → m no_op c ≡ (d, none)
        → refuses d.response ≡ false
        → same_principal d.auth entry ≡ true
        → Silent entry ms d e
        → Silent entry (m ∷ ms) c e

  pub first_of_loop-Silent :
      (entry : Option ℕ) (pre post : List (Authenticator D)) (c d : AuthContext D)
      → Silent entry pre c d
      → first_of_loop entry (pre ++ post) c ≡ first_of_loop entry post d
  unfolding first_of_loop
  first_of_loop-Silent entry [] post c _ nobody = refl
  first_of_loop-Silent entry (m ∷ ms) post c e (defers {d = d} ran calm same rest) =
      simp (ran, calm, same) (first_of_loop-Silent entry ms post d e rest)

  -- A credential that was presented and refused ends the request: when the members before saw no
  -- credential and this one answers with a status of 400 or more, the members behind it and the rest of
  -- the pipeline do not run, whatever they are, and its answer stands, with the mark for optional
  -- credentials taken back.
  pub first_of_refusal :
      (pre post : List (Authenticator D)) (m : Authenticator D) (next : Next D)
      (c d e : AuthContext D)
      → trusted_principal c ≡ false
      → Silent c.auth pre (set_optional true c) d
      → m no_op d ≡ (e, none)
      → refuses e.response ≡ true
      → first_of (pre ++ m ∷ post) next c ≡ (set_optional false e, none)
  unfolding first_of first_of_loop
  first_of_refusal pre post m next c d e plain silent ran refusal =
      let stopped : first_of_loop c.auth (m ∷ post) d ≡ (e, refused) = simp (ran, refusal) refl in
      simp (plain) (
        ap (conclude next)
          (first_of_loop-Silent c.auth pre (m ∷ post) (set_optional true c) d silent ∙ stopped))

  -- The first member that establishes an identity decides: the members before saw no credential, this
  -- one changed the principal without a refusal, so the rest of the pipeline runs once on the context
  -- it left, with the mark for optional credentials taken back, and the members behind it do not run.
  pub first_of_match :
      (pre post : List (Authenticator D)) (m : Authenticator D) (next : Next D)
      (c d e : AuthContext D)
      → trusted_principal c ≡ false
      → Silent c.auth pre (set_optional true c) d
      → m no_op d ≡ (e, none)
      → refuses e.response ≡ false
      → same_principal e.auth c.auth ≡ false
      → first_of (pre ++ m ∷ post) next c ≡ next (set_optional false e)
  unfolding first_of first_of_loop
  first_of_match pre post m next c d e plain silent ran calm other =
      let stopped : first_of_loop c.auth (m ∷ post) d ≡ (e, matched) =
        simp (ran, calm, other) refl in
      simp (plain) (
        ap (conclude next)
          (first_of_loop-Silent c.auth pre (m ∷ post) (set_optional true c) d silent ∙ stopped))

  -- When no member saw a credential, the rest of the pipeline runs only on a route that allows
  -- anonymous callers; otherwise the answer is a 401.
  pub first_of_unseen :
      (ms : List (Authenticator D)) (next : Next D) (c d : AuthContext D)
      → trusted_principal c ≡ false
      → Silent c.auth ms (set_optional true c) d
      → first_of ms next c ≡ (
          if d.anonymous_ok
          then next (set_optional false d)
          else (unauthorized (set_optional false d), none))
  unfolding first_of first_of_loop
  first_of_unseen ms next c d plain silent = simp (plain) (
      ap (λ l. conclude next (first_of_loop c.auth l (set_optional true c))) (sym (append-nil ms))
      ∙ ap (conclude next) (first_of_loop-Silent c.auth ms [] (set_optional true c) d silent))
