-- ===== src/Examples/AuthRuns.antt =====
-- middleware/auth on two authenticators, of an API key and of a token, and on policies over numbers.
use maniflex.Prelude.{ℕ, suc, ◌≡◌, refl, true, false, none, some, [], ◌∷◌, ltb, ◌==◌, if◌then◌else◌}
use maniflex.Request.Context.Types.{ApiResponse}
use maniflex.Auth.FirstOf.{
  AuthContext, Next, Authenticator, set_optional, first_of_loop, first_of, nobody, defers,
  first_of_refusal,
}
use maniflex.Auth.Policy.{Policy, all_of}

-- What a request presents: an API key and a token, of which 0 is none and 1 is good.
abbrev Presented : Type 0
Presented = ℕ × ℕ

abbrev refusal : ApiResponse
refusal = record { status_code = 401; code = "UNAUTHORIZED"; message = "invalid credential" }

abbrev check : ℕ → ℕ → Authenticator Presented
check credential principal next c =
    if credential == 0
    then next c
    else if credential == 1
    then next (record c { auth = some principal })
    else (record c { response = some refusal }, none)

abbrev api_key : Authenticator Presented
api_key next c = check c.rest.0 7 next c

abbrev token : Authenticator Presented
token next c = check c.rest.1 8 next c

abbrev request : ℕ → ℕ → AuthContext Presented
request key tok = record {
  in_process = false;
  auth = none;
  response = none;
  credential_optional = false;
  anonymous_ok = false;
  rest = (key, tok);
}

abbrev served : Next Presented
served c =
    (record c { response = some (record { status_code = 200; code = ""; message = "" }) }, none)

-- A bad key is not shed for a good token.
bad_key_refuses :
    first_of (api_key ∷ token ∷ []) served (request 2 1)
    ≡ (record (request 2 1) { response = some refusal }, none)
unfolding first_of first_of_loop
bad_key_refuses = refl

first_of_refusal_example :
    first_of (api_key ∷ token ∷ []) served (request 0 2)
    ≡ (record (request 0 2) { response = some refusal }, none)
first_of_refusal_example =
    first_of_refusal (api_key ∷ []) [] token served (request 0 2) (set_optional true (request 0 2))
      (record (set_optional true (request 0 2)) { response = some refusal }) refl
      (defers refl refl refl nobody) refl refl

-- Policies on an amount, which count how often they were asked.
abbrev below : ℕ → Policy ℕ ℕ
below n c r = (suc c, ltb r n, none)

abbrev broken : Policy ℕ ℕ
broken c r = (suc c, true, some "no connection")

stops_at_the_denial : all_of (below 9 ∷ below 3 ∷ broken ∷ []) 0 5 ≡ (2, false, none)
unfolding all_of
stops_at_the_denial = refl
