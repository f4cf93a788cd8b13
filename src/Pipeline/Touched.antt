-- ===== src/Pipeline/Touched.antt =====
-- middleware.go and pipeline.go: a call on the registry of one step keeps the invariant of the caches.
use maniflex.Prelude.{refl}
use maniflex.Request.Context.Types.{GoType, GoValue, Any}
use maniflex.Pipeline.Registry.{StepRegistry}
use maniflex.Pipeline.Cache.{Step, Step-IsFresh, Step-fixed}
use maniflex.Pipeline.Execute.{Pipeline}
use maniflex.Pipeline.Agree.{same-Agree, Step-Agree}
use maniflex.Pipeline.Sound.{IsSound, touched-IsSound}

module _ (convert : GoType → GoValue → GoValue) (zero_of : GoType → Any) {D : Type 0} where
  pub on_auth-IsSound :
      (p : Pipeline D) (t : StepRegistry D)
      → Step p.auth t
      → IsSound convert zero_of p
      → IsSound convert zero_of (record p { auth = t })
  on_auth-IsSound p t st h =
      touched-IsSound convert zero_of p (record p { auth = t }) refl refl
        (record {
          auth_fresh = Step-IsFresh st h.fresh.steps_fresh.auth_fresh;
          deserialize_fresh = h.fresh.steps_fresh.deserialize_fresh;
          validate_fresh = h.fresh.steps_fresh.validate_fresh;
          service_fresh = h.fresh.steps_fresh.service_fresh;
          db_fresh = h.fresh.steps_fresh.db_fresh;
          response_fresh = h.fresh.steps_fresh.response_fresh;
        })
        (λ closed.
          let shut = h.shut closed in
          (
            record {
              auth = (Step-fixed st shut.auth).0;
              deserialize = shut.deserialize;
              validate = shut.validate;
              service = shut.service;
              db = shut.db;
              response = shut.response;
            },
            record {
              auth = Step-Agree st shut.auth;
              deserialize = same-Agree p.deserialize;
              validate = same-Agree p.validate;
              service = same-Agree p.service;
              db = same-Agree p.db;
              response = same-Agree p.response;
            },
          ))
        h

  pub on_deserialize-IsSound :
      (p : Pipeline D) (t : StepRegistry D)
      → Step p.deserialize t
      → IsSound convert zero_of p
      → IsSound convert zero_of (record p { deserialize = t })
  on_deserialize-IsSound p t st h =
      touched-IsSound convert zero_of p (record p { deserialize = t }) refl refl
        (record {
          auth_fresh = h.fresh.steps_fresh.auth_fresh;
          deserialize_fresh = Step-IsFresh st h.fresh.steps_fresh.deserialize_fresh;
          validate_fresh = h.fresh.steps_fresh.validate_fresh;
          service_fresh = h.fresh.steps_fresh.service_fresh;
          db_fresh = h.fresh.steps_fresh.db_fresh;
          response_fresh = h.fresh.steps_fresh.response_fresh;
        })
        (λ closed.
          let shut = h.shut closed in
          (
            record {
              auth = shut.auth;
              deserialize = (Step-fixed st shut.deserialize).0;
              validate = shut.validate;
              service = shut.service;
              db = shut.db;
              response = shut.response;
            },
            record {
              auth = same-Agree p.auth;
              deserialize = Step-Agree st shut.deserialize;
              validate = same-Agree p.validate;
              service = same-Agree p.service;
              db = same-Agree p.db;
              response = same-Agree p.response;
            },
          ))
        h

  pub on_validate-IsSound :
      (p : Pipeline D) (t : StepRegistry D)
      → Step p.validate t
      → IsSound convert zero_of p
      → IsSound convert zero_of (record p { validate = t })
  on_validate-IsSound p t st h =
      touched-IsSound convert zero_of p (record p { validate = t }) refl refl
        (record {
          auth_fresh = h.fresh.steps_fresh.auth_fresh;
          deserialize_fresh = h.fresh.steps_fresh.deserialize_fresh;
          validate_fresh = Step-IsFresh st h.fresh.steps_fresh.validate_fresh;
          service_fresh = h.fresh.steps_fresh.service_fresh;
          db_fresh = h.fresh.steps_fresh.db_fresh;
          response_fresh = h.fresh.steps_fresh.response_fresh;
        })
        (λ closed.
          let shut = h.shut closed in
          (
            record {
              auth = shut.auth;
              deserialize = shut.deserialize;
              validate = (Step-fixed st shut.validate).0;
              service = shut.service;
              db = shut.db;
              response = shut.response;
            },
            record {
              auth = same-Agree p.auth;
              deserialize = same-Agree p.deserialize;
              validate = Step-Agree st shut.validate;
              service = same-Agree p.service;
              db = same-Agree p.db;
              response = same-Agree p.response;
            },
          ))
        h

  pub on_service-IsSound :
      (p : Pipeline D) (t : StepRegistry D)
      → Step p.service t
      → IsSound convert zero_of p
      → IsSound convert zero_of (record p { service = t })
  on_service-IsSound p t st h =
      touched-IsSound convert zero_of p (record p { service = t }) refl refl
        (record {
          auth_fresh = h.fresh.steps_fresh.auth_fresh;
          deserialize_fresh = h.fresh.steps_fresh.deserialize_fresh;
          validate_fresh = h.fresh.steps_fresh.validate_fresh;
          service_fresh = Step-IsFresh st h.fresh.steps_fresh.service_fresh;
          db_fresh = h.fresh.steps_fresh.db_fresh;
          response_fresh = h.fresh.steps_fresh.response_fresh;
        })
        (λ closed.
          let shut = h.shut closed in
          (
            record {
              auth = shut.auth;
              deserialize = shut.deserialize;
              validate = shut.validate;
              service = (Step-fixed st shut.service).0;
              db = shut.db;
              response = shut.response;
            },
            record {
              auth = same-Agree p.auth;
              deserialize = same-Agree p.deserialize;
              validate = same-Agree p.validate;
              service = Step-Agree st shut.service;
              db = same-Agree p.db;
              response = same-Agree p.response;
            },
          ))
        h

  pub on_db-IsSound :
      (p : Pipeline D) (t : StepRegistry D)
      → Step p.db t
      → IsSound convert zero_of p
      → IsSound convert zero_of (record p { db = t })
  on_db-IsSound p t st h =
      touched-IsSound convert zero_of p (record p { db = t }) refl refl
        (record {
          auth_fresh = h.fresh.steps_fresh.auth_fresh;
          deserialize_fresh = h.fresh.steps_fresh.deserialize_fresh;
          validate_fresh = h.fresh.steps_fresh.validate_fresh;
          service_fresh = h.fresh.steps_fresh.service_fresh;
          db_fresh = Step-IsFresh st h.fresh.steps_fresh.db_fresh;
          response_fresh = h.fresh.steps_fresh.response_fresh;
        })
        (λ closed.
          let shut = h.shut closed in
          (
            record {
              auth = shut.auth;
              deserialize = shut.deserialize;
              validate = shut.validate;
              service = shut.service;
              db = (Step-fixed st shut.db).0;
              response = shut.response;
            },
            record {
              auth = same-Agree p.auth;
              deserialize = same-Agree p.deserialize;
              validate = same-Agree p.validate;
              service = same-Agree p.service;
              db = Step-Agree st shut.db;
              response = same-Agree p.response;
            },
          ))
        h

  pub on_response-IsSound :
      (p : Pipeline D) (t : StepRegistry D)
      → Step p.response t
      → IsSound convert zero_of p
      → IsSound convert zero_of (record p { response = t })
  on_response-IsSound p t st h =
      touched-IsSound convert zero_of p (record p { response = t }) refl refl
        (record {
          auth_fresh = h.fresh.steps_fresh.auth_fresh;
          deserialize_fresh = h.fresh.steps_fresh.deserialize_fresh;
          validate_fresh = h.fresh.steps_fresh.validate_fresh;
          service_fresh = h.fresh.steps_fresh.service_fresh;
          db_fresh = h.fresh.steps_fresh.db_fresh;
          response_fresh = Step-IsFresh st h.fresh.steps_fresh.response_fresh;
        })
        (λ closed.
          let shut = h.shut closed in
          (
            record {
              auth = shut.auth;
              deserialize = shut.deserialize;
              validate = shut.validate;
              service = shut.service;
              db = shut.db;
              response = (Step-fixed st shut.response).0;
            },
            record {
              auth = same-Agree p.auth;
              deserialize = same-Agree p.deserialize;
              validate = same-Agree p.validate;
              service = same-Agree p.service;
              db = same-Agree p.db;
              response = Step-Agree st shut.response;
            },
          ))
        h
