-- ===== src/System/Tests.antt =====
-- Headers in a dictionary, settings, and an app.
use quant_pilot.Base.{
  String, ◌≡◌, refl, Option, none, some, [], ◌∷◌, maybe, str_eq, if◌then◌else◌, Bool, false, true,
  ap, ◌∙◌, inl, inr, Bool-cases, eq_iff,
}
use quant_pilot.Base.Dict.{Dict, lookup, insert, lookup-insert}
use quant_pilot.System.Settings.{
  Env, default_settings, Origins, split_csv, is_prod, guard_prod_secret,
}
use quant_pilot.System.App.{Framework, IsFramework, create_app, send, get-create_app}
use quant_pilot.System.Headers.{Headers, IsHeaders}

abbrev headers : Headers (Dict String)
headers = record {
  same = str_eq;
  get = lookup;
  setdefault = λ k v h. insert k (maybe (lookup k h) v λ own. own) h;
}

lookup-setdefault :
    (name k v : String) (h : Dict String)
    → lookup name (insert k (maybe (lookup k h) v λ own. own) h)
      ≡ (if str_eq k name then some (maybe (lookup name h) v λ own. own) else lookup name h)
lookup-setdefault name k v h =
    lookup-insert k name (maybe (lookup k h) v λ own. own) h ∙ elim (Bool-cases (str_eq k name)) [
      | inl same ↦
          rw same (ap (λ j. some (maybe (lookup j h) v λ own. own)) ((eq_iff k name).0 same))
      | inr other ↦ rw other refl
    ]

headers-IsHeaders : IsHeaders headers
headers-IsHeaders = record { get-setdefault = lookup-setdefault }

-- Production refuses the secret of the repository.
refused : guard_prod_secret (record default_settings { env = Env.prod }) ≡ none
unfolding guard_prod_secret is_prod
refused = refl

origins :
    split_csv (λ v. "http://a" ∷ "" ∷ []) (λ x. x) (λ v. false) (Origins.of_text "http://a,")
    ≡ Origins.of_list ("http://a" ∷ [])
unfolding split_csv
origins = refl

-- A request is whether it is a preflight, and whether the route raises; the middleware of the
-- framework adds nothing.
abbrev framework : Framework (Bool × Bool → Option (Dict String)) (Bool × Bool) (Dict String)
framework = record {
  add_middleware = λ m app. m app;
  respond = λ app. app;
  server_error = λ r. ("Content-Type", "text/plain") ∷ [];
  url_path = λ r. "/docs";
  url_scheme = λ r. "https";
  session_middleware = λ secret https_only inner. inner;
  cors_middleware = λ origins inner r. if r.0 then some (("Vary", "Origin") ∷ []) else inner r;
  is_preflight = λ r. r.0;
  preflight_answer = λ origins r. ("Vary", "Origin") ∷ [];
}

framework-IsFramework : (name : String) → IsFramework headers framework name
framework-IsFramework name = record {
  respond-add_middleware = λ m app r. refl;
  session_keeps = λ secret https_only inner r. refl;
  cors_preflight = λ origins inner r preflight. rw preflight refl;
  cors_keeps = λ origins inner r other. rw other refl;
}

abbrev routes : Bool × Bool → Option (Dict String)
routes r = if r.1 then none else some []

get-create_app_example :
    lookup "X-Frame-Options"
      (send headers framework (create_app headers framework default_settings routes) (false, false))
    ≡ some "DENY"
unfolding lookup
get-create_app_example =
    get-create_app headers framework headers-IsHeaders "X-Frame-Options"
      (framework-IsFramework "X-Frame-Options") default_settings routes (false, false)

unprotected_preflight :
    lookup "X-Frame-Options"
      (send headers framework (create_app headers framework default_settings routes) (true, false))
    ≡ none
unfolding lookup
unprotected_preflight =
    get-create_app headers framework headers-IsHeaders "X-Frame-Options"
      (framework-IsFramework "X-Frame-Options") default_settings routes (true, false)

unprotected_error :
    lookup "X-Frame-Options"
      (send headers framework (create_app headers framework default_settings routes) (false, true))
    ≡ none
unfolding lookup
unprotected_error =
    get-create_app headers framework headers-IsHeaders "X-Frame-Options"
      (framework-IsFramework "X-Frame-Options") default_settings routes (false, true)
