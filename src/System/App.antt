-- ===== src/System/App.antt =====
-- `create_app` of src/quant_pilot/api/main.py: the middleware around the routes. The framework, the
-- session middleware and the CORS middleware (Starlette's) are parameters; a response is its headers,
-- and a handler or a middleware that raises gives `none`. The routes, and what they answer, are the
-- app that the function starts from.
use quant_pilot.Base.{
  String, ◌≡◌, refl, ap, ◌∙◌, Bool, true, false, Option, none, some, maybe, List, if◌then◌else◌,
  Bool-cases, Option-cases, inl, inr,
}
use mathlib.Core.Option
use quant_pilot.System.Settings.{Settings, is_prod}
use quant_pilot.System.Headers.{
  Headers, IsHeaders, dispatch, own_or, first_value, required_headers, get-dispatch,
}

-- A middleware, given what is inside it.
abbrev pub Middleware : Type 0 → Type 0 → Type 0
Middleware R H = (R → Option H) → R → Option H

-- The framework: apps A that answer requests R with responses H.
pub record Framework (A R H : Type 0) : Type 0 where
  pub add_middleware : Middleware R H → A → A
  -- The middleware that were added, around the routes.
  pub respond : A → R → Option H
  -- The answer to an exception that they let through, `ServerErrorMiddleware`'s.
  pub server_error : R → H
  pub url_path : R → String
  pub url_scheme : R → String
  -- `SessionMiddleware` with its secret key and `https_only`
  pub session_middleware : String → Bool → Middleware R H
  -- `CORSMiddleware` with its origins
  pub cors_middleware : List String → Middleware R H
  -- Whether a request is a preflight, and what CORS answers to it.
  pub is_preflight : R → Bool
  pub preflight_answer : List String → R → H

module _ {A R H : Type 0} (headers : Headers H) (fw : Framework A R H) where
  -- What a header is in a response, if there is one.
  abbrev pub header_of : String → Option H → Option (Option String)
  header_of name = Option.map (headers.get name)

  -- The response that is sent: `ServerErrorMiddleware` is outside of all that is added.
  abbrev pub send : A → R → H
  send app r = maybe (fw.respond app r) (fw.server_error r) (λ h. h)

  -- What the framework documents: the middleware that is added last is outermost; CORS answers a
  -- preflight by itself, and otherwise it and the session leave a header alone and let an exception
  -- through.
  pub record IsFramework (name : String) : Type 0 where
    pub respond-add_middleware :
        (m : Middleware R H) (app : A) (r : R)
        → fw.respond (fw.add_middleware m app) r ≡ m (fw.respond app) r
    pub session_keeps :
        (secret : String) (https_only : Bool) (inner : R → Option H) (r : R)
        → header_of name (fw.session_middleware secret https_only inner r)
          ≡ header_of name (inner r)
    pub cors_preflight :
        (origins : List String) (inner : R → Option H) (r : R)
        → fw.is_preflight r ≡ true
        → fw.cors_middleware origins inner r ≡ some (fw.preflight_answer origins r)
    pub cors_keeps :
        (origins : List String) (inner : R → Option H) (r : R)
        → fw.is_preflight r ≡ false
        → header_of name (fw.cors_middleware origins inner r) ≡ header_of name (inner r)

  -- `SecurityHeadersMiddleware`; an exception of `call_next` goes through it.
  abbrev pub security_middleware : Middleware R H
  security_middleware call_next r =
      Option.map (dispatch headers (fw.url_path r) (fw.url_scheme r)) (call_next r)

  unfoldable pub create_app : Settings → A → A
  create_app settings routes =
      let secured = fw.add_middleware security_middleware routes in
      let with_session =
        fw.add_middleware (fw.session_middleware settings.session_secret (is_prod settings))
          secured in
      fw.add_middleware (fw.cors_middleware settings.cors_origins) with_session

  header_of-map :
      (name : String) (f : H → H) (g : Option String → Option String) (o : Option H)
      → ((h : H) → headers.get name (f h) ≡ g (headers.get name h))
      → header_of name (Option.map f o) ≡ Option.map g (header_of name o)
  header_of-map name f g none e = refl
  header_of-map name f g (some h) e = ap some (e h)

  -- The header that is sent, from the header of what the middleware answer.
  get-send :
      (name : String) (app : A) (r : R)
      → headers.get name (send app r)
        ≡ maybe (header_of name (fw.respond app r)) (headers.get name (fw.server_error r)) (λ v. v)
  get-send name app r = elim (Option-cases (fw.respond app r)) [
    | inl raised ↦ rw raised refl
    | inr (h, answered) ↦ rw answered refl
  ]

  -- A preflight is answered by CORS alone, without the security headers. On every other request that
  -- a route answers, a header that the session and CORS leave alone is the route's own, or else the
  -- one that the path and the scheme require; a route that raises is answered by the framework, again
  -- without the security headers.
  pub get-create_app :
      IsHeaders headers
      → (name : String) → IsFramework name
      → (settings : Settings) (routes : A) (r : R)
      → headers.get name (send (create_app settings routes) r) ≡ (
          if fw.is_preflight r
          then headers.get name (fw.preflight_answer settings.cors_origins r)
          else maybe (fw.respond routes r) (headers.get name (fw.server_error r)) λ h.
            own_or headers (headers.get name h) (
              first_value headers name
                (required_headers headers (fw.url_path r) (fw.url_scheme r))))
  unfolding create_app
  get-create_app laws name fws settings routes r =
      let secured = fw.add_middleware security_middleware routes in
      let session = fw.session_middleware settings.session_secret (is_prod settings) in
      let with_session = fw.add_middleware session secured in
      let app = create_app settings routes in
      let outermost =
        fws.respond-add_middleware (fw.cors_middleware settings.cors_origins) with_session r in
      let required =
        first_value headers name (required_headers headers (fw.url_path r) (fw.url_scheme r)) in
      let own = λ (v : Option String). own_or headers v required in
      let failed = headers.get name (fw.server_error r) in
      elim (Bool-cases (fw.is_preflight r)) [
        | inl preflight ↦
            get-send name app r
            ∙ ap (λ o. maybe (header_of name o) failed (λ v. v))
                (outermost
                  ∙ fws.cors_preflight settings.cors_origins (fw.respond with_session) r preflight)
            ∙ rw preflight refl
        | inr other ↦
            get-send name app r
            ∙ ap (λ o. maybe o failed (λ v. v))
                (ap (header_of name) outermost
                  ∙ fws.cors_keeps settings.cors_origins (fw.respond with_session) r other
                  ∙ ap (header_of name) (fws.respond-add_middleware session secured r)
                  ∙ fws.session_keeps settings.session_secret (is_prod settings)
                      (fw.respond secured) r
                  ∙ ap (header_of name) (fws.respond-add_middleware security_middleware routes r)
                  ∙ header_of-map name (dispatch headers (fw.url_path r) (fw.url_scheme r)) own
                      (fw.respond routes r)
                      (get-dispatch headers laws (fw.url_path r) (fw.url_scheme r) name))
            ∙ rw other (elim (Option-cases (fw.respond routes r)) [
              | inl raised ↦ rw raised refl
              | inr (h, answered) ↦ rw answered refl
            ])
      ]
