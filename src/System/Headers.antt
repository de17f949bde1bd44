-- ===== src/System/Headers.antt =====
-- src/quant_pilot/api/security/headers.py. The headers of a response (Starlette's `MutableHeaders`) are
-- a parameter with laws: two spellings of a header may be the same name.
use quant_pilot.Base.{
  String, ◌≡◌, refl, ◌∙◌, ap, Bool, Option, none, some, List, [], ◌∷◌, ◌++◌, any, maybe, str_eq,
  if◌then◌else◌, arith, Bool-cases, Option-cases, inl, inr,
}

pub record Headers (H : Type 0) : Type 0 where
  -- Whether two texts name the same header.
  pub same : String → String → Bool
  pub get : String → H → Option String
  pub setdefault : String → String → H → H

pub record IsHeaders {H : Type 0} (headers : Headers H) : Type 0 where
  pub get-setdefault :
      (name k v : String) (h : H)
      → headers.get name (headers.setdefault k v h) ≡ (
          if headers.same k name
          then some (maybe (headers.get name h) v (λ own. own))
          else headers.get name h)

-- `_STATIC_HEADERS`
abbrev pub static_headers : List (String × String)
static_headers =
    ("X-Content-Type-Options", "nosniff")
    ∷ ("X-Frame-Options", "DENY")
    ∷ ("Referrer-Policy", "no-referrer")
    ∷ ("Permissions-Policy", "geolocation=(), microphone=(), camera=()")
    ∷ []

-- `_API_CSP`
abbrev pub api_csp : String
api_csp = "default-src 'none'; frame-ancestors 'none'"

-- `_DOCS_CSP`
abbrev pub docs_csp : String
docs_csp =
    "default-src 'self'; img-src 'self' data: https://fastapi.tiangolo.com; script-src 'self' https://cdn.jsdelivr.net; style-src 'self' 'unsafe-inline' https://cdn.jsdelivr.net; worker-src 'self' blob:"

-- `_DOCS_PATHS`
abbrev pub docs_paths : List String
docs_paths = "/docs" ∷ "/redoc" ∷ "/openapi.json" ∷ []

-- The policy for a path.
abbrev pub csp_of : String → String
csp_of path = if any (λ p. str_eq p path) docs_paths then docs_csp else api_csp

abbrev pub transport_policy : String
transport_policy = "max-age=31536000; includeSubDomains"

module _ {H : Type 0} (headers : Headers H) where
  -- The loop over the static headers.
  unfoldable pub set_defaults : List (String × String) → H → H
  set_defaults [] h = h
  set_defaults ((k, v) ∷ items) h = set_defaults items (headers.setdefault k v h)

  -- `dispatch`, on the headers of the response, with the path and the scheme of the request
  unfoldable pub dispatch : String → String → H → H
  dispatch path scheme h =
      let h' =
        headers.setdefault "Content-Security-Policy" (csp_of path)
          (set_defaults static_headers h) in
      if str_eq scheme "https"
      then headers.setdefault "Strict-Transport-Security" transport_policy h'
      else h'

  -- The headers that a response must have, in order.
  abbrev pub required_headers : String → String → List (String × String)
  required_headers path scheme =
      static_headers
      ++ ("Content-Security-Policy", csp_of path)
        ∷ (if str_eq scheme "https"
            then ("Strict-Transport-Security", transport_policy) ∷ []
            else [])

  -- The first value that a list gives to a header.
  abbrev pub first_value : String → List (String × String) → Option String
  first_value name [] = none
  first_value name ((k, v) ∷ items) = if headers.same k name then some v else first_value name items

  -- The response's own header, or the default.
  abbrev pub own_or : Option String → Option String → Option String
  own_or none default = default
  own_or (some own) default = some own

  module _ (laws : IsHeaders headers) where
    get-set_defaults :
        (name : String) (items : List (String × String)) (h : H)
        → headers.get name (set_defaults items h)
          ≡ own_or (headers.get name h) (first_value name items)
    unfolding set_defaults
    get-set_defaults name [] h = ground (arith, Option-cases (headers.get name h))
    get-set_defaults name ((k, v) ∷ items) h =
        get-set_defaults name items (headers.setdefault k v h)
        ∙ rw (laws.get-setdefault name k v h) (ground arith)

    dispatch-eq-set_defaults :
        (path scheme : String) (h : H)
        → dispatch path scheme h ≡ set_defaults (required_headers path scheme) h
    unfolding dispatch set_defaults
    dispatch-eq-set_defaults path scheme h = elim (Bool-cases (str_eq scheme "https")) [
      | inl secure ↦ rw secure refl
      | inr plain ↦ rw plain refl
    ]

    -- After the middleware every header of a response is what the handler set, and where it set none,
    -- the required value: the static headers, the policy of the path, and for https the transport
    -- policy. No other header is added.
    pub get-dispatch :
        (path scheme name : String) (h : H)
        → headers.get name (dispatch path scheme h)
          ≡ own_or (headers.get name h) (first_value name (required_headers path scheme))
    get-dispatch path scheme name h =
        ap (headers.get name) (dispatch-eq-set_defaults path scheme h)
        ∙ get-set_defaults name (required_headers path scheme) h
