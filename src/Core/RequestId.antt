-- ===== src/Core/RequestId.antt =====
-- core/request_id.py: the middleware, and the responses of core/errors.py that pass through it.
-- Names and values of headers are bytes, kept as the text that latin-1 decodes them to.
use dropsort.Prelude.{
  ⊤, ℕ, String, ◌≡◌, refl, Bool, true, Option, none, some, List, [], ◌∷◌, ◌++◌, map, str_eq,
  if◌then◌else◌, eq_iff, arith, find?, Bool-cases, ◌≢◌, inl, inr, ◌⊎◌, format,
}
use dropsort.Api.{Reply, refused, Envelope, envelope, decimal}

abbrev pub Header : Type 0
Header = String × String

pub record Scope : Type 0 where
  pub kind : String
  pub headers : List Header

-- What an application sends: the start of a response, a body, or a message of another protocol.
pub data Message (B : Type 0) : Type 0 where
  response_start : ℕ → List Header → Message B
  response_body : B → Message B
  other : String → Message B

-- An application with the `request_id` of structlog's context variables.
abbrev pub App : Type 0 → Type 0
App B = Scope → Option String → List (Message B)

abbrev pub request_id_header : String
request_id_header = "x-request-id"

abbrev pub is_request_id : Header → Bool
is_request_id (header_name, header_value) = str_eq header_name request_id_header

-- The first header of that name, also if it is empty.
abbrev pub incoming : Scope → Option Header
incoming scope = find? is_request_id scope.headers

-- `if not request_id: request_id = str(uuid.uuid4())`
abbrev or_fresh : String → Option Header → String
or_fresh fresh none = fresh
or_fresh fresh (some (header_name, header_value)) =
    if str_eq header_value "" then fresh else header_value

unfoldable pub request_id : String → Scope → String
request_id fresh scope = or_fresh fresh (incoming scope)

module _ {B : Type 0} where
  -- `send_with_request_id`
  abbrev pub stamp : String → Message B → Message B
  stamp id (response_start status headers) =
      response_start status (headers ++ (request_id_header, id) ∷ [])
  stamp id (response_body body) = response_body body
  stamp id (other kind) = other kind

  -- `RequestIdMiddleware.__call__`, with the text of the identifier that `uuid4` would give
  unfoldable pub middleware : String → App B → App B
  middleware fresh app scope context =
      if str_eq scope.kind "http"
      then (let id = request_id fresh scope in map (stamp id) (app scope (some id)))
      else app scope context

-- The identifier is what the client sent, if that is not empty, and a new one otherwise.
abbrev pub IsChosen : String → Scope → String → Type 0
IsChosen fresh scope id =
    ((sent : Header) × (incoming scope ≡ some sent) × (sent.1 ≢ "") × (id ≡ sent.1))
    ⊎ ((id ≡ fresh)
        × ((incoming scope ≡ none)
            ⊎ ((sent : Header) × (incoming scope ≡ some sent) × (sent.1 ≡ ""))))

or_fresh-IsChosen :
    (fresh : String) (scope : Scope) (found : Option Header)
    → incoming scope ≡ found
    → IsChosen fresh scope (or_fresh fresh found)
or_fresh-IsChosen fresh scope none e = inr (refl, inl e)
or_fresh-IsChosen fresh scope (some (name, value)) e = elim (Bool-cases (str_eq value "")) [
  | inl t ↦ rw t (inr (refl, inr ((name, value), e, (eq_iff value "").0 t)))
  | inr f ↦ rw f (inl ((name, value), e, (λ x. ground (arith, eq_iff value "")), refl))
]

request_id-IsChosen :
    (fresh : String) (scope : Scope) → IsChosen fresh scope (request_id fresh scope)
unfolding request_id
request_id-IsChosen fresh scope = or_fresh-IsChosen fresh scope (incoming scope) refl

-- The response of an error handler, with the headers that `JSONResponse` sets.
abbrev pub respond {ℓ} : {A : Type ℓ} → List Header → Reply A → App Envelope
respond own reply scope context = elim (envelope context reply) [
  | none ↦ []
  | some e ↦ response_start e.status own ∷ response_body e ∷ []
]

-- An error response to an HTTP request names one identifier, in the last header of its start and in
-- its body, which has the message of the error: the value of the first x-request-id header of the
-- request where that is not empty, and a new UUID otherwise.
pub error_response-Traced :
    (fresh : String) (own : List Header) (status : ℕ) (detail : String) (scope : Scope)
    (context : Option String)
    → scope.kind ≡ "http"
    → (id : String) × IsChosen fresh scope id
      × (e : Envelope) × (middleware fresh
            (respond {A = ⊤} own (refused status detail))
            scope
            context
          ≡ response_start status (own ++ (request_id_header, id) ∷ []) ∷ response_body e ∷ [])
      × (e.request_id ≡ some id)
      × (e.message ≡ detail)
unfolding middleware
error_response-Traced fresh own status detail scope context http =
    let is_http : str_eq scope.kind "http" ≡ true = (eq_iff _ _).1 http in
    let id : String = request_id fresh scope in
    (
      id,
      request_id-IsChosen fresh scope,
      record {
        status = status;
        code = format ("http_" ∷ decimal 3 status ∷ []);
        message = detail;
        request_id = some id;
      },
      rw is_http refl,
      refl,
      refl,
    )
