-- ===== src/Rendezvous/Client.antt =====
-- crates/rendezvous/src/lib.rs: the client. `reqwest` is a parameter: an error, or a status and a
-- body, for each request.
use controlis.Prelude.{
  ℕ, Bool, true, false, not, ◌&&◌, ◌||◌, Option, none, some, List, [], ◌∷◌, ◌++◌, leb,
  if◌then◌else◌, Result, ok, err, ◌==◌, nat_eq, codes, decimal, is_whitespace,
}
use controlis.Rendezvous.{
  RegisterRequest, RegisterResponse, RefreshRequest, LookupResponse, UnregisterRequest,
}

-- `status` holds the code and the body.
pub data ClientError : Type 0 where
  invalid_base_url : ClientError
  request : List ℕ → ClientError
  status : ℕ → List ℕ → ClientError

-- `text` is none where reading the body fails.
pub record Response : Type 0 where
  pub code : ℕ
  pub text : Option (List ℕ)

-- A request's URL and its body, if it has one, which `reqwest` makes of JSON.
pub record Http : Type 0 where
  pub get : List ℕ → Result Response (List ℕ)
  pub post : List ℕ → List ℕ → Result Response (List ℕ)

-- `serde_json` for the requests, and for reading a response.
pub record Json : Type 0 where
  pub register_json : RegisterRequest → List ℕ
  pub refresh_json : RefreshRequest → List ℕ
  pub unregister_json : UnregisterRequest → List ℕ
  pub read_registered : Response → Result RegisterResponse (List ℕ)
  pub read_found : Response → Result LookupResponse (List ℕ)

unfoldable pub starts_with : List ℕ → List ℕ → Bool
starts_with text [] = true
starts_with [] (c ∷ cs) = false
starts_with (d ∷ ds) (c ∷ cs) = (d == c) && starts_with ds cs

-- Without the characters of the test at the end.
unfoldable pub trim_end : (ℕ → Bool) → List ℕ → List ℕ
trim_end p [] = []
trim_end p (c ∷ cs) = elim (trim_end p cs) [ [] ↦ if p c then [] else c ∷ [] | d ∷ ds ↦ c ∷ d ∷ ds ]

unfoldable pub trim_start : (ℕ → Bool) → List ℕ → List ℕ
trim_start p [] = []
trim_start p (c ∷ cs) = elim (p c) [ true ↦ trim_start p cs | false ↦ c ∷ cs ]

unfoldable pub trim : List ℕ → List ℕ
unfolding is_whitespace trim_end trim_start
trim text = trim_end is_whitespace (trim_start is_whitespace text)

abbrev is_slash : ℕ → Bool
is_slash c = c == b'/'

abbrev is_empty : List ℕ → Bool
is_empty [] = true
is_empty (c ∷ cs) = false

-- `Client::new`; a client is its base URL.
unfoldable pub new : List ℕ → Result (List ℕ) ClientError
unfolding trim trim_end starts_with
new base_url =
    let url = trim_end is_slash (trim base_url) in
    if is_empty url || not (starts_with url (codes "http://") || starts_with url (codes "https://"))
    then err invalid_base_url
    else ok url

abbrev pub is_success : ℕ → Bool
is_success code = leb 200 code && leb code 299

abbrev or_empty : Option (List ℕ) → List ℕ
or_empty none = []
or_empty (some text) = text

abbrev pub status_error : Response → ClientError
status_error r = status r.code (or_empty r.text)

abbrev as_request : {A : Type 0} → Result A (List ℕ) → Result A ClientError
as_request (ok a) = ok a
as_request (err e) = err (request e)

-- `decode_response`, of what sending gave, with the JSON of its type.
unfoldable pub decode_response :
    {A : Type 0} → (Response → Result A (List ℕ)) → Result Response (List ℕ) → Result A ClientError
decode_response read (err e) = err (request e)
decode_response read (ok r) =
    if is_success r.code then as_request (read r) else err (status_error r)

abbrev unregistered : Result Response (List ℕ) → Result (Unit {0}) ClientError
unregistered (err e) = err (request e)
unregistered (ok r) = if is_success r.code then ok tt else err (status_error r)

module _ (http : Http) (json : Json) where
  unfoldable pub post_json :
      {A : Type 0}
      → List ℕ
      → List ℕ
      → List ℕ
      → (Response → Result A (List ℕ))
      → Result A ClientError
  unfolding decode_response
  post_json client path body read = decode_response read (http.post (client ++ path) body)

  unfoldable pub register : List ℕ → RegisterRequest → Result RegisterResponse ClientError
  unfolding post_json
  register client r =
      post_json client (codes "/v1/register") (json.register_json r) json.read_registered

  unfoldable pub refresh : List ℕ → RefreshRequest → Result RegisterResponse ClientError
  unfolding post_json
  refresh client r =
      post_json client (codes "/v1/refresh") (json.refresh_json r) json.read_registered

  unfoldable pub lookup : List ℕ → ℕ → Result LookupResponse ClientError
  unfolding decode_response
  lookup client session_id =
      decode_response json.read_found
        (http.get (client ++ codes "/v1/sessions/" ++ decimal session_id))

  unfoldable pub unregister : List ℕ → UnregisterRequest → Result (Unit {0}) ClientError
  unregister client r =
      unregistered (http.post (client ++ codes "/v1/unregister") (json.unregister_json r))
