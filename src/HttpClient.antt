-- ===== src/HttpClient.antt =====
-- lib/api/kubb-client.ts, json-client.ts and auth-redirect.ts: the request that a call of the API
-- makes, and what its response comes to. Texts are lists of UTF-16 code units.
pub mod Requests
pub mod Responses
use feed_reader.Common.{
  ℕ, ◌+◌, ◌-◌, ◌≡◌, refl, String, Bool, true, false, not, ◌&&◌, ◌||◌, Option, none, some, List, [],
  ◌∷◌, ◌++◌, if◌then◌else◌, ◌==◌, nat_eq, list_eq, string_eq,
}
use feed_reader.Common.Lists.{length, take, filter}
use feed_reader.Common.Maps.{Dict, get, set, set_all}
use feed_reader.Common.Text.{Text, codes, starts_with, ends_with}

-- `baseUrl.replace(/\/$/, "")`
unfoldable pub without_slash : Text → Text
without_slash base_url =
    if ends_with base_url (b'/' ∷ []) then take (length base_url - 1) base_url else base_url

unfoldable pub join_url : Text → Text → Text
unfolding without_slash
join_url base_url path =
    if starts_with path (without_slash base_url)
    then path
    else without_slash base_url ++ (if starts_with path (b'/' ∷ []) then path else b'/' ∷ path)

-- A query parameter's value; `text` is `String(value)`.
pub data ParamValue : Type 0 where
  undefined null : ParamValue
  text : Text → ParamValue

unfoldable pub search_params : List (Text × ParamValue) → List (Text × Text)
search_params [] = []
search_params ((key, undefined) ∷ params) = search_params params
search_params ((key, null) ∷ params) = (key, codes "null") ∷ search_params params
search_params ((key, text value) ∷ params) = (key, value) ∷ search_params params

-- The headers of a request, as a record or as pairs.
pub data HeadersInit : Type 0 where
  no_headers : HeadersInit
  record_of : Dict Text → HeadersInit
  pairs : List (String × Text) → HeadersInit

unfoldable pub normalize_headers : HeadersInit → Dict Text
unfolding set_all
normalize_headers no_headers = []
normalize_headers (record_of headers) = headers
normalize_headers (pairs entries) = set_all entries []

pub record RequestConfig (Data : Type 0) : Type 0 where
  pub base_url : Option Text
  pub url : Option Text
  pub method : Option Text
  pub params : Option (List (Text × ParamValue))
  pub body : Option Data
  pub headers : HeadersInit

pub record Request : Type 0 where
  pub url : Text
  pub method : Text
  pub headers : Dict Text
  pub body : Option Text

abbrev pub or_text : Option Text → Text → Text
or_text none t = t
or_text (some s) t = s

abbrev with_content_type : {D : Type 0} → Option D → Dict Text → Dict Text
with_content_type none headers = headers
with_content_type (some data_of) headers = set "Content-Type" (codes "application/json") headers

-- `URLSearchParams.toString` and `JSON.stringify` are the platform's.
module _ {D : Type 0} (encode : List (Text × Text) → Text) (stringify : D → Text) where
  -- `none` stands for params that are no record.
  unfoldable pub append_query_params : Text → Option (List (Text × ParamValue)) → Text
  unfolding search_params
  append_query_params path none = path
  append_query_params path (some params) =
      let query = encode (search_params params) in
      if query == [] then path else path ++ b'?' ∷ query

  unfoldable pub request_headers : RequestConfig D → Dict Text
  unfolding normalize_headers set_all set
  request_headers config =
      with_content_type config.body
        (set_all (normalize_headers config.headers) (("Accept", codes "application/json") ∷ []))

  unfoldable pub request_of : RequestConfig D → Request
  unfolding append_query_params join_url request_headers
  request_of config = record {
    url =
        join_url (or_text config.base_url (codes "/api/v2"))
          (append_query_params (or_text config.url []) config.params);
    method = or_text config.method (codes "GET");
    headers = request_headers config;
    body = elim config.body [ none ↦ none | some data_of ↦ some (stringify data_of) ];
  }

-- A parsed JSON value, as far as the client looks into it: the fields of an object.
pub data Field : Type 0 where
  string : Text → Field
  no_string : Field

pub data Json : Type 0 where
  object : Dict Field → Json
  no_object : Json

abbrev pub string_field : Option Field → Option Text
string_field none = none
string_field (some no_string) = none
string_field (some (string t)) = some t

pub record ErrorPayload : Type 0 where
  pub code : Option Text
  pub message : Option Text

-- `none` is `undefined`, of the value and of the result.
unfoldable pub get_api_error_payload : Option Json → Option ErrorPayload
unfolding get
get_api_error_payload none = none
get_api_error_payload (some no_object) = none
get_api_error_payload (some (object fields)) = some (record {
  code = string_field (get "code" fields);
  message = string_field (get "message" fields);
})

pub record Response : Type 0 where
  pub status : ℕ
  pub ok : Bool
  pub body : Text

pub record ApiError : Type 0 where
  pub code : Text
  pub message : Text
  pub status : ℕ

-- What a call comes to: the data and the status, or what it throws.
pub data Result : Type 0 where
  answer : Option Json → ℕ → Result
  api_error : ApiError → Result
  syntax_error network_error : Result

abbrev pub code_of : Option ErrorPayload → Text
code_of none = codes "unknown"
code_of (some p) = or_text p.code (codes "unknown")

abbrev pub message_of : Option ErrorPayload → Text
message_of none = codes "Request failed"
message_of (some p) = or_text p.message (codes "Request failed")

unfoldable pub checked : Bool → ℕ → Option Json → Result
unfolding get_api_error_payload
checked ok status value =
    if ok
    then answer value status
    else let payload = get_api_error_payload value in
      api_error (record { code = code_of payload; message = message_of payload; status = status })

unauthorized : ApiError
unauthorized = record { code = codes "unauthorized"; message = codes "Unauthorized"; status = 401 }

-- `JSON.parse` is the platform's; `none` stands for the `SyntaxError`.
module _ (parse : Text → Option Json) where
  unfoldable pub parse_json : Text → Option (Option Json)
  parse_json body =
      if body == [] then some none else elim (parse body) [ none ↦ none | some v ↦ some (some v) ]

  -- The call from its response on, `none` where `fetch` throws: the result, and whether
  -- `onUnauthorized` is called.
  unfoldable pub client : Option Response → Result × Bool
  unfolding parse_json checked unauthorized
  client none = (network_error, false)
  client (some r) = if r.status == 401 then (api_error unauthorized, true) else (
    elim (parse_json r.body) [ none ↦ syntax_error | some value ↦ checked r.ok r.status value ],
    false,
  )

-- `redirectOnUnauthorized`: the module's flag, and the navigations so far; `in_browser` tells whether
-- there is a window, `path` is its location's.
pub data Navigation : Type 0 where
  reload assign_root : Navigation

pub record RedirectState : Type 0 where
  pub redirecting : Bool
  pub navigations : List Navigation

unfoldable pub redirect_on_unauthorized : Bool → Text → RedirectState → RedirectState
redirect_on_unauthorized in_browser path s = if not in_browser || s.redirecting then s else record {
  redirecting = true;
  navigations = s.navigations ++ (if path == b'/' ∷ [] then reload else assign_root) ∷ [];
}

unfoldable pub reset_unauthorized_redirect_guard : RedirectState → RedirectState
reset_unauthorized_redirect_guard s = record s { redirecting = false }
