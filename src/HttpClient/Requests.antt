-- ===== src/HttpClient/Requests.antt =====
-- The URL and the headers of a request.
use feed_reader.Common.{
  ◌≡◌, refl, true, none, some, List, [], ◌∷◌, ◌++◌, arith, nat_eq, list_eq, string_eq, Bool-cases,
  inl, inr,
}
use feed_reader.Common.Maps.{get, get_last, set_all, get-set, get-set_all, or_else}
use feed_reader.Common.Text.{Text, codes, starts_with}
use feed_reader.HttpClient.{
  without_slash, join_url, normalize_headers, RequestConfig, request_headers,
}

starts_with-append : (p s : Text) → starts_with (p ++ s) p ≡ true
starts_with-append [] [] = refl
starts_with-append [] (c ∷ s) = refl
starts_with-append (c ∷ p) s = ground (arith, starts_with-append p s)

join_url-starts :
    (base_url path : Text) → starts_with (join_url base_url path) (without_slash base_url) ≡ true
unfolding join_url
join_url-starts base_url path = elim (Bool-cases (starts_with path (without_slash base_url))) [
  | inl e ↦ rw e e
  | inr e ↦ rw e (starts_with-append (without_slash base_url) _)
]

join_url-kept :
    (base_url path : Text)
    → starts_with path (without_slash base_url) ≡ true
    → join_url base_url path ≡ path
unfolding join_url
join_url-kept base_url path h = rw h refl

-- The URL of a request begins with the base, less a slash at its end, and joining it to the base
-- again changes nothing.
pub join_url_lem :
    (base_url path : Text)
    → (starts_with (join_url base_url path) (without_slash base_url) ≡ true)
      × (join_url base_url (join_url base_url path) ≡ join_url base_url path)
join_url_lem base_url path = (
  join_url-starts base_url path,
  join_url-kept base_url (join_url base_url path) (join_url-starts base_url path),
)

-- A request says that it accepts JSON unless its own headers say what it accepts, and one with data
-- says that it sends JSON whatever its own headers say.
pub request_headers_lem :
    {D : Type 0} (encode : List (Text × Text) → Text) (stringify : D → Text)
    (config : RequestConfig D) (value : D)
    → (get "Accept" (request_headers encode stringify (record config { body = none }))
        ≡ or_else
            (get_last "Accept" (normalize_headers config.headers))
            (some (codes "application/json")))
      × (get "Content-Type" (request_headers encode stringify (record config { body = some value }))
          ≡ some (codes "application/json"))
unfolding request_headers get
request_headers_lem encode stringify config value = (
  get-set_all (normalize_headers config.headers) "Accept"
      (("Accept", codes "application/json") ∷ []),
  get-set "Content-Type" "Content-Type" (codes "application/json")
      (set_all (normalize_headers config.headers) (("Accept", codes "application/json") ∷ [])),
)
