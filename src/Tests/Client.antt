-- ===== src/Tests/Client.antt =====
-- The calls of the API and the settings at concrete inputs.
use Prim.Native.Char.{code}
use feed_reader.Common.{
  ℕ, String, ◌≡◌, refl, Bool, true, false, Option, none, some, [], ◌∷◌, if◌then◌else◌, ◌==◌,
  string_eq, nat_eq, list_eq,
}
use feed_reader.Common.Text.{Text, codes}
use feed_reader.HttpClient.{Response, Json, no_object, reload}
use feed_reader.HttpClient.Responses.{calls, signed_in, calls_lem}
use feed_reader.Queries.FeedQueries.{untagged, last_fetched}
use feed_reader.FeedSettings.{
  Value, undefined, null, other, text, FeedStoreState, create_feed_store, persist_sort_by,
  persist_tag_filter,
}
use feed_reader.FeedSettings.Persistence.{KeepsValues, working, create_feed_store-persist}

abbrev parse : Text → Option Json
parse t = some no_object

abbrev response : ℕ → Bool → Option Response
response status ok = some (record { status = status; ok = ok; body = codes "1" })

-- Two calls find the user signed out.
calls_example :
    (calls parse
      (codes "/")
      (response 200 true ∷ response 401 false ∷ none ∷ response 401 false ∷ [])
      signed_in).navigations
    ≡ reload ∷ []
calls_example =
    calls_lem parse (codes "/")
      (response 200 true ∷ response 401 false ∷ none ∷ response 401 false ∷ [])

-- A notation that keeps the values of the settings: a text begins with a letter t.
abbrev stringify : Value → String
stringify null = "n"
stringify (text t) = String.◌∷◌ "t" t
stringify undefined = ""
stringify other = "o"

abbrev parse_value : String → Option Value
parse_value String.[] = none
parse_value (String.◌∷◌ c t) = if code c == code "t" then some (text t) else some null

json : KeepsValues stringify parse_value
json = record { null_back = refl; text_back = λ t. refl }

abbrev settings : FeedStoreState
settings = record { sort_by = last_fetched; selected_tag_id = untagged }

create_feed_store-persist_example :
    create_feed_store stringify parse_value (
      persist_tag_filter stringify parse_value settings
        (persist_sort_by stringify parse_value settings (working (("other", "1") ∷ []))))
    ≡ settings
create_feed_store-persist_example =
    create_feed_store-persist stringify parse_value json settings (("other", "1") ∷ [])
