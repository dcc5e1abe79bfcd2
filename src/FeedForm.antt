-- ===== src/FeedForm.antt =====
-- frontend/src/components/AddFeedForm.tsx: the form that adds a feed with tags.
pub mod Adding
use feed_reader.Common.{
  String, Bool, true, false, Option, none, some, List, [], ◌∷◌, ◌++◌, map, if◌then◌else◌, string_eq,
}
use feed_reader.Common.Lists.{filter, includes}
use feed_reader.Queries.ItemQueries.{FeedTag}
use feed_reader.Queries.Counts.{Tag}
use feed_reader.Queries.FeedQueries.{get_tags_with_feed_count, get_tag_picker}
use feed_reader.LinkForm.{without}

-- The signals; an error is its message.
pub record FeedForm : Type 0 where
  pub url : String
  pub selected_tag_ids : List String
  pub is_pending : Bool
  pub error : Option String

unfoldable pub empty_form : FeedForm
empty_form = record { url = ""; selected_tag_ids = []; is_pending = false; error = none }

unfoldable pub toggle_tag : String → FeedForm → FeedForm
unfolding without
toggle_tag id s = record s {
  selected_tag_ids =
      if includes s.selected_tag_ids id
      then without id s.selected_tag_ids
      else s.selected_tag_ids ++ id ∷ [];
}

abbrev pub toggle_tags : List String → FeedForm → FeedForm
toggle_tags [] s = s
toggle_tags (id ∷ ids) s = toggle_tags ids (toggle_tag id s)

unfoldable pub tags_sorted : List Tag → List FeedTag → List Tag
unfolding get_tags_with_feed_count get_tag_picker
tags_sorted raw_tags feed_tags = get_tag_picker (get_tags_with_feed_count raw_tags feed_tags)

-- How `feedInsert` ends; what it throws may be no `Error`, which is `none`.
pub data Ending : Type 0 where
  resolves : Ending
  throws : Option String → Ending

-- What `feedInsert` sends: the body of `feedsCreate`.
pub record FeedRequest : Type 0 where
  pub url : String
  pub tag_ids : List String

abbrev pub message_of : Option String → String
message_of none = "Unknown error"
message_of (some message) = message

-- `handleSubmit`; `waiting` are the tags pressed while the call waits, when the field of the URL is
-- disabled.
unfoldable pub handle_submit : List Tag → Ending → List String → FeedForm → FeedRequest × FeedForm
handle_submit tags ending waiting s = (
  record {
    url = s.url;
    tag_ids = map (λ (t : Tag). t.id) (filter (λ (t : Tag). includes s.selected_tag_ids t.id) tags);
  },
  let later = toggle_tags waiting (record s { is_pending = true; error = none }) in
      elim ending [
        | resolves ↦ record later { url = ""; selected_tag_ids = []; is_pending = false }
        | throws e ↦ record later { error = some (message_of e); is_pending = false }
      ],
)
