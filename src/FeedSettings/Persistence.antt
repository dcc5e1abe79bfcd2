-- ===== src/FeedSettings/Persistence.antt =====
-- What a page that is opened again finds of the settings.
use feed_reader.Common.{
  String, ◌≡◌, refl, ap, ap₂, sym, ◌∙◌, Bool, true, false, Option, some, if◌then◌else◌, ◌==◌,
  ==_refl, string_eq,
}
use feed_reader.Common.Maps.{Dict, set, get-set, get-delete}
use feed_reader.Queries.FeedQueries.{
  TagChoice, any_tag, untagged, tagged, FeedSortOption, title_asc, title_desc, last_fetched,
  next_fetch,
}
use feed_reader.FeedSettings.{
  Value, undefined, null, other, text, Storage, set_storage_value, get_storage_value,
  is_feed_sort_by, is_tag_filter, FeedStoreState, sort_value, tag_value, create_feed_store,
  persist_sort_by, persist_tag_filter, feed_sort_by_key, feed_tag_filter_key, sort_of, choice_of,
}

-- What JSON does with the values that the store writes: `null` and texts come back as they were.
pub record KeepsValues (stringify : Value → String) (parse : String → Option Value) : Type 0 where
  pub null_back : parse (stringify null) ≡ some null
  pub text_back : (t : String) → parse (stringify (text t)) ≡ some (text t)

-- A storage that can be written and read, with these items.
abbrev pub working : Dict String → Storage
working items = record { items = items; writable = true; readable = true }

module _ (stringify : Value → String) (parse : String → Option Value)
    (json : KeepsValues stringify parse) where
  abbrev write : String → Value → Storage → Storage
  write key value s = set_storage_value stringify parse key value s

  -- Writing under one key leaves what stands under another.
  write-apart :
      (key other_key : String) (value : Value) (items : Dict String)
      → (key == other_key) ≡ false
      → (default : Value) (validate : Value → Bool)
      → get_storage_value stringify parse other_key default validate
          (write key value (working items))
        ≡ get_storage_value stringify parse other_key default validate (working items)
  unfolding set_storage_value get_storage_value
  write-apart key other_key undefined items h default validate =
      rw (get-delete key other_key items, h) refl
  write-apart key other_key null items h default validate =
      rw (get-set key other_key (stringify null) items, h) refl
  write-apart key other_key other items h default validate =
      rw (get-set key other_key (stringify other) items, h) refl
  write-apart key other_key (text t) items h default validate =
      rw (get-set key other_key (stringify (text t)) items, h) refl

  write-text :
      (key t : String) (items : Dict String) (default : Value) (validate : Value → Bool)
      → get_storage_value stringify parse key default validate (write key (text t) (working items))
        ≡ (if validate (text t) then text t else default)
  unfolding set_storage_value get_storage_value
  write-text key t items default validate =
      rw (get-set key key (stringify (text t)) items, ==_refl key, json.text_back t) refl

  read_sort :
      (sort_by : FeedSortOption) (items : Dict String)
      → sort_of (
          get_storage_value stringify parse feed_sort_by_key
            (text "title_asc")
            is_feed_sort_by
            (write feed_sort_by_key (sort_value sort_by) (working items)))
        ≡ sort_by
  unfolding is_feed_sort_by
  read_sort title_asc items =
      ap sort_of (write-text feed_sort_by_key "title_asc" items (text "title_asc") is_feed_sort_by)
  read_sort title_desc items =
      ap sort_of (write-text feed_sort_by_key "title_desc" items (text "title_asc") is_feed_sort_by)
  read_sort last_fetched items =
      ap sort_of
        (write-text feed_sort_by_key "last_fetched" items (text "title_asc") is_feed_sort_by)
  read_sort next_fetch items =
      ap sort_of (write-text feed_sort_by_key "next_fetch" items (text "title_asc") is_feed_sort_by)

  read_tag :
      (choice : TagChoice) (items : Dict String)
      → choice_of (
          get_storage_value stringify parse feed_tag_filter_key undefined is_tag_filter
            (write feed_tag_filter_key (tag_value choice) (working items)))
        ≡ choice
  unfolding is_tag_filter set_storage_value get_storage_value
  read_tag any_tag items = rw (get-delete feed_tag_filter_key feed_tag_filter_key items) refl
  read_tag untagged items =
      rw (get-set feed_tag_filter_key feed_tag_filter_key (stringify null) items, json.null_back)
        refl
  read_tag (tagged id) items =
      ap choice_of (write-text feed_tag_filter_key id items undefined is_tag_filter)

  sorted : FeedSortOption → Dict String → Dict String
  sorted sort_by items = set feed_sort_by_key (stringify (sort_value sort_by)) items

  write-sort :
      (sort_by : FeedSortOption) (items : Dict String)
      → write feed_sort_by_key (sort_value sort_by) (working items) ≡ working (sorted sort_by items)
  unfolding sorted set_storage_value
  write-sort title_asc items = refl
  write-sort title_desc items = refl
  write-sort last_fetched items = refl
  write-sort next_fetch items = refl

  abbrev saved_sort : Storage → FeedSortOption
  saved_sort s =
      sort_of
        (get_storage_value stringify parse feed_sort_by_key (text "title_asc") is_feed_sort_by s)

  abbrev saved_tag : Storage → TagChoice
  saved_tag s =
      choice_of (get_storage_value stringify parse feed_tag_filter_key undefined is_tag_filter s)

  sort_after_tag :
      (sort_by : FeedSortOption) (choice : TagChoice) (items : Dict String)
      → saved_sort (
          write feed_tag_filter_key
            (tag_value choice)
            (write feed_sort_by_key (sort_value sort_by) (working items)))
        ≡ sort_by
  sort_after_tag sort_by choice items =
      ap (λ (s : Storage). saved_sort (write feed_tag_filter_key (tag_value choice) s))
        (write-sort sort_by items)
      ∙ ap sort_of (
          write-apart feed_tag_filter_key feed_sort_by_key (tag_value choice) (sorted sort_by items)
            refl (text "title_asc") is_feed_sort_by)
      ∙ ap saved_sort (sym (write-sort sort_by items))
      ∙ read_sort sort_by items

  tag_after_sort :
      (sort_by : FeedSortOption) (choice : TagChoice) (items : Dict String)
      → saved_tag (
          write feed_tag_filter_key
            (tag_value choice)
            (write feed_sort_by_key (sort_value sort_by) (working items)))
        ≡ choice
  tag_after_sort sort_by choice items =
      ap (λ (s : Storage). saved_tag (write feed_tag_filter_key (tag_value choice) s))
        (write-sort sort_by items)
      ∙ read_tag choice (sorted sort_by items)

  -- A page that is opened after the effects have run, on a storage that can be written and read,
  -- begins with the settings that the last one had.
  pub create_feed_store-persist :
      (state : FeedStoreState) (items : Dict String)
      → create_feed_store stringify parse (
          persist_tag_filter stringify parse state
            (persist_sort_by stringify parse state (working items)))
        ≡ state
  unfolding create_feed_store persist_tag_filter persist_sort_by
  create_feed_store-persist state items =
      ap₂ (λ (a : FeedSortOption) (b : TagChoice). record { sort_by = a; selected_tag_id = b })
        (sort_after_tag state.sort_by state.selected_tag_id items)
        (tag_after_sort state.sort_by state.selected_tag_id items)

-- A storage that cannot be read gives the default settings.
create_feed_store-unreadable :
    (stringify : Value → String) (parse : String → Option Value) (s : Storage)
    → s.readable ≡ false
    → create_feed_store stringify parse s
      ≡ record { sort_by = title_asc; selected_tag_id = any_tag }
unfolding create_feed_store get_storage_value
create_feed_store-unreadable stringify parse s h = rw h refl
