-- ===== src/FeedView/Windows.antt =====
-- The ignore windows shown with a feed.
use feed_reader.Common.{
  suc_nonzero, String, ◌≡◌, refl, ap₂, Bool, ◌&&◌, ◌||◌, List, [], ◌∷◌, arith, ◌==◌, nat_eq,
  string_eq,
}
use feed_reader.Common.Lists.{length, filter, includes, any}
use feed_reader.FeedView.{
  FeedIgnoreWindow, TagIgnoreWindow, direct_window_ids, tag_window_ids, get_ignore_windows_for_feed,
}

-- A link joins the window to the feed, or to one of its tags.
abbrev pub applies :
    List FeedIgnoreWindow → List TagIgnoreWindow → String → List String → String → Bool
applies feed_links tag_links id tag_ids window =
    any feed_links (λ l. (l.feed_id == id) && (l.ignore_window_id == window))
    || any tag_links (λ l. includes tag_ids l.tag_id && (l.ignore_window_id == window))

direct_window_ids-any :
    (links : List FeedIgnoreWindow) (id window : String)
    → includes (direct_window_ids id links) window
      ≡ any links (λ l. (l.feed_id == id) && (l.ignore_window_id == window))
unfolding direct_window_ids
direct_window_ids-any [] id window = refl
direct_window_ids-any (l ∷ links) id window = ground (arith, direct_window_ids-any links id window)

tag_window_ids-any :
    (links : List TagIgnoreWindow) (tag_ids : List String) (window : String)
    → includes (tag_window_ids tag_ids links) window
      ≡ any links (λ l. includes tag_ids l.tag_id && (l.ignore_window_id == window))
unfolding tag_window_ids
tag_window_ids-any [] tag_ids window = refl
tag_window_ids-any (l ∷ links) tag_ids window =
    ground (arith, tag_window_ids-any links tag_ids window)

filter-eq :
    {W : Type 0} (p q : W → Bool) (ws : List W) → ((w : W) → p w ≡ q w) → filter p ws ≡ filter q ws
filter-eq p q [] h = refl
filter-eq p q (w ∷ ws) h = ground (arith, h w, filter-eq p q ws h)

module _ {W : Type 0} (window_id : W → String) where
  -- The windows shown with a feed are those that a link joins to the feed itself or to one of its
  -- tags, each once for each time it is in the list of windows, in that order.
  pub get_ignore_windows_for_feed_lem :
      (windows : List W) (feed_links : List FeedIgnoreWindow) (tag_links : List TagIgnoreWindow)
      (id : String) (tag_ids : List String)
      → get_ignore_windows_for_feed window_id windows feed_links tag_links id tag_ids
        ≡ filter (λ w. applies feed_links tag_links id tag_ids (window_id w)) windows
  unfolding get_ignore_windows_for_feed
  get_ignore_windows_for_feed_lem [] feed_links tag_links id tag_ids = refl
  get_ignore_windows_for_feed_lem (w ∷ windows) feed_links tag_links id tag_ids =
      rw (suc_nonzero (length windows)) (
        filter-eq _ (λ v. applies feed_links tag_links id tag_ids (window_id v)) (w ∷ windows)
          (λ v.
            ap₂ (λ a b. a || b) (direct_window_ids-any feed_links id (window_id v))
              (tag_window_ids-any tag_links tag_ids (window_id v))))
