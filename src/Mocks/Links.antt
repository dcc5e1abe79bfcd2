-- ===== src/Mocks/Links.antt =====
-- The links of ignore windows to feeds and to tags, after the handlers that change them.
use feed_reader.Common.{
  String, if◌then◌else◌, ◌≡◌, refl, ◌∙◌, Bool, true, not, ◌&&◌, ◌||◌, Option, List, [], ◌∷◌, arith,
  ◌==◌, ==_iff, string_eq, Bool-cases, inl, inr,
}
use feed_reader.Common.Lists.{filter, any, includes}
use feed_reader.Mocks.Store.{
  list_or_empty, Collection, Db, IgnoreWindowJson, FeedIgnoreWindowJson, TagIgnoreWindowJson,
  create,
}
use feed_reader.Mocks.Collections.{IsCollection}
use feed_reader.Mocks.WindowHandlers.{
  is_feed_link, is_tag_link, feed_link, tag_link, remove_links, add_links, manage_links,
  manage_feed_ignore_windows, manage_tag_ignore_windows, delete_ignore_window,
}

module _ {Link : Type 0} (owner_of : Link → String) (window_of : Link → String) where
  abbrev pub is_link : String → String → Link → Bool
  is_link owner window link = (owner_of link == owner) && (window_of link == window)

  any-create :
      (p : Link → Bool) (links : List Link) (link : Link)
      → any (create link links) p ≡ (any links p || p link)
  any-create p [] link = ground arith
  any-create p (x ∷ links) link = ground (arith, any-create p links link)

  any-remove :
      (o w owner window : String) (links : List Link)
      → any (filter (λ l. not (is_link o w l)) links) (is_link owner window)
        ≡ (any links (is_link owner window) && not ((o == owner) && (w == window)))
  any-remove o w owner window [] = refl
  any-remove o w owner window (x ∷ links) = ground (
    arith,
    any-remove o w owner window links,
    ==_iff (owner_of x) o,
    ==_iff (window_of x) w,
    ==_iff (owner_of x) owner,
    ==_iff (window_of x) window,
    ==_iff o owner,
    ==_iff w window,
  )

  module _ (c : Collection) (laws : IsCollection c) (link : String → String → Link)
      (owner_of_link : (o w : String) → owner_of (link o w) ≡ o)
      (window_of_link : (o w : String) → window_of (link o w) ≡ w) where
    remove_links_lem :
        (o : String) (ids : List String) (links : List Link) (owner window : String)
        → any (remove_links c is_link link o ids links) (is_link owner window)
          ≡ (any links (is_link owner window) && not ((o == owner) && includes ids window))
    unfolding remove_links
    remove_links_lem o [] links owner window = ground arith
    remove_links_lem o (id ∷ ids) links owner window = rw (laws.deletes_many (is_link o id) links) (
        remove_links_lem o ids (filter (λ l. not (is_link o id l)) links) owner window
        ∙ rw (any-remove o id owner window links) (ground arith))

    add_links_lem :
        (o : String) (ids : List String) (links : List Link) (owner window : String)
        → any (add_links c is_link link o ids links) (is_link owner window)
          ≡ (any links (is_link owner window) || ((o == owner) && includes ids window))
    unfolding add_links
    add_links_lem o [] links owner window = ground arith
    add_links_lem o (id ∷ ids) links owner window =
        add_links_lem o ids _ owner window ∙ elim (Bool-cases (any links (is_link o id))) [
          | inl e ↦ rw e (ground (arith, known e))
          | inr e ↦
              rw
                (
                  e,
                  any-create (is_link owner window) links (link o id),
                  owner_of_link o id,
                  window_of_link o id,
                )
                (ground arith)
        ]
      where
        known :
            any links (is_link o id) ≡ true
            → ((o == owner) && (id == window)) ≡ true
            → any links (is_link owner window) ≡ true
        known e h = ground (arith, ==_iff o owner, ==_iff id window)

    -- After `manage`, an owner that is named has the windows that are added and those of its windows
    -- that are not removed; the links of the others stay.
    pub manage_links_lem :
        (add_ids remove_ids owners : List String) (links : List Link) (owner window : String)
        → any (manage_links c is_link link add_ids remove_ids owners links) (is_link owner window)
          ≡ (if includes owners owner
              then includes add_ids window
                || (any links (is_link owner window) && not (includes remove_ids window))
              else any links (is_link owner window))
    unfolding manage_links
    manage_links_lem add_ids remove_ids [] links owner window = refl
    manage_links_lem add_ids remove_ids (o ∷ owners) links owner window =
        manage_links_lem add_ids remove_ids owners _ owner window
        ∙ ground (
          arith,
          add_links_lem o add_ids (remove_links c is_link link o remove_ids links) owner window,
          remove_links_lem o remove_ids links owner window,
        )

module _ (c : Collection) (laws : IsCollection c) where
  -- If the package deletes every match, a feed that the request names has the windows that it adds
  -- and those of its windows that it does not remove; the links of other feeds stay.
  pub manage_feed_ignore_windows_lem :
      (feed_ids add_ids remove_ids : Option (List String)) (db : Db) (feed window : String)
      → any
          (manage_feed_ignore_windows c feed_ids add_ids remove_ids db).feed_ignore_windows
          (is_feed_link feed window)
        ≡ (if includes (list_or_empty feed_ids) feed
            then includes (list_or_empty add_ids) window
              || (any db.feed_ignore_windows (is_feed_link feed window)
                  && not (includes (list_or_empty remove_ids) window))
            else any db.feed_ignore_windows (is_feed_link feed window))
  unfolding manage_feed_ignore_windows
  manage_feed_ignore_windows_lem feed_ids add_ids remove_ids db feed window =
      manage_links_lem (λ (l : FeedIgnoreWindowJson). l.feed_id)
        (λ (l : FeedIgnoreWindowJson). l.ignore_window_id) c laws feed_link (λ o w. refl)
        (λ o w. refl) (list_or_empty add_ids) (list_or_empty remove_ids) (list_or_empty feed_ids)
        db.feed_ignore_windows feed window

  -- The same for the links of tags.
  pub manage_tag_ignore_windows_lem :
      (tag_ids add_ids remove_ids : Option (List String)) (db : Db) (tag window : String)
      → any
          (manage_tag_ignore_windows c tag_ids add_ids remove_ids db).tag_ignore_windows
          (is_tag_link tag window)
        ≡ (if includes (list_or_empty tag_ids) tag
            then includes (list_or_empty add_ids) window
              || (any db.tag_ignore_windows (is_tag_link tag window)
                  && not (includes (list_or_empty remove_ids) window))
            else any db.tag_ignore_windows (is_tag_link tag window))
  unfolding manage_tag_ignore_windows
  manage_tag_ignore_windows_lem tag_ids add_ids remove_ids db tag window =
      manage_links_lem (λ (l : TagIgnoreWindowJson). l.tag_id)
        (λ (l : TagIgnoreWindowJson). l.ignore_window_id) c laws tag_link (λ o w. refl)
        (λ o w. refl) (list_or_empty add_ids) (list_or_empty remove_ids) (list_or_empty tag_ids)
        db.tag_ignore_windows tag window

any-remove_window :
    {Link : Type 0} (window_of : Link → String) (p : Link → Bool) (id window : String)
    (links : List Link)
    → ((l : Link) → p l ≡ true → window_of l ≡ window)
    → any (filter (λ l. not (window_of l == id)) links) p ≡ (any links p && not (window == id))
any-remove_window window_of p id window [] h = refl
any-remove_window window_of p id window (x ∷ links) h = ground (
  arith,
  any-remove_window window_of p id window links h,
  h x,
  ==_iff (window_of x) id,
  ==_iff window id,
)

both : (a b c d : String) → ((a == b) && (c == d)) ≡ true → c ≡ d
both a b c d h = ground (arith, ==_iff a b, ==_iff c d)

module _ (c : Collection) (laws : IsCollection c) where
  -- If the package deletes every match, deleting an ignore window that is there deletes its links to
  -- feeds and to tags, and no other links.
  pub delete_ignore_window_lem :
      (id : String) (db : Db)
      → any db.ignore_windows (λ (w : IgnoreWindowJson). w.id == id) ≡ true
      → (owner window : String)
      → (any (delete_ignore_window c id db).feed_ignore_windows (is_feed_link owner window)
          ≡ (any db.feed_ignore_windows (is_feed_link owner window) && not (window == id)))
        × (any (delete_ignore_window c id db).tag_ignore_windows (is_tag_link owner window)
            ≡ (any db.tag_ignore_windows (is_tag_link owner window) && not (window == id)))
  unfolding delete_ignore_window
  delete_ignore_window_lem id db e owner window = (
    rw
        (
          e,
          laws.deletes_many (λ (w : FeedIgnoreWindowJson). w.ignore_window_id == id)
              db.feed_ignore_windows,
        )
        (any-remove_window (λ (l : FeedIgnoreWindowJson). l.ignore_window_id)
          (is_feed_link owner window) id window db.feed_ignore_windows
          (λ l h. both l.feed_id owner l.ignore_window_id window h)),
    rw
        (
          e,
          laws.deletes_many (λ (w : TagIgnoreWindowJson). w.ignore_window_id == id)
              db.tag_ignore_windows,
        )
        (any-remove_window (λ (l : TagIgnoreWindowJson). l.ignore_window_id)
          (is_tag_link owner window) id window db.tag_ignore_windows
          (λ l h. both l.tag_id owner l.ignore_window_id window h)),
  )
