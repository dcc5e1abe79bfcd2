-- ===== src/Tests/Forms.antt =====
-- The forms at concrete inputs.
use feed_reader.Common.{
  ◌≡◌, ◌≤◌, refl, true, false, Option, none, some, List, [], ◌∷◌, string_eq, nat_eq, list_eq,
}
use feed_reader.Common.Int.{ℤ, pos, negsuc}
use feed_reader.Common.Lists.{length, includes, filter, all}
use feed_reader.Common.Text.{Text, codes}
use feed_reader.Csv.Rules.{ParsedBlockRule}
use feed_reader.RuleForm.{BulkState, valid_rules, take_text}
use feed_reader.RuleForm.Keys.{valid_rule, valid_rules-bar}
use feed_reader.RuleForm.Registering.{has_new_keys, has_rule_of, valid_rules_lem}
use feed_reader.IgnoreWindow.Active.{Part, get_local_time_in_timezone, is_ignore_window_active}
use feed_reader.WindowForm.{FormState, form_data}
use feed_reader.WindowForm.Saving.{window_of, is_ignore_window_active-form_data}
use feed_reader.Queries.Counts.{Tag}
use feed_reader.FeedForm.{throws, tags_sorted, handle_submit}
use feed_reader.FeedForm.Adding.{filled_form, Leaves, handle_submit_lem}
use feed_reader.LinkForm.{no_links, add, remove, clicks, IsApart, clicks-IsApart}
use feed_reader.Dates.Relative.{relative_time, IsFloor, Shows, Outgrown, relative_time_lem}

-- Two rows of the same rule, and one that is not valid.
abbrev typed : BulkState
typed = take_text (codes "user,bob\nuser,bob\nnope,x")

valid_rules_example :
    (all (valid_rules typed) (λ r. r.is_valid) ≡ true)
    × (has_new_keys [] (valid_rules typed) ≡ true)
    × (has_rule_of (codes "user|bob|") (valid_rules typed)
        ≡ has_rule_of
            (codes "user|bob|")
            (filter (λ (r : ParsedBlockRule). r.is_valid) typed.parsed_rules))
    × (length (valid_rules typed) ≤ length typed.parsed_rules)
valid_rules_example = valid_rules_lem typed (codes "user|bob|")

abbrev barred : BulkState
barred = record {
  registration_result = none;
  csv_text = [];
  parsed_rules =
      valid_rule (codes "user") (codes "a|b") (some (codes "c"))
      ∷ valid_rule (codes "user") (codes "a") (some (codes "b|c"))
      ∷ [];
  error = none;
}

valid_rules-bar_example :
    valid_rules barred ≡ valid_rule (codes "user") (codes "a|b") (some (codes "c")) ∷ []
valid_rules-bar_example =
    valid_rules-bar barred (codes "user") (codes "a") (codes "b") (codes "c") refl

abbrev all_day : FormState
all_day = record {
  name = codes "Weekend";
  is_all_day = true;
  start_time = codes "00:00";
  end_time = codes "24:00";
  previous_custom_times = record { start_time = codes "23:00"; end_time = codes "07:00" };
  days_of_week = 0 ∷ 6 ∷ [];
  timezone = codes "UTC";
  error_message = none;
}

abbrev no_zone : Text → ℤ → Option (List Part)
no_zone zone date = none

is_ignore_window_active-form_data_example :
    is_ignore_window_active no_zone (window_of (form_data all_day)) (pos 0)
    ≡ includes (0 ∷ 6 ∷ []) (get_local_time_in_timezone no_zone (pos 0) (codes "UTC")).weekday
is_ignore_window_active-form_data_example =
    is_ignore_window_active-form_data no_zone all_day (pos 0) refl

clicks-IsApart_example : IsApart (clicks (add "a" ∷ remove "a" ∷ add "b" ∷ []) no_links)
clicks-IsApart_example = clicks-IsApart (add "a" ∷ remove "a" ∷ add "b" ∷ [])

-- An hour and a second ago.
relative_time_example :
    IsFloor (negsuc 3600) (relative_time (negsuc 3600))
    × Shows (relative_time (negsuc 3600)).unit (negsuc 3600)
    × Outgrown (relative_time (negsuc 3600)).unit (negsuc 3600)
relative_time_example = relative_time_lem (negsuc 3600)

abbrev news : Tag
news = record { id = "n"; name = "News"; unread_count = none; feed_count = some 1 }

abbrev tech : Tag
tech = record { id = "t"; name = "Tech"; unread_count = none; feed_count = some 2 }

-- One tag pressed twice, the other once and again during the call, which throws.
handle_submit_example :
    let (request, after) =
      handle_submit
        (tags_sorted (news ∷ tech ∷ []) [])
        (throws none)
        ("n" ∷ [])
        (filled_form "u" ("t" ∷ "n" ∷ "t" ∷ [])) in
    (request.url ≡ "u")
    × (request.tag_ids ≡ "n" ∷ [])
    × (after.is_pending ≡ false)
    × Leaves (throws none) "u" ("t" ∷ "n" ∷ "t" ∷ "n" ∷ []) after
unfolding tags_sorted
handle_submit_example =
    handle_submit_lem (news ∷ tech ∷ []) [] "u" ("t" ∷ "n" ∷ "t" ∷ []) ("n" ∷ []) (throws none)
