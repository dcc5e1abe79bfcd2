-- ===== src/Tests/Swipes.antt =====
-- Gestures at concrete events.
use feed_reader.Common.{ℕ, ◌≡◌, refl, true, false, some}
use feed_reader.Common.Int.{pos}
use feed_reader.Swipe.{
  Options, Swipe, Touch, Event, start, move_to, end, cancel, swipe_right, horizontal, init, handle,
  run,
}
use feed_reader.Swipe.Gestures.{IsAtRest, Exceeds, handle-Exceeds}

abbrev options : Options
options = record {
  threshold = pos 50;
  on_swipe_left = false;
  on_swipe_right = true;
  on_swipe_up = false;
  on_swipe_down = false;
  disabled = false;
}

abbrev touch : ℕ → Touch
touch x = record {
  touches = 1;
  client_x = pos x;
  client_y = pos 0;
  at_left = true;
  at_right = true;
  at_top = true;
  at_bottom = true;
}

abbrev pulled : Swipe
pulled = record init {
  x = pos 60;
  is_swiping_signal = true;
  is_swiping = true;
  direction = some horizontal;
}

swipes_right : (handle options end pulled).1 ≡ some swipe_right
unfolding handle feed_reader.Swipe.touchend
swipes_right = refl

handle-Exceeds_example :
    (end ≡ end)
    × (pulled.is_swiping ≡ true)
    × (pulled.is_cancelled ≡ false)
    × Exceeds options pulled swipe_right
    × IsAtRest (handle options end pulled).0
handle-Exceeds_example = handle-Exceeds options end pulled swipe_right swipes_right
