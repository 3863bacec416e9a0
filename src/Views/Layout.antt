-- ===== src/Views/Layout.antt =====
-- The layout of the video in frontend/client/src/components/VideoChat.tsx: its modes with what the
-- browser stores of them.
use pairline.Base.{
  Text, lit, text_eq, List, [], ◌∷◌, Option, some, Bool, true, false, not, if◌then◌else◌, if-holds,
  ◌≡◌, refl,
}
use pairline.Chat.{text_is}

pub data VideoLayout : Type 0 where
  pip stacked : VideoLayout

pub data StackedVideoRatio : Type 0 where
  one_to_one four_to_three sixteen_to_nine : StackedVideoRatio

pub data PipSize : Type 0 where
  small medium large : PipSize

abbrev layout_key : VideoLayout → Text
layout_key pip = lit "pip"
layout_key stacked = lit "stacked"

abbrev ratio_key : StackedVideoRatio → Text
ratio_key one_to_one = lit "1:1"
ratio_key four_to_three = lit "4:3"
ratio_key sixteen_to_nine = lit "16:9"

abbrev size_key : PipSize → Text
size_key small = lit "S"
size_key medium = lit "M"
size_key large = lit "L"

-- What `localStorage` has under the three keys.
pub record Stored : Type 0 where
  pub video_layout : Option Text
  pub stacked_video_ratio : Option Text
  pub pip_size : Option Text

-- The states as they start: a ratio or size that is not one of the list is not taken. The mode is
-- taken unchecked, and the source assumes one of the two that it writes.
unfoldable pub initial_layout : Option Text → VideoLayout
initial_layout saved = if text_is saved (lit "stacked") then stacked else pip

unfoldable pub initial_ratio : Option Text → StackedVideoRatio
initial_ratio saved =
    if text_is saved (lit "1:1")
    then one_to_one
    else if text_is saved (lit "16:9")
    then sixteen_to_nine
    else four_to_three

unfoldable pub initial_size : Option Text → PipSize
initial_size saved =
    if text_is saved (lit "S") then small else if text_is saved (lit "L") then large else medium

pub record Layout : Type 0 where
  pub video_layout : VideoLayout
  pub stacked_video_ratio : StackedVideoRatio
  pub pip_size : PipSize
  pub is_desktop_viewport : Bool
  pub pip_swapped : Bool
  pub is_pip_swap_transition_disabled : Bool
  pub swap_timer : Bool
  pub pip_drag_has_moved : Bool
  pub stored : Stored

unfoldable pub mount : Bool → Stored → Layout
mount desktop s = record {
  video_layout = initial_layout s.video_layout;
  stacked_video_ratio = initial_ratio s.stacked_video_ratio;
  pip_size = initial_size s.pip_size;
  is_desktop_viewport = desktop;
  pip_swapped = false;
  is_pip_swap_transition_disabled = false;
  swap_timer = false;
  pip_drag_has_moved = false;
  stored = s;
}

abbrev effective_video_layout : Layout → VideoLayout
effective_video_layout c = if c.is_desktop_viewport then c.video_layout else pip

abbrev other_layout : VideoLayout → VideoLayout
other_layout pip = stacked
other_layout stacked = pip

-- The next of the list, and behind the last the first.
abbrev next_ratio : StackedVideoRatio → StackedVideoRatio
next_ratio one_to_one = four_to_three
next_ratio four_to_three = sixteen_to_nine
next_ratio sixteen_to_nine = one_to_one

abbrev next_size : PipSize → PipSize
next_size small = medium
next_size medium = large
next_size large = small

unfoldable pub toggle_video_layout : Layout → Layout
toggle_video_layout c =
    let next = other_layout c.video_layout in
    record c {
      video_layout = next;
      stored = record c.stored { video_layout = some (layout_key next) };
    }

unfoldable pub cycle_stacked_video_ratio : Layout → Layout
cycle_stacked_video_ratio c =
    let next = next_ratio c.stacked_video_ratio in
    record c {
      stacked_video_ratio = next;
      stored = record c.stored { stacked_video_ratio = some (ratio_key next) };
    }

unfoldable pub cycle_pip_size : Layout → Layout
cycle_pip_size c =
    let next = next_size c.pip_size in
    record c { pip_size = next; stored = record c.stored { pip_size = some (size_key next) } }

abbrev is_pip : VideoLayout → Bool
is_pip pip = true
is_pip stacked = false

-- A click on the picture that was not the end of a drag.
unfoldable pub toggle_pip : Layout → Layout
toggle_pip c =
    if is_pip (effective_video_layout c)
    then record c {
      is_pip_swap_transition_disabled = true;
      pip_swapped = not c.pip_swapped;
      swap_timer = true;
    }
    else c

unfoldable pub handle_pip_click : Layout → Layout
handle_pip_click c = if not c.pip_drag_has_moved then toggle_pip c else c

unfoldable pub swap_timer_fired : Layout → Layout
swap_timer_fired c =
    if c.swap_timer
    then record c { is_pip_swap_transition_disabled = false; swap_timer = false }
    else c

unfoldable pub update_viewport_mode : Bool → Layout → Layout
update_viewport_mode desktop c = record c { is_desktop_viewport = desktop }

pub data Change : Type 0 where
  toggles cycles_ratio cycles_size clicks swap_timer_fires : Change
  resizes : Bool → Change

unfoldable pub change : Change → Layout → Layout
change Change.toggles = toggle_video_layout
change Change.cycles_ratio = cycle_stacked_video_ratio
change Change.cycles_size = cycle_pip_size
change Change.clicks = handle_pip_click
change Change.swap_timer_fires = swap_timer_fired
change (Change.resizes desktop) = update_viewport_mode desktop

unfoldable pub change_all : List Change → Layout → Layout
change_all [] c = c
change_all (x ∷ xs) c = change_all xs (change x c)

-- What the browser stores gives the layout back.
abbrev pub IsRestored : Layout → Type 0
IsRestored c =
    (initial_layout c.stored.video_layout ≡ c.video_layout)
    × (initial_ratio c.stored.stacked_video_ratio ≡ c.stacked_video_ratio)
    × (initial_size c.stored.pip_size ≡ c.pip_size)

layout_restored : (l : VideoLayout) → initial_layout (some (layout_key l)) ≡ l
unfolding initial_layout text_eq
layout_restored pip = refl
layout_restored stacked = refl

ratio_restored : (r : StackedVideoRatio) → initial_ratio (some (ratio_key r)) ≡ r
unfolding initial_ratio text_eq
ratio_restored one_to_one = refl
ratio_restored four_to_three = refl
ratio_restored sixteen_to_nine = refl

size_restored : (s : PipSize) → initial_size (some (size_key s)) ≡ s
unfolding initial_size text_eq
size_restored small = refl
size_restored medium = refl
size_restored large = refl

change-IsRestored : (x : Change) (c : Layout) → IsRestored c → IsRestored (change x c)
unfolding change toggle_video_layout cycle_stacked_video_ratio cycle_pip_size handle_pip_click
    toggle_pip swap_timer_fired update_viewport_mode
change-IsRestored Change.toggles c (a, b, d) = (layout_restored (other_layout c.video_layout), b, d)
change-IsRestored Change.cycles_ratio c (a, b, d) =
    (a, ratio_restored (next_ratio c.stacked_video_ratio), d)
change-IsRestored Change.cycles_size c (a, b, d) = (a, b, size_restored (next_size c.pip_size))
change-IsRestored Change.clicks c h =
    if-holds IsRestored (not c.pip_drag_has_moved)
      (if-holds IsRestored (is_pip (effective_video_layout c)) h h) h
change-IsRestored Change.swap_timer_fires c h = if-holds IsRestored c.swap_timer h h
change-IsRestored (Change.resizes desktop) c h = h

-- A view that is mounted again, with what the last one has stored, has the layout of the last one.
pub change_all-IsRestored :
    (xs : List Change) (c : Layout) → IsRestored c → IsRestored (change_all xs c)
unfolding change_all
change_all-IsRestored [] c h = h
change_all-IsRestored (x ∷ xs) c h = change_all-IsRestored xs (change x c) (change-IsRestored x c h)
