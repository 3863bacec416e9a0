-- ===== src/Views/Tests.antt =====
-- Runs and instances of the theorems for the views of frontend/client/src/components.
use pairline.Base.{lit, List, [], ◌∷◌, none, some, true, false, ◌≡◌, refl, trim, text_keys}
use pairline.Chat.{system_message, own_message}
use pairline.Views.Typing
use pairline.Views.Typing.{ChatInput, fire_all, says_typing, fire_all-run_quiet}
use pairline.Views.Starting
use pairline.Views.Starting.{View, Key, add_tag, cleaned_tag, first_units}
use pairline.Views.Starting.Tags.{AreTags, tags_bounded}
use pairline.Views.Starting.Verified.{AreCovered, starts_covered}
use pairline.Views.Reporting.{Props, Dialog, Outcome, submit, IsSettled, submit_lem}
use pairline.Views.Entry.{Landing, Route, run, step, IsGuarded, run-IsGuarded}
use pairline.Views.Entry

-- A text is typed, painted, and sent; the next one is left standing.
abbrev typing : List Typing.Event
typing =
    Typing.Event.changes (lit "hello")
    ∷ (Typing.Event.paints
        ∷ (Typing.Event.submits ∷ (Typing.Event.changes (lit "and") ∷ (Typing.Event.paints ∷ []))))

fire_all-run_quiet_example :
    says_typing (fire_all (Typing.run typing Typing.new).timers (Typing.run typing Typing.new)).told
    ≡ false
unfolding Typing.run Typing.handle_change Typing.run_deferred Typing.run_next Typing.handle_submit
    trim
fire_all-run_quiet_example = fire_all-run_quiet typing refl

-- A search from a fresh view opens the modal, whose token starts it; the next one needs none.
abbrev searching : List Starting.Event
searching =
    Starting.Event.connection_changed true
    ∷ (Starting.Event.starts_search
        ∷ (Starting.Event.confirms (lit "token") ∷ (Starting.Event.starts_search ∷ [])))

starts_covered_example :
    AreCovered (Starting.run_text searching (Starting.new none)).starts
    × AreCovered (Starting.run_video searching (Starting.new none)).starts
starts_covered_example = starts_covered none searching

-- The same tag twice, and one that is taken away again.
abbrev tagging : List Starting.Event
tagging =
    Starting.Event.types (lit "films")
    ∷ (Starting.Event.presses Key.comma
        ∷ (Starting.Event.types (lit " films ")
            ∷ (Starting.Event.blurs ∷ (Starting.Event.removes 0 ∷ []))))

tags_bounded_example :
    AreTags (Starting.run_text tagging (Starting.new none)).interest_tags
    × AreTags (Starting.run_video tagging (Starting.new none)).interest_tags
tags_bounded_example = tags_bounded none tagging

-- A tag of separators and a space is a blank tag.
blank_tag_test : cleaned_tag (lit ", ;") ≡ lit " "
unfolding cleaned_tag trim
blank_tag_test = refl

abbrev props : Props
props = record {
  peer_id = lit "p1";
  messages = system_message 0 0 (lit "Connected") none ∷ (own_message 1 5 (lit "hi") ∷ []);
  reporter_session_id = some (lit "s1");
  reporter_token = some (lit "t1");
}

abbrev dialog : Dialog
dialog = record {
  reason = lit "spam";
  description = lit " again ";
  submitting = false;
  submitted = false;
  timeouts = 0;
  api_statuses = [];
  alerts = [];
  requests = [];
}

submit_lem_example : IsSettled props Outcome.aborted dialog (submit props Outcome.aborted dialog)
submit_lem_example = submit_lem props Outcome.aborted dialog refl

abbrev page : Landing
page = record {
  enable_video_chat = false;
  show_modal = false;
  target_route = none;
  terms_accepted = false;
  rules_accepted = false;
  turnstile_token = none;
  widget_ready = false;
  navigations = [];
}

-- The way into the text chat.
entry_test :
    (run
      (Entry.Event.opens Route.text_route
        ∷ (Entry.Event.accepts_terms true
            ∷ (Entry.Event.accepts_rules true
                ∷ (Entry.Event.succeeds (lit "token") ∷ (Entry.Event.confirms ∷ [])))))
      page).navigations
    ≡ Entry.Navigation.enters Route.text_route (lit "token") ∷ []
unfolding run step Entry.open_modal Entry.handle_confirm Entry.page_confirm
entry_test = refl
