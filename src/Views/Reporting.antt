-- ===== src/Views/Reporting.antt =====
-- The dialog of a report, frontend/client/src/components/ReportDialog.tsx. The submission is one
-- definition for each side of its wait for the server.
use pairline.Base.{
  ℕ, suc, ◌-◌, Text, lit, truthy, trim, List, [], ◌∷◌, Option, or_else, Bool, true, false, not,
  ◌&&◌, ◌||◌, if◌then◌else◌, keep, if-holds_cases, ◌≡◌, refl, arith,
}
use pairline.Message.{ChatMessage, Sender}
use pairline.NetworkHealth.{ServiceStatus, ok, degraded}

-- The properties that the chat hands over.
pub record Props : Type 0 where
  pub peer_id : Text
  pub messages : List ChatMessage
  pub reporter_session_id : Option Text
  pub reporter_token : Option Text

pub record ReportRequest : Type 0 where
  pub reporter_session_id : Text
  pub reporter_token : Text
  pub reported_session_id : Text
  pub reason : Text
  pub description : Text
  pub chat_log : List ChatMessage

-- The calls of `setApiStatus`, the alerts and the requests are newest first; `timeouts` counts the
-- timers that are set.
pub record Dialog : Type 0 where
  pub reason : Text
  pub description : Text
  pub submitting : Bool
  pub submitted : Bool
  pub timeouts : ℕ
  pub api_statuses : List ServiceStatus
  pub alerts : List Text
  pub requests : List ReportRequest

-- How the call of `fetch` ends: an answer that is ok or not, the abort by the timer, a `TypeError`,
-- another error.
pub data Outcome : Type 0 where
  answered : Bool → Outcome
  aborted type_error other_error : Outcome

abbrev is_chat : ChatMessage → Bool
is_chat m = elim m.sender [ Sender.system ↦ false | _ ↦ true ]

unfoldable pub chat_messages : Props → List ChatMessage
chat_messages props = keep is_chat props.messages

abbrev alert : Text → Dialog → Dialog
alert text d = record d { alerts = text ∷ d.alerts }

abbrev pub report_of : Props → Dialog → ReportRequest
report_of props d = record {
  reporter_session_id = or_else props.reporter_session_id [];
  reporter_token = or_else props.reporter_token [];
  reported_session_id = props.peer_id;
  reason = d.reason;
  description = trim d.description;
  chat_log = chat_messages props;
}

abbrev is_valid : Props → Bool
is_valid props =
    truthy (or_else props.reporter_session_id []) && truthy (or_else props.reporter_token [])

-- `handleSubmit` until the call of `fetch`.
unfoldable pub handle_submit : Props → Dialog → Dialog
handle_submit props d =
    if not (truthy props.peer_id)
    then alert (lit "Missing reported session. Please start a new chat and try again.") d
    else if not (is_valid props)
    then alert (lit "Your chat session is no longer valid. Please start a new chat and try again.")
        d
    else record d {
      submitting = true;
      timeouts = suc d.timeouts;
      requests = report_of props d ∷ d.requests;
    }

abbrev set_api_status : ServiceStatus → Dialog → Dialog
set_api_status s d = record d { api_statuses = s ∷ d.api_statuses }

unfoldable pub settle : Outcome → Dialog → Dialog
settle (answered true) d = record (set_api_status ok d) { submitted = true }
settle (answered false) d = alert (lit "Failed to submit report") d
settle aborted d = alert (lit "Report request timed out. Please try again.") d
settle type_error d = alert (lit "Failed to submit report") (set_api_status degraded d)
settle other_error d = alert (lit "Failed to submit report") d

-- `handleSubmit` from the answer on, with its `finally`.
unfoldable pub finish_submit : Outcome → Dialog → Dialog
finish_submit o d = record (settle o d) { timeouts = d.timeouts - 1; submitting = false }

-- The cleanup of the effect.
unfoldable pub unmount : Dialog → Dialog
unmount d = set_api_status ok d

unfoldable pub submit : Props → Outcome → Dialog → Dialog
submit props o d = let e = handle_submit props d in if e.submitting then finish_submit o e else e

abbrev is_ok : Outcome → Bool
is_ok (answered b) = b
is_ok _ = false

settle-submitted : (o : Outcome) (d : Dialog) → (settle o d).submitted ≡ (is_ok o || d.submitted)
unfolding settle
settle-submitted (answered true) d = refl
settle-submitted (answered false) d = refl
settle-submitted aborted d = refl
settle-submitted type_error d = refl
settle-submitted other_error d = refl

settle-quiet : (o : Outcome) (d : Dialog) → (settle o d).requests ≡ d.requests
unfolding settle
settle-quiet (answered true) d = refl
settle-quiet (answered false) d = refl
settle-quiet aborted d = refl
settle-quiet type_error d = refl
settle-quiet other_error d = refl

-- Whether a report may be sent at all.
abbrev can_report : Props → Bool
can_report props = truthy props.peer_id && is_valid props

-- What a submission promises of its result.
abbrev pub IsSettled : Props → Outcome → Dialog → Dialog → Type 0
IsSettled props o d r =
    (r.submitting ≡ false)
    × (r.timeouts ≡ d.timeouts)
    × (r.requests ≡ (if can_report props then report_of props d ∷ d.requests else d.requests))
    × (r.submitted ≡ (can_report props && is_ok o || d.submitted))

abbrev sending : Props → Dialog → Dialog
sending props d = record d {
  submitting = true;
  timeouts = suc d.timeouts;
  requests = report_of props d ∷ d.requests;
}

abbrev continue : Outcome → Dialog → Dialog
continue o e = if e.submitting then finish_submit o e else e

sent-IsSettled :
    (props : Props) (o : Outcome) (d : Dialog)
    → can_report props ≡ true
    → IsSettled props o d (finish_submit o (sending props d))
unfolding finish_submit
sent-IsSettled props o d h =
    rw h (refl, omega arith, settle-quiet o (sending props d), settle-submitted o (sending props d))

refused-IsSettled :
    (props : Props) (o : Outcome) (d : Dialog) (text : Text)
    → d.submitting ≡ false
    → can_report props ≡ false
    → IsSettled props o d (continue o (alert text d))
refused-IsSettled props o d text free h =
    if-holds_cases (IsSettled props o d) d.submitting (λ e. absurd (ground arith))
      (λ e. rw h (free, refl, refl, refl))

-- A submission that ends leaves the dialog free for the next and its timer cleared; it has sent the one
-- report, with the texts and the messages but the system's, exactly when the peer and the session are
-- known, and the report counts as submitted exactly when the server has then accepted it or it was
-- before.
pub submit_lem :
    (props : Props) (o : Outcome) (d : Dialog)
    → d.submitting ≡ false
    → IsSettled props o d (submit props o d)
unfolding submit handle_submit
submit_lem props o d free =
    let P = λ (e : Dialog). IsSettled props o d (continue o e) in
    if-holds_cases P (not (truthy props.peer_id))
      (λ e. refused-IsSettled props o d _ free (ground arith))
      (λ e.
        if-holds_cases P (not (is_valid props))
          (λ f. refused-IsSettled props o d _ free (ground arith))
          (λ f. sent-IsSettled props o d (ground arith)))
