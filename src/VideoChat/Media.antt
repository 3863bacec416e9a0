-- ===== src/VideoChat/Media.antt =====
-- The media of frontend/client/src/hooks/useVideoChat.tsx: the local stream with its fallback to a drawn
-- one, the transceivers with the tracks that they send, and what the two video elements show. They
-- are kept apart from `Video`, which only knows whether there is a local stream.
use pairline.Base.{
  ℕ, suc, ◌==◌, ◌<◌, Text, lit, List, [], ◌∷◌, Option, none, some, is_some, Bool, true, false, not,
  if◌then◌else◌, keep, ◌≡◌, sym, ap, ◌∙◌, arith,
}

-- A stream, with its track of each kind, of which the browser gives one at most; tracks and streams are
-- numbers. That a track is stopped, and the tracks added to a remote stream, are left out.
pub record Stream : Type 0 where
  pub id : ℕ
  pub audio_track : Option ℕ
  pub video_track : Option ℕ

pub data Direction : Type 0 where
  sendrecv : Direction
  sendonly : Direction
  recvonly : Direction
  inactive : Direction

-- A transceiver, with the track that its sender has.
pub record Transceiver : Type 0 where
  pub direction : Direction
  pub sends : Option ℕ

pub record Media : Type 0 where
  pub local_stream : Option Stream
  pub camera_error : Option Text
  pub has_local_video : Bool
  pub local_source : Option ℕ
  pub has_remote_video : Bool
  pub remote_source : Option ℕ
  pub audio : Option Transceiver
  pub video : Option Transceiver
  pub mock_video_timer : Option ℕ
  pub has_mock_canvas : Bool
  -- The intervals that run, and the next number.
  pub intervals : List ℕ
  pub next : ℕ

-- How the browser answers `getUserMedia`: a stream, a refusal, or no camera, with whether the canvas has
-- a context, and whether the fallback throws.
pub data Camera : Type 0 where
  granted : Option ℕ → Option ℕ → Camera
  denied : Camera
  absent : Bool → Bool → Camera

abbrev blocked_text : Text
blocked_text =
    lit
      "Camera access is blocked. Please click the lock icon in your URL bar to unblock it, if in mobile, check app settings, then refresh."

-- `getLocalStream` until its wait, where there is no stream yet.
unfoldable pub ask_camera : Media → Media
ask_camera m = if is_some m.local_stream then m else record m { camera_error = none }

abbrev show_local : Stream → Media → Media
show_local s m = record m {
  local_stream = some s;
  local_source = if m.has_local_video then some s.id else m.local_source;
  next = suc m.next;
}

abbrev start_drawing : Media → Media
start_drawing m = record m {
  intervals = m.next ∷ m.intervals;
  mock_video_timer = some m.next;
  next = suc m.next;
}

-- `getLocalStream` behind its wait.
unfoldable pub camera_answered : Camera → Media → Media
camera_answered (granted a v) m =
    show_local (record { id = m.next; audio_track = a; video_track = v }) m
camera_answered denied m = record m { camera_error = some blocked_text }
camera_answered (absent has_context throws) m =
    let c : Media = record m { has_mock_canvas = true } in
    let d = if has_context then start_drawing c else c in
    if throws
    then d
    else show_local (record { id = d.next; audio_track = none; video_track = some d.next }) d

abbrev track_of : (Stream → Option ℕ) → Media → Option ℕ
track_of f m = elim m.local_stream [ none ↦ none | some s ↦ f s ]

abbrev replace_track : Option ℕ → Option Transceiver → Option Transceiver
replace_track t none = none
replace_track t (some x) = some (record x { sends = t })

-- `attachLocalTracks`.
unfoldable pub attach_local_tracks : Media → Media
attach_local_tracks m = record m {
  audio = replace_track (track_of (λ s. s.audio_track) m) m.audio;
  video = replace_track (track_of (λ s. s.video_track) m) m.video;
}

-- The caller's two transceivers, with the tracks that there are.
unfoldable pub add_transceivers : Media → Media
add_transceivers m = record m {
  audio = some (record { direction = sendrecv; sends = track_of (λ s. s.audio_track) m });
  video = some (record { direction = sendrecv; sends = track_of (λ s. s.video_track) m });
}

abbrev both_ways : Option Transceiver → Option Transceiver
both_ways none = none
both_ways (some x) = some (record x { direction = sendrecv })

-- The callee's, as the offer has made them, now to send too.
unfoldable pub adopt_transceivers : Option Transceiver → Option Transceiver → Media → Media
adopt_transceivers a v m = record m { audio = both_ways a; video = both_ways v }

-- `ontrack`: the stream of the event, or that of the element, to which a new one is added if it has
-- none.
unfoldable pub show_remote : Option ℕ → Media → Media
show_remote streams m = if not m.has_remote_video then m else elim streams [
  | some s ↦ record m { remote_source = some s }
  | none ↦ elim m.remote_source [
    | some s ↦ m
    | none ↦ record m { remote_source = some m.next; next = suc m.next }
  ]
]

-- What `resetWebRTCTransport` does to the media.
unfoldable pub reset_media : Bool → Media → Media
reset_media keep_local_media m =
    let c : Media = record m {
      audio = none;
      video = none;
      remote_source = if m.has_remote_video then none else m.remote_source;
    } in
    if keep_local_media then c else record c {
      local_stream = none;
      local_source = if c.has_local_video then none else c.local_source;
    }

abbrev without : Option ℕ → List ℕ → List ℕ
without none ts = ts
without (some t) ts = keep (λ u. not (u == t)) ts

-- What `cleanup` does to the media.
unfoldable pub clean_media : Media → Media
clean_media m = reset_media false (record m {
  intervals = without m.mock_video_timer m.intervals;
  mock_video_timer = none;
  has_mock_canvas = false;
})

replace_track-some :
    (t : Option ℕ) (o : Option Transceiver) (x : Transceiver)
    → replace_track t o ≡ some x
    → x.sends ≡ t
replace_track-some t none x h = ground arith
replace_track-some t (some y) x h = sym (ap (λ o. elim o [ none ↦ t | some z ↦ z.sends ]) h)

-- Once the local tracks are attached, each transceiver sends the track that the local stream has.
attached :
    (m : Media) (t : Transceiver)
    → (attach_local_tracks m).video ≡ some t
    → t.sends ≡ track_of (λ s. s.video_track) m
unfolding attach_local_tracks
attached m t h = replace_track-some (track_of (λ s. s.video_track) m) m.video t h

-- Of two intervals only the newer one is cleared.
without-pair : (n t : ℕ) → t < n → without (some n) (n ∷ t ∷ []) ≡ t ∷ []
without-pair n t h = ground arith

-- A drawn stream that a reset takes away keeps its interval, and the next one sets another: the
-- clean-up then clears only the last.
interval_left :
    (m : Media) (t : ℕ)
    → m.mock_video_timer ≡ some t
    → m.intervals ≡ t ∷ []
    → t < m.next
    → (clean_media
        (camera_answered (absent true false) (ask_camera (reset_media false m)))).intervals
      ≡ t ∷ []
unfolding clean_media reset_media camera_answered ask_camera
interval_left m t timer running old =
    ap (λ ts. without (some m.next) (m.next ∷ ts)) running ∙ without-pair m.next t old
