-- ===== src/VideoChat/Caller.antt =====
-- Which of two matched clients makes the offer, in frontend/client/src/hooks/useVideoChat.tsx.
use pairline.Base.{
  ℕ, Text, text_gt, [], ◌∷◌, some, false, not, if-holds_cases, elim-holds_at, ◌≡◌, ◌≢◌, refl, arith,
  sym, ap, ◌∙◌,
}
use pairline.Chat.{present, text_is}
use pairline.VideoChat.{Video}
use pairline.VideoChat.Refusals.Reopening.{text_is_same}
use pairline.VideoChat.Signals.{is_caller_session, start_negotiation_if_needed}

text_gt-not : (s t : Text) → s ≢ t → text_gt t s ≡ not (text_gt s t)
unfolding text_gt
text_gt-not [] [] d = absurd (d refl)
text_gt-not [] (b ∷ t) d = refl
text_gt-not (a ∷ s) [] d = refl
text_gt-not (a ∷ s) (b ∷ t) d =
    let rest : a ≡ b → text_gt t s ≡ not (text_gt s t) =
      λ e. text_gt-not s t (λ f. d (rw (e, f) refl)) in
    ground (arith, rest)

-- A client that is ready to negotiate with its peer.
abbrev pub IsMatched : Text → Text → Video → Type 0
IsMatched session peer c =
    (c.session_id_ref ≡ some session)
    × (c.peer_id_ref ≡ some peer)
    × (c.negotiation_started ≡ false)

start_negotiation_if_needed-started :
    (x : ℕ) (xs peer : Text) (c : Video)
    → IsMatched (x ∷ xs) peer c
    → (start_negotiation_if_needed peer c).negotiation_started ≡ text_gt (x ∷ xs) peer
unfolding start_negotiation_if_needed is_caller_session
start_negotiation_if_needed-started x xs peer c m =
    let P : Video → Type 0 = λ d. d.negotiation_started ≡ text_gt (x ∷ xs) peer in
    elim-holds_at P _ _ (present c.session_id_ref) (x ∷ xs) (ap present m.0) (
      if-holds_cases P c.negotiation_started (λ h. absurd (ground (arith, m.2)))
        (λ h.
          if-holds_cases P (not (text_is c.peer_id_ref peer))
            (λ h1. absurd (text_is_same c.peer_id_ref peer m.1 h1))
            (λ h1.
              if-holds_cases P (not (is_caller_session (x ∷ xs) peer)) (λ h2. m.2 ∙ ground arith)
                (λ h2. ground arith))))

-- Two clients with different sessions are matched with each other and have not begun. When both are
-- told to start, exactly one of them begins the negotiation.
pub one_caller :
    (x y : ℕ) (xs ys : Text) (c d : Video)
    → x ∷ xs ≢ y ∷ ys
    → IsMatched (x ∷ xs) (y ∷ ys) c
    → IsMatched (y ∷ ys) (x ∷ xs) d
    → (start_negotiation_if_needed (x ∷ xs) d).negotiation_started
      ≡ not (start_negotiation_if_needed (y ∷ ys) c).negotiation_started
one_caller x y xs ys c d different m n =
    start_negotiation_if_needed-started y ys (x ∷ xs) d n
    ∙ text_gt-not (x ∷ xs) (y ∷ ys) different
    ∙ ap not (sym (start_negotiation_if_needed-started x xs (y ∷ ys) c m))
