-- ===== src/Admin/Retrying.antt =====
-- How `adminFetch` of frontend/admin/src/components/AdminPanelRuntime.tsx ends: what it asks the
-- server, and what an answer 401 leaves behind.
use pairline.Base.{◌==◌, ◌∷◌, Option, none, some, Bool, true, false, ◌≡◌, ◌⊎◌}
use pairline.Admin.{Panel, Call, Response, Request}
use pairline.Admin.Session.{Server, has_body, build_admin_headers}

-- Nobody is signed in, and the browser remembers nobody.
abbrev pub IsForgotten : Panel → Type 0
IsForgotten p =
    (p.is_authenticated ≡ false)
    × (p.role ≡ none)
    × (p.admin_auth ≡ none)
    × (p.admin_role ≡ none)
    × (p.admin_username ≡ none)
    × (p.admin_csrf ≡ none)

-- An answer that says that nobody is signed in.
abbrev is_unauthorized : Option Response → Bool
is_unauthorized none = false
is_unauthorized (some r) = r.status == 401

-- The request of a call, and that for a new session, with the token that the panel has.
abbrev request_of : Call → Panel → Request
request_of call p = build_admin_headers call (has_body call) p

abbrev refreshing : Panel → Request
refreshing p = build_admin_headers Call.refresh false p

module _ (server : Server) (call : Call) (p : Panel) where
  -- How a call of `adminFetch` ends: with the answer to its one request, with nothing else changed;
  abbrev IsAnswered : Option Response × Panel → Type 0
  IsAnswered (answer, q) =
      (q ≡ record p { requests = request_of call p ∷ p.requests })
      × (answer ≡ server p.requests (request_of call p))
      × (is_unauthorized answer ≡ false)

  -- with the answer 401 after a refresh in vain;
  abbrev IsGivenUp : Option Response × Panel → Type 0
  IsGivenUp (answer, q) =
      (q.requests ≡ refreshing p ∷ request_of call p ∷ p.requests)
      × (answer ≡ server p.requests (request_of call p))
      × (is_unauthorized answer ≡ true)
      × IsForgotten q

  -- or, after a 401 and a refresh, with the answer to the same call with the token that there is then.
  abbrev IsRetried : Option Response × Panel → Type 0
  IsRetried (answer, q) =
      (q.requests ≡ request_of call q ∷ refreshing p ∷ request_of call p ∷ p.requests)
      × (answer ≡ server (refreshing p ∷ request_of call p ∷ p.requests) (request_of call q))
      × (is_unauthorized (server p.requests (request_of call p)) ≡ true)
      × (q.is_authenticated ≡ true)

  abbrev pub Ends : Option Response × Panel → Type 0
  Ends m = IsAnswered m ⊎ (IsGivenUp m ⊎ IsRetried m)

module _ (server : Server) where
  -- A refresh is one request, and one that succeeds signs in.
  abbrev HasRefreshed : Panel → Bool × Panel → Type 0
  HasRefreshed p (done, q) =
      (q.requests ≡ refreshing p ∷ p.requests) × (done ≡ true → q.is_authenticated ≡ true)
