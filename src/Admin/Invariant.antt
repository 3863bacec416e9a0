-- ===== src/Admin/Invariant.antt =====
-- The invariants of the admin panel, frontend/admin/src/components/AdminPanelRuntime.tsx: the session and
-- what the browser remembers of it, the selection, and the rights behind the requests.
use pairline.Base.{
  Text, lit, text_eq, text_eq_iff, List, [], ◌∷◌, ◌++◌, Option, some, is_some, Bool, true, not, ◌≡◌,
  refl, sym, arith, keep, In, in-keep, in-append, has, text_keys, ◌⊎◌, inl, inr, ◌↔◌, Bool-cases,
}
use mathlib.Core.Path.{subst}
use pairline.Admin.{Panel, Request}
use pairline.Admin.Types.{AdminRole}
use pairline.Admin.Session.{Server}
use pairline.Admin.Reviewing.{add_id, delete_id}
use pairline.Admin.Banning.{Clock}
use pairline.Admin.Events.{Event, step, run}
use pairline.Admin.Keeping.{Core, core, is_allowed, pending_ids, Keeps}
use pairline.Admin.Kept.Steps.{step-kept}

-- The panel is signed in exactly when it has a role, and then the browser remembers it.
abbrev pub IsRemembered : Core → Type 0
IsRemembered c =
    (c.is_authenticated ≡ is_some c.role)
    × ((r : AdminRole)
        → c.role ≡ some r
        → (c.admin_auth ≡ some (lit "true")) × (c.admin_role ≡ some r))

Keeps-IsRemembered : (role : Option AdminRole) → Keeps role IsRemembered
Keeps-IsRemembered role = record {
  sent = λ c r ok h. h;
  signed_in = λ c r h. (refl, λ s e. (refl, e));
  signed_out = λ c h. (refl, λ s e. absurd (ground arith));
  loaded = λ c rs h. h;
  emptied = λ c h. h;
  deselected = λ c h. h;
  deleted = λ c id h. h;
  added = λ c id i h. h;
}

-- What is selected is pending.
abbrev pub IsSelectable : Core → Type 0
IsSelectable c = (id : Text) → has c.selected id ≡ true → has (pending_ids c.reports) id ≡ true

has-in : (ids : List Text) (id : Text) → (has ids id ≡ true) ↔ In id ids
unfolding has
has-in [] id = ground arith
has-in (x ∷ xs) id = ground (arith, has-in xs id, text_eq_iff x id)

has-keep :
    (p : Text → Bool) (ids : List Text) (id : Text)
    → has (keep p ids) id ≡ true
    → (has ids id ≡ true) × (p id ≡ true)
has-keep p ids id h =
    let both = (in-keep p ids id).0 ((has-in (keep p ids) id).0 h) in
    ((has-in ids id).1 both.0, both.1)

has-add_id :
    (id : Text) (ids : List Text) (x : Text)
    → has (add_id id ids) x ≡ true
    → (has ids x ≡ true) ⊎ (id ≡ x)
unfolding add_id
has-add_id id ids x h = elim (Bool-cases (has ids id)) [
  | inl old ↦ inl (ground arith)
  | inr new ↦
      let longer : has (ids ++ (id ∷ [])) x ≡ true = ground arith in
      elim ((in-append ids (id ∷ []) x).0 ((has-in (ids ++ (id ∷ [])) x).0 longer)) [
        | inl i ↦ inl ((has-in ids x).1 i)
        | inr i ↦ elim i [ inl e ↦ inr (sym e) | inr i ↦ elim i [ ] ]
      ]
]

Keeps-IsSelectable : (role : Option AdminRole) → Keeps role IsSelectable
unfolding delete_id has
Keeps-IsSelectable role = record {
  sent = λ c r ok h. h;
  signed_in = λ c r h. h;
  signed_out = λ c h. h;
  loaded = λ c rs h id i. (has-keep (has (pending_ids rs)) c.selected id i).1;
  emptied = λ c h id i. i;
  deselected = λ c h id i. absurd (ground arith);
  deleted = λ c id h x i. h x (has-keep (λ y. not (text_eq y id)) c.selected x i).0;
  added = λ c id i h x j. elim (has-add_id id c.selected x j) [
    | inl old ↦ h x old
    | inr e ↦ subst (λ y. has (pending_ids c.reports) y ≡ true) e i
  ];
}

-- The requests beyond the old ones are allowed to a role.
abbrev pub AreAllowed : Option AdminRole → List Request → Core → Type 0
AreAllowed role old c = (r : Request) → In r c.requests → In r old ⊎ (is_allowed role r.call ≡ true)

Keeps-AreAllowed : (role : Option AdminRole) (old : List Request) → Keeps role (AreAllowed role old)
Keeps-AreAllowed role old = record {
  sent = λ c r ok h s i. elim i [
    | inl e ↦ inr (subst (λ t. is_allowed role t.call ≡ true) (sym e) ok)
    | inr j ↦ h s j
  ];
  signed_in = λ c r h. h;
  signed_out = λ c h. h;
  loaded = λ c rs h. h;
  emptied = λ c h. h;
  deselected = λ c h. h;
  deleted = λ c id h. h;
  added = λ c id i h. h;
}

module _ (server : Server) (from_now : Clock) where
  run-kept :
      (J : Core → Type 0) (k : (role : Option AdminRole) → Keeps role J) (es : List Event)
      (p : Panel)
      → J (core p)
      → J (core (run server from_now es p))
  unfolding run
  run-kept J k [] p h = h
  run-kept J k (e ∷ es) p h =
      run-kept J k es (step server from_now p e p)
        (step-kept server from_now p.role J (k p.role) p refl e p refl h)

  -- Whatever the server answers and whatever happens, the panel is signed in exactly when it has a
  -- role, and the browser's storage then says so and names that role, if this holds at the start.
  pub run-IsRemembered :
      (es : List Event) (p : Panel)
      → IsRemembered (core p)
      → IsRemembered (core (run server from_now es p))
  run-IsRemembered = run-kept IsRemembered Keeps-IsRemembered

  -- Whatever the server answers and whatever happens, each selected report is one of the loaded
  -- reports and is pending, if this holds at the start.
  pub run-IsSelectable :
      (es : List Event) (p : Panel)
      → IsSelectable (core p)
      → IsSelectable (core (run server from_now es p))
  run-IsSelectable = run-kept IsSelectable Keeps-IsSelectable

  -- No event sends a request that the role of its render does not allow, whatever has become of the
  -- session since that render, as long as the render shows the loaded reports.
  pub step-AreAllowed :
      (view : Panel) (e : Event) (p : Panel)
      → view.reports ≡ p.reports
      → AreAllowed view.role p.requests (core (step server from_now view e p))
  step-AreAllowed view e p shown =
      step-kept server from_now view.role (AreAllowed view.role p.requests)
        (Keeps-AreAllowed view.role p.requests) view refl e p shown (λ r i. inl i)
