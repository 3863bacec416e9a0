-- ===== src/Admin/Selection.antt =====
-- The button that selects all the reports of the page, or none of them, in
-- frontend/admin/src/components/AdminPanelRuntime.tsx.
use pairline.Base.{
  Text, text_eq, text_eq_iff, List, [], ◌∷◌, ◌++◌, true, false, not, if◌then◌else◌, has, text_keys,
  is_empty, ◌≡◌, refl, sym, ap, ◌∙◌, arith, Bool-cases, inl, inr,
}
use pairline.Admin.{Panel}
use pairline.Admin.Types.{Report}
use pairline.Admin.Fetching.{ids, selectable_visible_reports, every_selected}
use pairline.Admin.Reviewing.{
  add_id, delete_id, add_all, delete_all, toggle_select_all_visible_reports,
}

has-delete_id :
    (id : Text) (s : List Text) (x : Text)
    → has (delete_id id s) x ≡ (if text_eq id x then false else has s x)
unfolding has delete_id
has-delete_id id [] x = ground arith
has-delete_id id (y ∷ s) x =
    ground (arith, has-delete_id id s x, text_eq_iff id x, text_eq_iff y id, text_eq_iff y x)

has-append_one :
    (id : Text) (s : List Text) (x : Text)
    → has (s ++ (id ∷ [])) x ≡ (if text_eq id x then true else has s x)
unfolding has
has-append_one id [] x = ground arith
has-append_one id (y ∷ s) x = ground (arith, has-append_one id s x)

has-add_id :
    (id : Text) (s : List Text) (x : Text)
    → has (add_id id s) x ≡ (if text_eq id x then true else has s x)
unfolding add_id
has-add_id id s x = elim (Bool-cases (text_eq id x)) [
  | inl e ↦
      let same : id ≡ x = (text_eq_iff id x).0 e in
      elim (Bool-cases (has s id)) [
        | inl h ↦ rw (e, h) (ap (has s) (sym same) ∙ h)
        | inr h ↦ rw h (has-append_one id s x)
      ]
  | inr e ↦ elim (Bool-cases (has s id)) [
    | inl h ↦ rw (h, e) refl
    | inr h ↦ rw h (has-append_one id s x)
  ]
]

has-delete_all :
    (rs : List Report) (s : List Text) (x : Text)
    → has (delete_all rs s) x ≡ (if has (ids rs) x then false else has s x)
unfolding has delete_all
has-delete_all [] s x = refl
has-delete_all (r ∷ rs) s x =
    ground (arith, has-delete_all rs (delete_id r.id s) x, has-delete_id r.id s x)

has-add_all :
    (rs : List Report) (s : List Text) (x : Text)
    → has (add_all rs s) x ≡ (if has (ids rs) x then true else has s x)
unfolding has add_all
has-add_all [] s x = refl
has-add_all (r ∷ rs) s x = ground (arith, has-add_all rs (add_id r.id s) x, has-add_id r.id s x)

-- Where the page has a report that can be selected, the button makes each of these selected, unless
-- all of them were, and then none of them; what is selected beyond the page stays as it was.
pub has-toggle_select_all :
    (view p : Panel) (id : Text)
    → is_empty (selectable_visible_reports view) ≡ false
    → has (toggle_select_all_visible_reports view p).selected_reports id ≡ (
        if has (ids (selectable_visible_reports view)) id
        then not (every_selected p.selected_reports (selectable_visible_reports view))
        else has p.selected_reports id)
unfolding toggle_select_all_visible_reports
has-toggle_select_all view p id some_report =
    let rs = selectable_visible_reports view in
    elim (Bool-cases (every_selected p.selected_reports rs)) [
      | inl all ↦ rw (some_report, all) (has-delete_all rs p.selected_reports id)
      | inr few ↦ rw (some_report, few) (has-add_all rs p.selected_reports id)
    ]
