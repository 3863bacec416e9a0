-- ===== src/IceServers/Dedupe.antt =====
-- `dedupeUrls` of frontend/client/src/services/iceServers.ts against a set of trimmed URLs.
use pairline.Base.{
  Text, truthy, trim, trim_idem, text_keys, text_eq, text_eq_iff, eq_of_text_eq, has, List, [], ◌∷◌,
  ◌++◌, map, true, false, not, ◌||◌, if◌then◌else◌, ◌≡◌, ◌↔◌, refl, sym, ap, ◌∙◌, inl, inr, ◌⊎◌,
  ◌≢◌, In, Distinct, Bool-cases, arith,
}
use mathlib.Core.List.{append_assoc, append-nil}
use pairline.IceServers.{dedupe_loop, dedupe_urls}

-- The URLs that the loop adds when those in `seen` are known.
fresh : List Text → List Text → List Text
fresh seen [] = []
fresh seen (raw ∷ urls) =
    if not (truthy (trim raw)) || has seen (trim raw)
    then fresh seen urls
    else trim raw ∷ fresh (trim raw ∷ seen) urls

dedupe_loop-fresh :
    (seen deduped urls : List Text) → dedupe_loop seen deduped urls ≡ deduped ++ fresh seen urls
unfolding dedupe_loop fresh
dedupe_loop-fresh seen deduped [] = sym (append-nil deduped)
dedupe_loop-fresh seen deduped (raw ∷ urls) =
    elim (Bool-cases (not (truthy (trim raw)) || has seen (trim raw))) [
      | inl skip ↦ rw skip (dedupe_loop-fresh seen deduped urls)
      | inr add ↦
          rw (add, dedupe_loop-fresh (trim raw ∷ seen) (deduped ++ trim raw ∷ []) urls)
            (append_assoc deduped (trim raw ∷ []) (fresh (trim raw ∷ seen) urls))
    ]

has_iff : (xs : List Text) (u : Text) → (has xs u ≡ true) ↔ In u xs
unfolding has
has_iff [] u = ground arith
has_iff (x ∷ xs) u = ground (arith, text_keys.beq_iff x u, has_iff xs u)

-- What a test that does not skip a URL says, and what one that skips it says.
not_skip :
    (seen : List Text) (u : Text)
    → not (truthy u) || has seen u ≡ false
    → (truthy u ≡ true) × ¬ In u seen
not_skip seen u h = (ground arith, λ i. ground (arith, (has_iff seen u).1 i))

skip :
    (seen : List Text) (u : Text)
    → not (truthy u) || has seen u ≡ true
    → (truthy u ≡ false) ⊎ In u seen
skip seen u h = elim (Bool-cases (truthy u)) [
  | inl t ↦ inr ((has_iff seen u).0 (ground arith))
  | inr f ↦ inl f
]

in-fresh_to :
    (seen urls : List Text) (u : Text)
    → In u (fresh seen urls)
    → In u (map trim urls) × (truthy u ≡ true) × ¬ In u seen
unfolding fresh
in-fresh_to seen [] u i = elim i [ ]
in-fresh_to seen (raw ∷ urls) u i =
    elim (Bool-cases (not (truthy (trim raw)) || has seen (trim raw))) [
      | inl out ↦ let (m, t, n) = in-fresh_to seen urls u (rw out at i) in (inr m, t, n)
      | inr new ↦
          let (t, n) = not_skip seen (trim raw) new in
          let j : (u ≡ trim raw) ⊎ In u (fresh (trim raw ∷ seen) urls) = rw new at i in
          elim j [
            | inl e ↦ (inl e, rw e t, λ s. n (rw e at s))
            | inr k ↦
                let (m, t', n') = in-fresh_to (trim raw ∷ seen) urls u k in
                (inr m, t', λ s. n' (inr s))
          ]
    ]

in-fresh_from :
    (seen urls : List Text) (u : Text)
    → In u (map trim urls)
    → (truthy u ≡ true)
    → ¬ In u seen
    → In u (fresh seen urls)
unfolding fresh
in-fresh_from seen [] u i t n = elim i [ ]
in-fresh_from seen (raw ∷ urls) u i t n =
    elim (Bool-cases (not (truthy (trim raw)) || has seen (trim raw))) [
      | inl out ↦ rw out (grind (arith, skip seen (trim raw) out, in-fresh_from seen urls u))
      | inr new ↦ rw new (elim (Bool-cases (text_eq u (trim raw))) [
        | inl same ↦ inl (eq_of_text_eq u (trim raw) same)
        | inr differs ↦
            let ne : u ≢ trim raw = λ e. cc ((text_eq_iff u (trim raw)).1 e) in
            inr (in-fresh_from (trim raw ∷ seen) urls u (ground arith) t (λ s. ground (arith, n)))
      ])
    ]

fresh-Distinct : (seen urls : List Text) → Distinct (fresh seen urls)
unfolding fresh
fresh-Distinct seen [] = tt
fresh-Distinct seen (raw ∷ urls) =
    elim (Bool-cases (not (truthy (trim raw)) || has seen (trim raw))) [
      | inl out ↦ rw out (fresh-Distinct seen urls)
      | inr new ↦ rw new (
        λ i. (in-fresh_to (trim raw ∷ seen) urls (trim raw) i).2 (inl refl),
        fresh-Distinct (trim raw ∷ seen) urls,
      )
    ]

-- `dedupeUrls` keeps exactly the non-empty trimmed texts of its argument, each of them once.
pub dedupe_urls_lem :
    (urls : List Text)
    → Distinct (dedupe_urls urls)
      × ((u : Text) → In u (dedupe_urls urls) ↔ (In u (map trim urls) × (truthy u ≡ true)))
unfolding dedupe_urls
dedupe_urls_lem urls = rw (dedupe_loop-fresh [] [] urls) (
  fresh-Distinct [] urls,
  λ u. (
    λ i. let (m, t, n) = in-fresh_to [] urls u i in (m, t),
    λ h. in-fresh_from [] urls u h.0 h.1 (λ s. s),
  ),
)

-- The texts that `dedupeUrls` returns: trimmed and not empty.
abbrev IsClean : Text → Type 0
IsClean u = (trim u ≡ u) × (truthy u ≡ true)

in-map-trim : (urls : List Text) (u : Text) → In u (map trim urls) → trim u ≡ u
in-map-trim [] u i = elim i [ ]
in-map-trim (raw ∷ urls) u (inl e) = rw e (trim_idem raw)
in-map-trim (raw ∷ urls) u (inr i) = in-map-trim urls u i

pub dedupe_urls-IsClean : (urls : List Text) (u : Text) → In u (dedupe_urls urls) → IsClean u
dedupe_urls-IsClean urls u i =
    let (m, t) = ((dedupe_urls_lem urls).1 u).0 i in (in-map-trim urls u m, t)

fresh_id :
    (seen urls : List Text)
    → ((u : Text) → In u urls → IsClean u × ¬ In u seen)
    → Distinct urls
    → fresh seen urls ≡ urls
unfolding fresh
fresh_id seen [] clean d = refl
fresh_id seen (u ∷ urls) clean d =
    let (c, n) = clean u (inl refl) in
    let unseen : has seen u ≡ false = elim (Bool-cases (has seen u)) [
      | inl h ↦ absurd (n ((has_iff seen u).0 h))
      | inr h ↦ h
    ] in
    rw (c.0, c.1, unseen)
      (ap (λ (rest : List Text). u ∷ rest)
        (fresh_id (u ∷ seen) urls
          (λ v i. (
            (clean v (inr i)).0,
            λ s. elim s [ inl e ↦ d.0 (rw e at i) | inr s' ↦ (clean v (inr i)).1 s' ],
          ))
          d.1))

-- Clean texts without repetition are returned as they are.
pub dedupe_urls_id :
    (urls : List Text)
    → ((u : Text) → In u urls → IsClean u)
    → Distinct urls
    → dedupe_urls urls ≡ urls
unfolding dedupe_urls
dedupe_urls_id urls clean d =
    dedupe_loop-fresh [] [] urls ∙ fresh_id [] urls (λ u i. (clean u i, λ s. s)) d
