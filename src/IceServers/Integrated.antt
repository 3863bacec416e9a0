-- ===== src/IceServers/Integrated.antt =====
-- `normalizeIntegratedTurnUrls` of frontend/client/src/services/iceServers.ts: which URL stays for
-- each kind of transport, whatever order the random shuffle leaves the URLs in.
use pairline.Base.{
  ℕ, suc, Text, truthy, lookup, insert, lookup-insert, List, [], ◌∷◌, Option, none, some, Bool,
  true, keep, any, length, is_some, if◌then◌else◌, ◌≡◌, ◌↔◌, ◌⊎◌, refl, sym, ◌∙◌, inl, inr, In, All,
  All-of_in, any_congr, Bool-cases, Option-cases, arith,
}
use pairline.IceServers.{
  UrlBucket, bucket_eq, bucket_eq_iff, bucket_keys, integrated_turn_bucket_order,
  integrated_turn_url_bucket, fill_buckets, pick_buckets, normalize_integrated_turn_urls,
}

abbrev pub in_bucket : UrlBucket → Text → Bool
in_bucket b url = bucket_eq (integrated_turn_url_bucket url) b

first : UrlBucket → List Text → Option Text
first b [] = none
first b (url ∷ urls) = if in_bucket b url then some url else first b urls

lookup-fill_buckets :
    (m : List (UrlBucket × Text)) (urls : List Text) (b : UrlBucket)
    → lookup b (fill_buckets m urls) ≡ (if is_some (lookup b m) then lookup b m else first b urls)
unfolding fill_buckets first
lookup-fill_buckets m [] b = ground arith
lookup-fill_buckets m (url ∷ urls) b =
    let k = integrated_turn_url_bucket url in
    elim (Bool-cases (is_some (lookup k m))) [
      | inl old ↦ rw old (lookup-fill_buckets m urls b ∙ ground (arith, bucket_eq_iff k b))
      | inr new ↦ rw new (
          lookup-fill_buckets (insert k url m) urls b
          ∙ rw (lookup-insert k b url m) (ground (arith, bucket_eq_iff k b)))
    ]

first_sound :
    (b : UrlBucket) (urls : List Text) (u : Text)
    → first b urls ≡ some u
    → In u urls × (integrated_turn_url_bucket u ≡ b)
unfolding first
first_sound b [] u h = cc
first_sound b (url ∷ urls) u h = elim (Bool-cases (in_bucket b url)) [
  | inl here ↦
      let e : u ≡ url = ground arith in
      (inl e, rw e ((bucket_eq_iff (integrated_turn_url_bucket url) b).0 here))
  | inr there ↦ let (i, e) = first_sound b urls u (rw there at h) in (inr i, e)
]

first_found : (b : UrlBucket) (urls : List Text) → is_some (first b urls) ≡ any (in_bucket b) urls
unfolding first
first_found b [] = refl
first_found b (url ∷ urls) = ground (arith, first_found b urls)

occurrences : UrlBucket → List UrlBucket → ℕ
occurrences b [] = 0
occurrences b (c ∷ bs) = if bucket_eq c b then suc (occurrences b bs) else occurrences b bs

pick_buckets-none :
    (m : List (UrlBucket × Text)) (c : UrlBucket) (bs : List UrlBucket)
    → lookup c m ≡ none
    → pick_buckets m (c ∷ bs) ≡ pick_buckets m bs
unfolding pick_buckets
pick_buckets-none m c bs h = ground arith

pick_buckets-some :
    (m : List (UrlBucket × Text)) (c : UrlBucket) (bs : List UrlBucket) (u : Text)
    → lookup c m ≡ some u
    → truthy u ≡ true
    → pick_buckets m (c ∷ bs) ≡ u ∷ pick_buckets m bs
unfolding pick_buckets
pick_buckets-some m c bs u h t = ground arith

module _ (m : List (UrlBucket × Text))
    (sound : (c : UrlBucket) (u : Text)
      → lookup c m ≡ some u
      → (integrated_turn_url_bucket u ≡ c) × (truthy u ≡ true)) where
  length-pick_buckets :
      (b : UrlBucket) (bs : List UrlBucket)
      → length (keep (in_bucket b) (pick_buckets m bs))
        ≡ (if is_some (lookup b m) then occurrences b bs else 0)
  unfolding occurrences pick_buckets
  length-pick_buckets b [] = ground arith
  length-pick_buckets b (c ∷ bs) = elim (Option-cases (lookup c m)) [
    | inl missing ↦
        rw (pick_buckets-none m c bs missing)
          (ground (arith, length-pick_buckets b bs, bucket_eq_iff c b))
    | inr (u, found) ↦
        rw (pick_buckets-some m c bs u found (sound c u found).1)
          (ground (arith, length-pick_buckets b bs, bucket_eq_iff c b, sound c u found))
  ]

  in-pick_buckets :
      (bs : List UrlBucket) (u : Text)
      → In u (pick_buckets m bs)
      → (c : UrlBucket) × (lookup c m ≡ some u)
  unfolding pick_buckets
  in-pick_buckets [] u i = elim i [ ]
  in-pick_buckets (c ∷ bs) u i = elim (Option-cases (lookup c m)) [
    | inl missing ↦ in-pick_buckets bs u (rw (pick_buckets-none m c bs missing) at i)
    | inr (v, found) ↦
        let i' : (u ≡ v) ⊎ In u (pick_buckets m bs) =
          rw (pick_buckets-some m c bs v found (sound c v found).1) at i in
        elim i' [ inl e ↦ (c, rw e found) | inr j ↦ in-pick_buckets bs u j ]
  ]

bucket_order_once : (b : UrlBucket) → occurrences b integrated_turn_bucket_order ≡ 1
unfolding occurrences integrated_turn_bucket_order
bucket_order_once b = ground arith

lookup-filled : (urls : List Text) (b : UrlBucket) → lookup b (fill_buckets [] urls) ≡ first b urls
unfolding lookup
lookup-filled urls b = lookup-fill_buckets [] urls b

-- Whatever the shuffle does to the order, of the non-empty URLs of each bucket exactly one stays,
-- no bucket that had one is left without, and no URL is made up.
pub normalize_integrated_turn_urls_one_each :
    (shuffle : List Text → List Text) (urls : List Text)
    → ((us : List Text) (u : Text) → In u (shuffle us) ↔ In u us)
    → ((u : Text) → In u urls → truthy u ≡ true)
    → ((b : UrlBucket)
        → length (keep (in_bucket b) (normalize_integrated_turn_urls shuffle urls))
          ≡ (if any (in_bucket b) urls then 1 else 0))
      × All (λ u. In u urls) (normalize_integrated_turn_urls shuffle urls)
unfolding normalize_integrated_turn_urls
normalize_integrated_turn_urls_one_each shuffle urls same full =
    let m = fill_buckets [] (shuffle urls) in
    let origin : (c : UrlBucket) (u : Text)
        → lookup c m ≡ some u
        → In u urls × (integrated_turn_url_bucket u ≡ c) =
      λ c u h.
        let (i, e) = first_sound c (shuffle urls) u (sym (lookup-filled (shuffle urls) c) ∙ h) in
        ((same urls u).0 i, e) in
    let sound : (c : UrlBucket) (u : Text)
        → lookup c m ≡ some u
        → (integrated_turn_url_bucket u ≡ c) × (truthy u ≡ true) =
      λ c u h. let (i, e) = origin c u h in (e, full u i) in
    (
      λ b.
          length-pick_buckets m sound b integrated_turn_bucket_order
          ∙ rw (
            lookup-filled (shuffle urls) b,
            first_found b (shuffle urls),
            bucket_order_once b,
            any_congr (in_bucket b) (shuffle urls) urls (same urls),
          ),
      All-of_in (λ u. In u urls) _
          (λ u i.
            let (c, h) = in-pick_buckets m sound integrated_turn_bucket_order u i in
            (origin c u h).0),
    )
