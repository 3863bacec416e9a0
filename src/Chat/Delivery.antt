-- ===== src/Chat/Delivery.antt =====
-- `updateDeliveryStatus` of the hooks useTextChat.tsx and useVideoChat.tsx under
-- frontend/client/src/hooks.
use pairline.Base.{
  ℕ, List, [], ◌∷◌, Option, some, if◌then◌else◌, ◌==◌, ◌≡◌, refl, arith, Text, or_else, In, inl,
  inr, Distinct, ◌++◌, sym, ap, ◌∙◌,
}
use mathlib.Core.Path.{subst}
use pairline.Message.{ChatMessage, DeliveryStatus}
use pairline.Chat.{update_delivery_status}

-- What `updateDeliveryStatus` does to one message.
abbrev pub marked : ℕ → DeliveryStatus → Option Text → ChatMessage → ChatMessage
marked i s t m =
    if m.id == i then record m { text = or_else t m.text; delivery_status = some s } else m

-- A message behind the update comes from one before it, with the same id.
pub in-update_delivery_status :
    (i : ℕ) (s : DeliveryStatus) (t : Option Text) (ms : List ChatMessage) (m : ChatMessage)
    → In m (update_delivery_status i s t ms)
    → (n : ChatMessage) × In n ms × (m ≡ marked i s t n) × (m.id ≡ n.id)
unfolding update_delivery_status
in-update_delivery_status i s t [] m h = elim h [ ]
in-update_delivery_status i s t (n ∷ ms) m (inl e) = (n, inl refl, e, ground arith)
in-update_delivery_status i s t (n ∷ ms) m (inr h) =
    let (n', h', e, e') = in-update_delivery_status i s t ms m h in (n', inr h', e, e')

-- The ids of messages, in their order.
abbrev pub ids : List ChatMessage → List ℕ
ids [] = []
ids (m ∷ ms) = m.id ∷ ids ms

pub ids-append : (ms ns : List ChatMessage) → ids (ms ++ ns) ≡ ids ms ++ ids ns
ids-append [] ns = refl
ids-append (m ∷ ms) ns = ap (λ (is : List ℕ). m.id ∷ is) (ids-append ms ns)

pub ids-update_delivery_status :
    (i : ℕ) (s : DeliveryStatus) (t : Option Text) (ms : List ChatMessage)
    → ids (update_delivery_status i s t ms) ≡ ids ms
unfolding update_delivery_status
ids-update_delivery_status i s t [] = refl
ids-update_delivery_status i s t (m ∷ ms) = ground (arith, ids-update_delivery_status i s t ms)

pub in-ids : (ms : List ChatMessage) (m : ChatMessage) → In m ms → In m.id (ids ms)
in-ids [] m i = elim i [ ]
in-ids (n ∷ ms) m (inl e) = inl (ap (λ (y : ChatMessage). y.id) e)
in-ids (n ∷ ms) m (inr j) = inr (in-ids ms m j)

pub in_ids_from :
    (ms : List ChatMessage) (i : ℕ) → In i (ids ms) → (m : ChatMessage) × In m ms × (m.id ≡ i)
in_ids_from [] i j = elim j [ ]
in_ids_from (n ∷ ms) i (inl e) = (n, inl refl, sym e)
in_ids_from (n ∷ ms) i (inr j) = let (m, k, e) = in_ids_from ms i j in (m, inr k, e)

-- With distinct ids, a message of the list is the one with its id.
pub ids-single :
    (ms : List ChatMessage)
    → Distinct (ids ms)
    → (m n : ChatMessage) → In m ms
    → In n ms
    → m.id ≡ n.id
    → m ≡ n
ids-single [] d m n i j e = elim i [ ]
ids-single (x ∷ ms) d m n (inl i) (inl j) e = i ∙ sym j
ids-single (x ∷ ms) d m n (inl i) (inr j) e =
    absurd
      (d.0 (subst (λ a. In a (ids ms)) (sym e ∙ ap (λ (y : ChatMessage). y.id) i) (in-ids ms n j)))
ids-single (x ∷ ms) d m n (inr i) (inl j) e =
    absurd (d.0 (subst (λ a. In a (ids ms)) (e ∙ ap (λ (y : ChatMessage). y.id) j) (in-ids ms m i)))
ids-single (x ∷ ms) d m n (inr i) (inr j) e = ids-single ms d.1 m n i j e
