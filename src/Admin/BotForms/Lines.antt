-- ===== src/Admin/BotForms/Lines.antt =====
-- The lines of a conversation in frontend/admin/src/components/AdminPanelRuntime.tsx:
-- `parseConversationLines`, and the `join('\n')` that fills the form.
use pairline.Base.{
  ℕ, Text, truthy, trim, trim_idem, trim_start, trim_end, List, [], ◌∷◌, ◌++◌, map, Bool, true,
  false, ◌==◌, if◌then◌else◌, keep, any, All, if-holds_cases, ◌≡◌, refl, ap, ◌∙◌, arith,
}

-- `(c :: line) :: rest` of the lines that are split already.
abbrev prepend : ℕ → List Text → List Text
prepend c [] = (c ∷ []) ∷ []
prepend c (l ∷ ls) = (c ∷ l) ∷ ls

-- `value.split('\n')`.
unfoldable pub split_lines : Text → List Text
split_lines [] = [] ∷ []
split_lines (c ∷ s) = let rest = split_lines s in if c == b'\n' then [] ∷ rest else prepend c rest

unfoldable pub parse_conversation_lines : Text → List Text
parse_conversation_lines value = keep truthy (map trim (split_lines value))

-- `lines.join('\n')`.
unfoldable pub join_lines : List Text → Text
join_lines [] = []
join_lines (l ∷ []) = l
join_lines (l ∷ m ∷ ls) = l ++ (b'\n' ∷ join_lines (m ∷ ls))

-- A line without a line end, and one that the form keeps.
abbrev has_end : Text → Bool
has_end = any (λ c. c == b'\n')

abbrev IsOneLine : Text → Type 0
IsOneLine l = has_end l ≡ false

abbrev IsKept : Text → Type 0
IsKept l = (has_end l ≡ false) × (trim l ≡ l) × (truthy l ≡ true)

prepend-IsOneLine :
    (c : ℕ) (ls : List Text)
    → (c == b'\n') ≡ false
    → All IsOneLine ls
    → All IsOneLine (prepend c ls)
prepend-IsOneLine c [] e h = (ground arith, tt)
prepend-IsOneLine c (m ∷ ls) e h = let first = h.0 in (ground arith, h.1)

split_lines-IsOneLine : (s : Text) → All IsOneLine (split_lines s)
unfolding split_lines
split_lines-IsOneLine [] = (refl, tt)
split_lines-IsOneLine (c ∷ s) =
    if-holds_cases (All IsOneLine) (c == b'\n') (λ e. (refl, split_lines-IsOneLine s))
      (λ e. prepend-IsOneLine c (split_lines s) e (split_lines-IsOneLine s))

trim_start-IsOneLine : (s : Text) → IsOneLine s → IsOneLine (trim_start s)
unfolding trim_start
trim_start-IsOneLine [] h = h
trim_start-IsOneLine (c ∷ s) h = ground (arith, trim_start-IsOneLine s)

trim_end-IsOneLine : (s : Text) → IsOneLine s → IsOneLine (trim_end s)
unfolding trim_end
trim_end-IsOneLine [] h = h
trim_end-IsOneLine (c ∷ s) h = ground (arith, trim_end-IsOneLine s)

trim-IsOneLine : (s : Text) → IsOneLine s → IsOneLine (trim s)
unfolding trim
trim-IsOneLine s h = trim_start-IsOneLine (trim_end s) (trim_end-IsOneLine s h)

trimmed-IsKept : (ls : List Text) → All IsOneLine ls → All IsKept (keep truthy (map trim ls))
trimmed-IsKept [] h = tt
trimmed-IsKept (l ∷ ls) h =
    if-holds_cases (All IsKept) (truthy (trim l))
      (λ e. ((trim-IsOneLine l h.0, trim_idem l, e), trimmed-IsKept ls h.1))
      (λ e. trimmed-IsKept ls h.1)

trimmed_id : (ls : List Text) → All IsKept ls → keep truthy (map trim ls) ≡ ls
trimmed_id [] h = refl
trimmed_id (l ∷ ls) ((one, trimmed, some_left), rest) =
    rw (trimmed, some_left) (ap (λ (ms : List Text). l ∷ ms) (trimmed_id ls rest))

split-end : (l s : Text) → IsOneLine l → split_lines (l ++ (b'\n' ∷ s)) ≡ l ∷ split_lines s
unfolding split_lines
split-end [] s h = refl
split-end (c ∷ l) s h = ground (arith, split-end l s)

split-line : (l : Text) → IsOneLine l → split_lines l ≡ l ∷ []
unfolding split_lines
split-line [] h = refl
split-line (c ∷ l) h = ground (arith, split-line l)

split-join :
    (l : Text) (ls : List Text) → All IsKept (l ∷ ls) → split_lines (join_lines (l ∷ ls)) ≡ l ∷ ls
unfolding join_lines
split-join l [] h = split-line l h.0.0
split-join l (m ∷ ls) h =
    split-end l (join_lines (m ∷ ls)) h.0.0 ∙ ap (λ (ms : List Text). l ∷ ms) (split-join m ls h.1)

parse-none : parse_conversation_lines (join_lines []) ≡ []
unfolding parse_conversation_lines split_lines join_lines trim
parse-none = refl

parse-join : (ls : List Text) → All IsKept ls → parse_conversation_lines (join_lines ls) ≡ ls
unfolding parse_conversation_lines
parse-join [] h = parse-none
parse-join (l ∷ ls) h = rw (split-join l ls h) (trimmed_id (l ∷ ls) h)

pub parse-join-parse :
    (value : Text)
    → parse_conversation_lines (join_lines (parse_conversation_lines value))
      ≡ parse_conversation_lines value
unfolding parse_conversation_lines
parse-join-parse value =
    parse-join (parse_conversation_lines value)
      (trimmed-IsKept (split_lines value) (split_lines-IsOneLine value))
