-- ===== src/Frontend/Handles.antt =====
-- frontend/src/lib/handles.ts, and what it uses of frontend/src/lib/utils.ts. Texts are lists of character codes.
use supallm.Common.{
  ℕ, ◌+◌, ◌-◌, Bool, true, false, Option, none, some, [], ◌∷◌, ◌++◌, Result, ok, error, not, filter,
  if◌then◌else◌, leb, nat_eq, ◌&&◌, ◌||◌, ◌≡◌, ◌≢◌, refl, ap, arith, All, Bool-cases, inl, inr,
}
use supallm.Common.Chars.{Chars, codes, is_space, is_word}

abbrev between : ℕ → ℕ → ℕ → Bool
between low high c = leb low c && leb c high

unfoldable pub lower : ℕ → ℕ
lower c = if between b'A' b'Z' c then c - b'A' + b'a' else c

unfoldable pub upper : ℕ → ℕ
upper c = if between b'a' b'z' c then c - b'a' + b'A' else c

-- What is put for a match of one character that is no white space: `+match === 0` holds of "0" alone.
abbrev matched : Bool → ℕ → Chars
matched at_start c = if nat_eq c b'0' then [] else (if at_start then lower c else upper c) ∷ []

-- `str.replace(/(?:^\w|[A-Z]|\b\w|\s+)/g, ...)`, at the start or after a character that is of a word or not.
-- White space is put as nothing: `+match` is 0.
unfoldable pub camel_from : Bool → Bool → Chars → Chars
unfolding lower upper is_word is_space
camel_from at_start after_word [] = []
camel_from at_start after_word (c ∷ s) =
    let rest = camel_from false (is_word c) s in
    if is_word c && (at_start || between b'A' b'Z' c || not after_word)
    then matched at_start c ++ rest
    else if is_space c
    then rest
    else c ∷ rest

unfoldable pub to_camel_case : Chars → Chars
unfolding camel_from
to_camel_case s = camel_from true false s

abbrev is_kept : ℕ → Bool
is_kept c = between b'a' b'z' c || between b'A' b'Z' c || between b'0' b'9' c || nat_eq c b'-'

-- `str.replace(/[^a-zA-Z-0-9]/g, "")`
unfoldable pub sanitize_string : Chars → Chars
sanitize_string s = filter is_kept s

unfoldable pub sanitize_handle_label : Chars → Chars
unfolding to_camel_case sanitize_string
sanitize_handle_label label = sanitize_string (to_camel_case label)

pub data LabeledHandleType : Type 0 where
  image text any memory ai_model handoffs tools guardrails : LabeledHandleType

unfoldable pub handle_type_name : LabeledHandleType → Chars
unfolding codes
handle_type_name image = codes "image"
handle_type_name text = codes "text"
handle_type_name any = codes "any"
handle_type_name memory = codes "memory"
handle_type_name ai_model = codes "ai-model"
handle_type_name handoffs = codes "handoffs"
handle_type_name tools = codes "tools"
handle_type_name guardrails = codes "guardrails"

unfoldable pub generate_handle_id : LabeledHandleType → Chars → Chars
unfolding sanitize_handle_label handle_type_name
generate_handle_id type label = handle_type_name type ++ b'_' ∷ b'_' ∷ sanitize_handle_label label

-- What stands before the first "__", and after it.
unfoldable pub cut : Chars → Chars × Option Chars
cut [] = ([], none)
cut (c ∷ []) = (c ∷ [], none)
cut (c ∷ d ∷ s) =
    let (before, after) = cut (d ∷ s) in
    if nat_eq c b'_' && nat_eq d b'_' then ([], some s) else (c ∷ before, after)

pub data HandleError : Type 0 where
  invalid_handle_id : Chars → HandleError

-- The first two pieces of `id.split("__")`.
unfoldable pub parse_handle_id : Chars → Result (Chars × Chars) HandleError
unfolding cut
parse_handle_id id = elim ((cut id).1) [
  | none ↦ error (invalid_handle_id id)
  | some rest ↦ elim ((cut id).0) [
    | [] ↦ error (invalid_handle_id id)
    | c ∷ type ↦ elim ((cut rest).0) [
      | [] ↦ error (invalid_handle_id id)
      | d ∷ label ↦ ok (c ∷ type, d ∷ label)
    ]
  ]
]

abbrev NoUnderscore : Chars → Type 0
NoUnderscore s = All (λ c. nat_eq c b'_' ≡ false) s

sanitize_string-NoUnderscore : (s : Chars) → NoUnderscore (sanitize_string s)
unfolding sanitize_string
sanitize_string-NoUnderscore [] = tt
sanitize_string-NoUnderscore (c ∷ s) = elim (Bool-cases (is_kept c)) [
  | inl e ↦ rw e (ground (arith, e), sanitize_string-NoUnderscore s)
  | inr e ↦ rw e (sanitize_string-NoUnderscore s)
]

cut-none : (s : Chars) → NoUnderscore s → cut s ≡ (s, none)
unfolding cut
cut-none [] h = refl
cut-none (c ∷ []) h = refl
cut-none (c ∷ d ∷ s) (e, h) = rw (e, cut-none (d ∷ s) h) refl

cut-append : (t s : Chars) → NoUnderscore t → cut (t ++ b'_' ∷ b'_' ∷ s) ≡ (t, some s)
unfolding cut
cut-append [] s h = refl
cut-append (c ∷ []) s (e, h) = rw e refl
cut-append (c ∷ d ∷ t) s (e, h) = rw (e, cut-append (d ∷ t) s h) refl

parse_handle_id-cut :
    (id rest t s : Chars) (c d : ℕ)
    → cut id ≡ (c ∷ t, some rest)
    → cut rest ≡ (d ∷ s, none)
    → parse_handle_id id ≡ ok (c ∷ t, d ∷ s)
unfolding parse_handle_id
parse_handle_id-cut id rest t s c d e k =
    rw (parse_handle_id, ap (λ p. p.1) e, ap (λ p. p.0) e, ap (λ p. p.0) k) refl

parse_handle_id-append :
    (t s : Chars)
    → t ≢ []
    → s ≢ []
    → NoUnderscore t
    → NoUnderscore s
    → parse_handle_id (t ++ b'_' ∷ b'_' ∷ s) ≡ ok (t, s)
parse_handle_id-append [] s n m h k = absurd (n refl)
parse_handle_id-append (c ∷ t) [] n m h k = absurd (m refl)
parse_handle_id-append (c ∷ t) (d ∷ s) n m h k =
    parse_handle_id-cut ((c ∷ t) ++ b'_' ∷ b'_' ∷ d ∷ s) (d ∷ s) t s c d
      (cut-append (c ∷ t) (d ∷ s) h) (cut-none (d ∷ s) k)

handle_type_name-NoUnderscore :
    (type : LabeledHandleType) → (handle_type_name type ≢ []) × NoUnderscore (handle_type_name type)
unfolding handle_type_name
handle_type_name-NoUnderscore image =
    (λ e. ground (arith, e), (refl, (refl, (refl, (refl, (refl, tt))))))
handle_type_name-NoUnderscore text = (λ e. ground (arith, e), (refl, (refl, (refl, (refl, tt)))))
handle_type_name-NoUnderscore any = (λ e. ground (arith, e), (refl, (refl, (refl, tt))))
handle_type_name-NoUnderscore memory =
    (λ e. ground (arith, e), (refl, (refl, (refl, (refl, (refl, (refl, tt)))))))
handle_type_name-NoUnderscore ai_model =
    (λ e. ground (arith, e), (refl, (refl, (refl, (refl, (refl, (refl, (refl, (refl, tt)))))))))
handle_type_name-NoUnderscore handoffs =
    (λ e. ground (arith, e), (refl, (refl, (refl, (refl, (refl, (refl, (refl, (refl, tt)))))))))
handle_type_name-NoUnderscore tools =
    (λ e. ground (arith, e), (refl, (refl, (refl, (refl, (refl, tt))))))
handle_type_name-NoUnderscore guardrails = (
  λ e. ground (arith, e),
  (refl, (refl, (refl, (refl, (refl, (refl, (refl, (refl, (refl, (refl, tt)))))))))),
)

-- The id of a handle, if something of its label is left after sanitizing, is parsed into the type and the
-- sanitized label.
pub parse_handle_id-generate_handle_id :
    (type : LabeledHandleType) (label : Chars)
    → sanitize_handle_label label ≢ []
    → parse_handle_id (generate_handle_id type label)
      ≡ ok (handle_type_name type, sanitize_handle_label label)
unfolding generate_handle_id sanitize_handle_label
parse_handle_id-generate_handle_id type label h =
    let (n, k) = handle_type_name-NoUnderscore type in
    parse_handle_id-append (handle_type_name type) (sanitize_handle_label label) n h k
      (sanitize_string-NoUnderscore (to_camel_case label))
