-- ===== src/Adapters/Http/Paths.antt =====
-- Response paths: `_extract_path` of src/rag_eval/adapters/generic_http.py.
--
-- An index is a sign and ASCII digits with single underscores between them; the blanks and other
-- digits that `int` also reads count as no number here.
use Prim.Native.Char.{code}
use Prim.Native.String
use Prim.Native.String.{String}
use package.text.Mathlib.Text.{starts_with}
use rag_eval.Prelude.{
  ℕ, zero, suc, ◌+◌, ◌-◌, ◌*◌, ◌==◌, leb, ltb, Bool, true, false, ◌&&◌, ◌||◌, Option, none, some,
  List, [], ◌∷◌, str_eq, if◌then◌else◌, ◌≡◌, refl,
}
use rag_eval.Execution.Errors.{ErrorRecord}
use rag_eval.Json.{Json, list, dict, Items, no_items, item, member}

-- TargetProtocolError, ValueError, TypeError, UnsupportedCapabilityError, and any other TargetAdapterError with
-- its record.
pub data AdapterError : Type 0 where
  protocol_error value_error type_error unsupported_capability : AdapterError
  target_error : ErrorRecord → AdapterError

pub data Result {ℓ} (A : Type ℓ) : Type ℓ where
  ok : A → Result A
  err : AdapterError → Result A

infixl 5 ◌>>=◌
abbrev pub ◌>>=◌ {ℓ κ} : {A : Type ℓ} {B : Type κ} → Result A → (A → Result B) → Result B
ok a >>= f = f a
err e >>= f = err e

-- The parts of a successful bind.
pub bind_parts {ℓ κ} :
    {A : Type ℓ} {B : Type κ} (m : Result A) (f : A → Result B) (b : B)
    → (m >>= f) ≡ ok b
    → (a : A) × (m ≡ ok a) × (f a ≡ ok b)
bind_parts (ok a) f b h = (a, refl, h)
bind_parts (err e) f b h = cc

is_blank : ℕ → Bool
is_blank c = c == 32 || (leb 9 c && leb c 13) || (leb 28 c && leb c 31)

strip_left : String → String
unfolding is_blank
strip_left String.[] = ""
strip_left (String.◌∷◌ c s) =
    let rest = strip_left s in if is_blank (code c) then rest else String.◌∷◌ c s

-- The text without the blanks at its end.
strip_right : String → String
unfolding is_blank
strip_right String.[] = ""
strip_right (String.◌∷◌ c s) =
    let rest = strip_right s in
    if str_eq rest "" && is_blank (code c) then "" else String.◌∷◌ c rest

-- The text without its first characters.
unfoldable pub skip : ℕ → String → String
skip zero s = s
skip (suc n) String.[] = ""
skip (suc n) (String.◌∷◌ c s) = skip n s

prepend : List String → String → List String
prepend [] c = c ∷ []
prepend (s ∷ segments) c = String.◌++◌ c s ∷ segments

-- `split(".")`
unfoldable pub split_dots : String → List String
unfolding prepend
split_dots String.[] = "" ∷ []
split_dots (String.◌∷◌ c s) =
    let rest = split_dots s in if code c == b'.' then "" ∷ rest else prepend rest (String.◌∷◌ c "")

-- The segments of a path.
unfoldable pub segments_of : String → List String
unfolding strip_left strip_right
segments_of path =
    let stripped = strip_right (strip_left path) in
    let normalized = if starts_with stripped "$." then skip 2 stripped else stripped in
    if str_eq stripped "$" then [] else (if str_eq normalized "" then [] else split_dots normalized)

-- The digits of a number; the flag says that a digit stands before.
digits : ℕ → Bool → String → Option ℕ
digits n after_digit String.[] = if after_digit then some n else none
digits n after_digit (String.◌∷◌ c s) =
    let underscore = code c == b'_' in
    let m = if underscore then n else n * 10 + (code c - b'0') in
    let rest = digits m (if underscore then false else true) s in
    if underscore
    then (if after_digit then rest else none)
    else (if leb b'0' (code c) && leb (code c) b'9' then rest else none)

-- An index from the front or from the end.
pub data Index : Type 0 where
  front back : ℕ → Index

-- `int(segment)`; `none` is its ValueError.
unfoldable pub index_of : String → Option Index
unfolding digits
index_of String.[] = none
index_of (String.◌∷◌ c s) =
    if code c == b'-'
    then (elim (digits 0 false s) [ none ↦ none | some n ↦ some (back n) ])
    else (if code c == b'+'
        then (elim (digits 0 false s) [ none ↦ none | some n ↦ some (front n) ])
        else (elim (digits 0 false (String.◌∷◌ c s)) [ none ↦ none | some n ↦ some (front n) ]))

module _ {N : Type 0} where
  unfoldable pub length_items : Items N → ℕ
  length_items no_items = 0
  length_items (item v xs) = suc (length_items xs)

  unfoldable pub nth_item : ℕ → Items N → Option (Json N)
  nth_item i no_items = none
  nth_item zero (item v xs) = some v
  nth_item (suc i) (item v xs) = nth_item i xs

  -- `current[index]`; -0 is 0.
  unfoldable pub item_at : Index → Items N → Option (Json N)
  item_at (front n) xs = nth_item n xs
  item_at (back zero) xs = nth_item 0 xs
  item_at (back (suc n)) xs =
      if ltb n (length_items xs) then nth_item (length_items xs - suc n) xs else none

  item_by : Option Index → Items N → Option (Json N)
  item_by none xs = none
  item_by (some i) xs = item_at i xs

  -- One step of the loop of `_extract_path`; `none` is its TargetProtocolError.
  unfoldable pub child : String → Json N → Option (Json N)
  unfolding item_by
  child segment (dict fs) = member segment fs
  child segment (list xs) = item_by (index_of segment) xs
  child segment _ = none

  -- The loop of `_extract_path`.
  unfoldable pub extract : List String → Json N → Result (Json N)
  extract [] current = ok current
  extract (segment ∷ segments) current = elim (child segment current) [
    | none ↦ err protocol_error
    | some next ↦ extract segments next
  ]

  -- `_extract_path`
  unfoldable pub extract_path : String → Json N → Result (Json N)
  extract_path path value = extract (segments_of path) value

segments_test :
    segments_of " $.choices.0.message.content" ≡ "choices" ∷ "0" ∷ "message" ∷ "content" ∷ []
unfolding segments_of split_dots skip
segments_test = refl

index_test : index_of "-12" ≡ some (back 12)
unfolding index_of
index_test = refl
