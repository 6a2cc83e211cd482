-- ===== src/Services/Secrets/Names.antt =====
-- Which fields hold a secret: `_is_secret_field` of src/rag_eval/services/secret_service.py, and the
-- names that secrets get from their paths. Field names are taken to be ASCII, where `lower` and
-- `strip` change only these characters.
use Prim.Native.Char.{code}
use Prim.Native.String
use Prim.Native.String.{String}
use rag_eval.Prelude.{
  ℕ, ◌+◌, Bool, true, false, ◌&&◌, ◌||◌, Option, none, some, List, [], ◌∷◌, map, any, leb, ◌==◌,
  ◌≡◌, ◌↔◌, ◌⊎◌, refl, arith, inl, inr, Bool-cases, if◌then◌else◌,
}
use rag_eval.Prelude.Decimal.{index_text}

-- The characters of a text.
abbrev pub codes : String → List ℕ
codes String.[] = []
codes (String.◌∷◌ c s) = code c ∷ codes s

lower : ℕ → ℕ
lower c = if leb b'A' c && leb c b'Z' then c + 32 else c

is_alphanumeric : ℕ → Bool
is_alphanumeric c = (leb b'a' c && leb c b'z') || (leb b'0' c && leb c b'9')

-- `re.sub(r"[^a-z0-9]+", "_", value)`; the flag says that the last character was replaced.
replace_others : Bool → List ℕ → List ℕ
unfolding is_alphanumeric
replace_others replaced [] = []
replace_others replaced (c ∷ cs) =
    let rest = replace_others (if is_alphanumeric c then false else true) cs in
    if is_alphanumeric c then c ∷ rest else (if replaced then rest else b'_' ∷ rest)

drop_while : (ℕ → Bool) → List ℕ → List ℕ
drop_while p [] = []
drop_while p (c ∷ cs) = if p c then drop_while p cs else c ∷ cs

reverse_onto : List ℕ → List ℕ → List ℕ
reverse_onto acc [] = acc
reverse_onto acc (c ∷ cs) = reverse_onto (c ∷ acc) cs

-- `strip`, of the characters that a test picks.
strip : (ℕ → Bool) → List ℕ → List ℕ
unfolding drop_while reverse_onto
strip p cs = reverse_onto [] (drop_while p (reverse_onto [] (drop_while p cs)))

is_blank : ℕ → Bool
is_blank c = c == 32 || (leb 9 c && leb c 13) || (leb 28 c && leb c 31)

-- `_normalize_field_name`
unfoldable pub normalize_field_name : List ℕ → List ℕ
unfolding lower replace_others strip is_blank
normalize_field_name cs =
    strip (λ c. c == b'_') (replace_others false (map lower (strip is_blank cs)))

same_codes : List ℕ → List ℕ → Bool
same_codes [] [] = true
same_codes [] (b ∷ bs) = false
same_codes (a ∷ cs) [] = false
same_codes (a ∷ cs) (b ∷ bs) = if a == b then same_codes cs bs else false

-- `endswith`: a suffix of the text is the other.
ends_with : List ℕ → List ℕ → Bool
unfolding same_codes
ends_with suffix [] = same_codes suffix []
ends_with suffix (c ∷ cs) = same_codes suffix (c ∷ cs) || ends_with suffix cs

-- `_SECRET_FIELD_NAMES`
abbrev pub secret_field_names : List String
secret_field_names =
    "password" ∷ "passphrase" ∷ "token" ∷ "access_token" ∷ "refresh_token" ∷ "auth_token"
    ∷ "bearer_token" ∷ "api_key" ∷ "apikey" ∷ "client_secret" ∷ "secret_key" ∷ "private_key"
    ∷ "authorization" ∷ "proxy_authorization" ∷ "x_api_key" ∷ []

-- `_SECRET_FIELD_SUFFIXES`
abbrev pub secret_field_suffixes : List String
secret_field_suffixes =
    "_password" ∷ "_passphrase" ∷ "_token" ∷ "_api_key" ∷ "_client_secret" ∷ "_secret_key"
    ∷ "_private_key" ∷ []

-- `_is_secret_field`
unfoldable pub is_secret_field : String → Bool
unfolding normalize_field_name same_codes ends_with
is_secret_field name =
    let normalized = normalize_field_name (codes name) in
    any (λ known. same_codes (codes known) normalized) secret_field_names
    || any (λ suffix. ends_with (codes suffix) normalized) secret_field_suffixes

-- `_uses_bearer_auth`
unfoldable pub uses_bearer_auth : Option String → Bool
unfolding lower strip is_blank same_codes
uses_bearer_auth none = false
uses_bearer_auth (some kind) =
    let normalized = map lower (strip is_blank (codes kind)) in
    any (λ known. same_codes (codes known) normalized)
      ("bearer" ∷ "bearer_token" ∷ "token" ∷ "auth_token" ∷ [])

same_codes_iff : (xs ys : List ℕ) → (same_codes xs ys ≡ true) ↔ (ys ≡ xs)
unfolding same_codes
same_codes_iff [] [] = ((λ h. refl), λ h. refl)
same_codes_iff [] (y ∷ ys) = ((λ h. absurd (ground arith)), λ h. absurd (ground arith))
same_codes_iff (x ∷ xs) [] = ((λ h. absurd (ground arith)), λ h. absurd (ground arith))
same_codes_iff (x ∷ xs) (y ∷ ys) = ground (arith, same_codes_iff xs ys)

IsOneOf : List ℕ → List String → Type 0
IsOneOf name [] = ⊥
IsOneOf name (known ∷ others) = (name ≡ codes known) ⊎ IsOneOf name others

any-IsOneOf :
    (name : List ℕ) (known : List String)
    → (any (λ k. same_codes (codes k) name) known ≡ true) ↔ IsOneOf name known
unfolding IsOneOf
any-IsOneOf name [] = ((λ h. absurd (ground arith)), λ h. absurd h)
any-IsOneOf name (k ∷ known) =
    let one = same_codes_iff (codes k) name in
    let rest = any-IsOneOf name known in
    elim (Bool-cases (same_codes (codes k) name)) [
      | inl same ↦ ((λ h. inl (one.0 same)), λ h. rw same refl)
      | inr other ↦ (
        λ h. inr (rest.0 (rw other at h)),
        λ h. elim h [
          | inl e ↦ absurd (ground (arith, other, one.1 e))
          | inr later ↦ rw other (rest.1 later)
        ],
      )
    ]

-- A type of authentication that names the bearer kind, but for case and surrounding blanks.
pub IsBearer : Option String → Type 0
unfolding IsOneOf lower strip is_blank
IsBearer none = ⊥
IsBearer (some kind) =
    IsOneOf (map lower (strip is_blank (codes kind)))
      ("bearer" ∷ "bearer_token" ∷ "token" ∷ "auth_token" ∷ [])

pub uses_bearer_auth_iff : (kind : Option String) → (uses_bearer_auth kind ≡ true) ↔ IsBearer kind
unfolding uses_bearer_auth IsBearer
uses_bearer_auth_iff none = ((λ h. absurd (ground arith)), λ h. absurd h)
uses_bearer_auth_iff (some kind) =
    any-IsOneOf (map lower (strip is_blank (codes kind)))
      ("bearer" ∷ "bearer_token" ∷ "token" ∷ "auth_token" ∷ [])

-- `_format_path`; `none` is its ValueError.
unfoldable pub format_path : List String → Option String
format_path [] = none
format_path (part ∷ []) = some part
format_path (part ∷ next ∷ path) = elim (format_path (next ∷ path)) [
  | none ↦ none
  | some rest ↦ some (String.◌++◌ part (String.◌++◌ "." rest))
]

api_key_test : is_secret_field " X-Api--Key" ≡ true
unfolding is_secret_field
api_key_test = refl

secret_id_test : is_secret_field "secret_id" ≡ false
unfolding is_secret_field
secret_id_test = refl

path_test : format_path ("auth" ∷ "tokens" ∷ index_text 120 ∷ []) ≡ some "auth.tokens.120"
unfolding format_path index_text
path_test = refl
