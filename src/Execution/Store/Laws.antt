-- ===== src/Execution/Store/Laws.antt =====
-- Laws of the attempt rows and the observation rows of one case
-- (src/rag_eval/db/test_repository.py and src/rag_eval/db/target_repository.py).
use rag_eval.Prelude.{ℕ, ◌<◌, ◌≡◌, ◌≢◌, none, some, List, [], ◌∷◌, ◌++◌, length, refl, arith}
use rag_eval.Execution.Store.{Attempt, latest_attempt, get_attempt, update_attempt, highest}

-- A row function that keeps the number, as all updates do.
abbrev pub KeepsNumber : (Attempt → Attempt) → Type 0
KeepsNumber f = (a : Attempt) → (f a).attempt_number ≡ a.attempt_number

pub get_attempt-update :
    (n m : ℕ) (f : Attempt → Attempt) (rows : List Attempt)
    → KeepsNumber f
    → get_attempt m rows ≢ none
    → get_attempt m (update_attempt n f rows) ≢ none
unfolding get_attempt update_attempt
get_attempt-update n m f [] k h = h
get_attempt-update n m f (a ∷ rows) k h = ground (arith, k a, get_attempt-update n m f rows k)

pub get_attempt-append :
    (m : ℕ) (rows more : List Attempt)
    → get_attempt m rows ≢ none
    → get_attempt m (rows ++ more) ≢ none
unfolding get_attempt
get_attempt-append m [] more h = ground arith
get_attempt-append m (a ∷ rows) more h = ground (arith, get_attempt-append m rows more)

pub get_attempt-append_last :
    (rows : List Attempt) (a : Attempt) → get_attempt a.attempt_number (rows ++ a ∷ []) ≢ none
unfolding get_attempt
get_attempt-append_last [] a = ground arith
get_attempt-append_last (b ∷ rows) a = ground (arith, get_attempt-append_last rows a)

pub length-update_attempt :
    (n : ℕ) (f : Attempt → Attempt) (rows : List Attempt)
    → length (update_attempt n f rows) ≡ length rows
unfolding update_attempt
length-update_attempt n f [] = refl
length-update_attempt n f (a ∷ rows) = ground (arith, length-update_attempt n f rows)

-- A row whose number is above all others is the latest.
pub latest_attempt-append :
    (rows : List Attempt) (a : Attempt)
    → highest rows < a.attempt_number
    → latest_attempt (rows ++ a ∷ []) ≡ some a
unfolding latest_attempt highest
latest_attempt-append [] a h = refl
latest_attempt-append (b ∷ rows) a h = ground (arith, latest_attempt-append rows a)

-- The latest attempt is one of the rows.
pub get_attempt-latest :
    (rows : List Attempt) (a : Attempt)
    → latest_attempt rows ≡ some a
    → get_attempt a.attempt_number rows ≢ none
unfolding latest_attempt get_attempt
get_attempt-latest [] a h = ground arith
get_attempt-latest (b ∷ rows) a h = ground (arith, get_attempt-latest rows a)

-- Writing the row behind lower numbers.
pub update_attempt-append :
    (rows : List Attempt) (a : Attempt) (f : Attempt → Attempt)
    → highest rows < a.attempt_number
    → update_attempt a.attempt_number f (rows ++ a ∷ []) ≡ rows ++ f a ∷ []
unfolding update_attempt highest
update_attempt-append [] a f h = ground arith
update_attempt-append (b ∷ rows) a f h = ground (arith, update_attempt-append rows a f)

-- No row has a number above all others.
pub get_attempt-fresh : (n : ℕ) (rows : List Attempt) → highest rows < n → get_attempt n rows ≡ none
unfolding get_attempt highest
get_attempt-fresh n [] h = refl
get_attempt-fresh n (a ∷ rows) h = ground (arith, get_attempt-fresh n rows)
