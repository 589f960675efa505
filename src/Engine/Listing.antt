-- ===== src/Engine/Listing.antt =====
-- The map of the books: what reads, writes and deletions keep.
use tiger_swap.Prelude.{
  ◌≡◌, refl, inl, inr, true, false, List, [], ◌∷◌, none, some, All, Bool-cases, String, ◌∙◌, sym,
  subst,
}
use text.Mathlib.Text.{◌==◌ as str_eq}
use text.Mathlib.TextEquality.{eq_iff}
use tiger_swap.OrderBook.Book.{Book}
use tiger_swap.OrderBook.Matching.{BookOk}
use tiger_swap.Engine.{find_book, put_book, delete_book}

Books : Type 0
Books = List (String × Book)

-- No pair is listed twice.
abbrev pub Distinct : List (String × Book) → Type 0
Distinct [] = Unit {0}
Distinct (kb ∷ kbs) = (find_book kb.0 kbs ≡ none) × Distinct kbs

abbrev pub AllValid : List (String × Book) → Type 0
AllValid kbs = All (λ (kb : String × Book). BookOk kb.1) kbs

pub find_book-valid :
    (p : String) (kbs : List (String × Book)) (b : Book)
    → AllValid kbs
    → find_book p kbs ≡ some b
    → BookOk b
unfolding find_book
find_book-valid p [] b a e = absurd (cc)
find_book-valid p (kb ∷ kbs) b a e = elim (Bool-cases (str_eq kb.0 p)) [
  | inl hit ↦ let same : some kb.1 ≡ some b = rw (hit, find_book) at e in subst BookOk (cc) a.0
  | inr miss ↦ find_book-valid p kbs b a.1 (rw (miss, find_book) at e)
]

pub put_book-valid :
    (p : String) (b : Book) (kbs : List (String × Book))
    → BookOk b
    → AllValid kbs
    → AllValid (put_book p b kbs)
unfolding put_book
put_book-valid p b [] ok a = (ok, tt)
put_book-valid p b (kb ∷ kbs) ok a = elim (Bool-cases (str_eq kb.0 p)) [
  | inl hit ↦ rw hit (ok, a.1)
  | inr miss ↦ rw miss (a.0, put_book-valid p b kbs ok a.1)
]

pub delete_book-valid :
    (p : String) (kbs : List (String × Book)) → AllValid kbs → AllValid (delete_book p kbs)
unfolding delete_book
delete_book-valid p [] a = tt
delete_book-valid p (kb ∷ kbs) a = elim (Bool-cases (str_eq kb.0 p)) [
  | inl hit ↦ rw hit a.1
  | inr miss ↦ rw miss (a.0, delete_book-valid p kbs a.1)
]

str_eq-both : (k p q : String) → str_eq k p ≡ true → str_eq k q ≡ true → str_eq p q ≡ true
str_eq-both k p q h g = let kp : k ≡ p = (eq_iff k p).0 h in subst (λ s. str_eq s q ≡ true) kp g

-- A write under another key is not seen.
pub find_book-put_other :
    (p q : String) (b : Book) (kbs : List (String × Book))
    → str_eq p q ≡ false
    → find_book q (put_book p b kbs) ≡ find_book q kbs
unfolding find_book put_book
find_book-put_other p q b [] ne = rw ne refl
find_book-put_other p q b (kb ∷ kbs) ne = elim (Bool-cases (str_eq kb.0 p)) [
  | inl hit ↦ elim (Bool-cases (str_eq kb.0 q)) [
    | inl hit' ↦ absurd (let both = str_eq-both kb.0 p q hit hit' in cc)
    | inr miss' ↦ rw (hit, miss', put_book, find_book) refl
  ]
  | inr miss ↦ elim (Bool-cases (str_eq kb.0 q)) [
    | inl hit' ↦ rw (miss, hit', put_book, find_book) refl
    | inr miss' ↦ rw (miss, miss', put_book, find_book) (find_book-put_other p q b kbs ne)
  ]
]

find_book-delete_none :
    (p q : String) (kbs : List (String × Book))
    → find_book q kbs ≡ none
    → find_book q (delete_book p kbs) ≡ none
unfolding find_book delete_book
find_book-delete_none p q [] n = refl
find_book-delete_none p q (kb ∷ kbs) n = elim (Bool-cases (str_eq kb.0 q)) [
  | inl hit ↦ absurd (let bad : some kb.1 ≡ none = rw (hit, find_book) at n in cc)
  | inr miss ↦
      let below : find_book q kbs ≡ none = rw (miss, find_book) at n in
      elim (Bool-cases (str_eq kb.0 p)) [
        | inl hit ↦ rw (hit, delete_book) below
        | inr keep ↦
            rw (keep, delete_book) (rw (miss, find_book) (find_book-delete_none p q kbs below))
      ]
]

pub put_book-Distinct :
    (p : String) (b : Book) (kbs : List (String × Book))
    → Distinct kbs
    → Distinct (put_book p b kbs)
unfolding put_book
put_book-Distinct p b [] d = (unfold find_book in refl, tt)
put_book-Distinct p b (kb ∷ kbs) d = elim (Bool-cases (str_eq kb.0 p)) [
  | inl hit ↦ rw hit d
  | inr miss ↦
      rw miss
        (find_book-put_other p kb.0 b kbs (other kb.0 miss) ∙ d.0, put_book-Distinct p b kbs d.1)
]
  where
    other : (k : String) → str_eq k p ≡ false → str_eq p k ≡ false
    other k ne = elim (Bool-cases (str_eq p k)) [
      | inl e ↦ absurd (
          let same : p ≡ k = (eq_iff p k).0 e in
          let here : str_eq k p ≡ true = (eq_iff k p).1 (sym same) in cc)
      | inr n ↦ n
    ]

pub delete_book-Distinct :
    (p : String) (kbs : List (String × Book)) → Distinct kbs → Distinct (delete_book p kbs)
unfolding delete_book
delete_book-Distinct p [] d = tt
delete_book-Distinct p (kb ∷ kbs) d = elim (Bool-cases (str_eq kb.0 p)) [
  | inl hit ↦ rw hit d.1
  | inr miss ↦ rw miss (find_book-delete_none p kb.0 kbs d.0, delete_book-Distinct p kbs d.1)
]
