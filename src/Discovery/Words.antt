-- ===== src/Discovery/Words.antt =====
-- `strtok_r` as lib/discovery.c uses it: the words of a message, between spaces, colons and line
-- ends. A C string is the list of its bytes, without the terminator.
use libfuji.Common.{
  inl, inr, Bool-cases, ℕ, ◌<◌, ◌≤◌, ◌≡◌, refl, sym, ◌∙◌, ap, List, [], ◌∷◌, ◌++◌, append_assoc,
  append-nil, Option, none, some, Bool, true, false, ◌==◌, ◌||◌, if◌then◌else◌, length, arith,
}

-- `" :\r\n"`.
unfoldable pub is_delim : ℕ → Bool
is_delim c = c == 32 || c == 58 || c == 13 || c == 10

unfoldable pub skip_delims : List ℕ → List ℕ
skip_delims [] = []
skip_delims (c ∷ cs) = if is_delim c then skip_delims cs else c ∷ cs

-- The bytes up to the next delimiter, and what is behind it.
unfoldable pub span_word : List ℕ → List ℕ × List ℕ
span_word [] = ([], [])
span_word (c ∷ cs) =
    let (word, rest) = span_word cs in if is_delim c then ([], cs) else (c ∷ word, rest)

unfoldable pub first_word : List ℕ → Option (List ℕ × List ℕ)
first_word [] = none
first_word (c ∷ cs) = some (span_word (c ∷ cs))

-- The next word and the rest of the string.
unfoldable pub strtok_r : List ℕ → Option (List ℕ × List ℕ)
strtok_r s = first_word (skip_delims s)

-- All words of a string, in one pass, with the part of the current word that has been read.
unfoldable pub finish_word : List ℕ → List (List ℕ) → List (List ℕ)
finish_word [] ws = ws
finish_word (c ∷ cs) ws = (c ∷ cs) ∷ ws

unfoldable pub words_from : List ℕ → List ℕ → List (List ℕ)
words_from word [] = finish_word word []
words_from word (c ∷ cs) =
    if is_delim c then finish_word word (words_from [] cs) else words_from (word ++ c ∷ []) cs

unfoldable pub words : List ℕ → List (List ℕ)
words s = words_from [] s

words_from-delim :
    (word : List ℕ) (c : ℕ) (cs : List ℕ)
    → is_delim c ≡ true
    → words_from word (c ∷ cs) ≡ finish_word word (words_from [] cs)
unfolding words_from
words_from-delim word c cs e = rw e refl

words_from-char :
    (word : List ℕ) (c : ℕ) (cs : List ℕ)
    → is_delim c ≡ false
    → words_from word (c ∷ cs) ≡ words_from (word ++ c ∷ []) cs
unfolding words_from
words_from-char word c cs e = rw e refl

words-skip_delims : (s : List ℕ) → words (skip_delims s) ≡ words s
unfolding words skip_delims finish_word
words-skip_delims [] = refl
words-skip_delims (c ∷ cs) = elim (Bool-cases (is_delim c)) [
  | inl e ↦ rw (skip_delims, e) (words-skip_delims cs ∙ sym (words_from-delim [] c cs e))
  | inr e ↦ rw (skip_delims, e) refl
]

words_from-span_word :
    (x : ℕ) (w s : List ℕ)
    → words_from (x ∷ w) s ≡ ((x ∷ w) ++ (span_word s).0) ∷ words (span_word s).1
unfolding words span_word words_from finish_word
words_from-span_word x w [] = ap (λ (u : List ℕ). u ∷ []) (sym (append-nil (x ∷ w)))
words_from-span_word x w (c ∷ cs) = elim (Bool-cases (is_delim c)) [
  | inl e ↦ rw (span_word, e) (ap (λ (u : List ℕ). u ∷ words_from [] cs) (sym (append-nil (x ∷ w))))
  | inr e ↦
      rw (span_word, e)
        (words_from-span_word x (w ++ c ∷ []) cs
          ∙ ap (λ (u : List ℕ). u ∷ words_from [] (span_word cs).1)
              (append_assoc (x ∷ w) (c ∷ []) (span_word cs).0))
]

span_word-shorter : (s : List ℕ) → length (span_word s).1 ≤ length s
unfolding span_word
span_word-shorter [] = omega arith
span_word-shorter (c ∷ cs) = elim (Bool-cases (is_delim c)) [
  | inl e ↦ rw (span_word, e) (omega arith)
  | inr e ↦ rw (span_word, e) (omega (arith, span_word-shorter cs))
]

skip_delims-shorter : (s : List ℕ) → length (skip_delims s) ≤ length s
unfolding skip_delims
skip_delims-shorter [] = omega arith
skip_delims-shorter (c ∷ cs) = elim (Bool-cases (is_delim c)) [
  | inl e ↦ rw (skip_delims, e) (omega (arith, skip_delims-shorter cs))
  | inr e ↦ rw (skip_delims, e) (omega arith)
]

-- Behind the delimiters a word starts.
IsStart : List ℕ → Type 0
IsStart [] = Unit
IsStart (c ∷ cs) = is_delim c ≡ false

skip_delims-IsStart : (s : List ℕ) → IsStart (skip_delims s)
unfolding skip_delims IsStart
skip_delims-IsStart [] = tt
skip_delims-IsStart (c ∷ cs) = elim (Bool-cases (is_delim c)) [
  | inl e ↦ rw (skip_delims, e) (skip_delims-IsStart cs)
  | inr e ↦ rw (skip_delims, e) e
]

-- What a call says of the words of the string, and of what is left.
abbrev pub IsNextWord : List ℕ → Option (List ℕ × List ℕ) → Type 0
IsNextWord s none = words s ≡ []
IsNextWord s (some (word, rest)) = (words s ≡ word ∷ words rest) × (length rest < length s)

span_word-start :
    (c : ℕ) (cs : List ℕ)
    → is_delim c ≡ false
    → span_word (c ∷ cs) ≡ (c ∷ (span_word cs).0, (span_word cs).1)
unfolding span_word
span_word-start c cs h = rw h refl

first-IsNextWord :
    (s t : List ℕ)
    → IsStart t
    → words t ≡ words s
    → length t ≤ length s
    → IsNextWord s (first_word t)
unfolding first_word words words_from finish_word IsStart
first-IsNextWord s [] h e l = sym e
first-IsNextWord s (c ∷ cs) h e l = rw (span_word-start c cs h) (
  sym e ∙ words_from-char [] c cs h ∙ words_from-span_word c [] cs,
  omega (arith, l, span_word-shorter cs),
)

pub strtok_r-IsNextWord : (s : List ℕ) → IsNextWord s (strtok_r s)
unfolding strtok_r
strtok_r-IsNextWord s =
    first-IsNextWord s (skip_delims s) (skip_delims-IsStart s) (words-skip_delims s)
      (skip_delims-shorter s)
