-- ===== src/Discovery/Headers.antt =====
-- The loops over the words of a message (lib/discovery.c), against the list of its words.
use libfuji.Common.{
  ℕ, zero, suc, ◌<◌, ◌≡◌, refl, sym, ◌∙◌, ap, List, [], ◌∷◌, Option, none, some, Bool, true, false,
  length, arith,
}
use libfuji.Discovery.Words.{strtok_r, words, IsNextWord, strtok_r-IsNextWord}
use libfuji.Discovery.{DiscoverInfo, Header, read_headers}

-- The values behind the words that take one, stored in order; a word that takes one and stands
-- last is an error.
unfoldable pub stored : Header → List (List ℕ) → DiscoverInfo → DiscoverInfo × Bool
stored header [] info = (info, true)
stored header (w ∷ []) info = elim (header w) [ none ↦ (info, true) | some store ↦ (info, false) ]
stored header (w ∷ v ∷ ws) info = elim (header w) [
  | none ↦ stored header (v ∷ ws) info
  | some store ↦ stored header ws (store v info)
]

abbrev Store : Type 0
Store = List ℕ → DiscoverInfo → DiscoverInfo

module _ (header : Header) where
  stored-skip :
      (w : List ℕ) (ws : List (List ℕ)) (info : DiscoverInfo)
      → header w ≡ none
      → stored header (w ∷ ws) info ≡ stored header ws info
  unfolding stored
  stored-skip w [] info e = rw (stored, e) refl
  stored-skip w (v ∷ ws) info e = rw (stored, e) refl

  stored-last :
      (w : List ℕ) (info : DiscoverInfo) (f : Store)
      → header w ≡ some f
      → stored header (w ∷ []) info ≡ (info, false)
  unfolding stored
  stored-last w info f e = rw (stored, e) refl

  stored-value :
      (w v : List ℕ) (ws : List (List ℕ)) (info : DiscoverInfo) (f : Store)
      → header w ≡ some f
      → stored header (w ∷ v ∷ ws) info ≡ stored header ws (f v info)
  unfolding stored
  stored-value w v ws info f e = rw (stored, e) refl

module _ (header : Header) (fuel : ℕ)
    (ih : (s : List ℕ) (info : DiscoverInfo)
      → length s < fuel
      → read_headers fuel header s info ≡ some (stored header (words s) info))
    (s : List ℕ) (info : DiscoverInfo) (l : length s < suc fuel) where
  nothing : some (stored header [] info) ≡ some (info, true)
  unfolding stored
  nothing = refl

  second :
      (w t : List ℕ) (f : Store) (o : Option (List ℕ × List ℕ))
      → header w ≡ some f
      → words s ≡ w ∷ words t
      → length t < length s
      → IsNextWord t o
      → elim o as (λ x. Option (DiscoverInfo × Bool)) [
        | none ↦ some (info, false)
        | some q ↦ read_headers fuel header q.1 (f q.0 info)
      ]
        ≡ some (stored header (words s) info)
  second w t f none h e k n = sym (
      ap (λ (ws : List (List ℕ)). some (stored header ws info))
        (e ∙ ap (λ (u : List (List ℕ)). w ∷ u) n)
      ∙ ap some (stored-last header w info f h))
  second w t f (some (v, u)) h e k (n, m) =
      ih u (f v info) (omega (arith, l, k, m))
      ∙ sym (
          ap (λ (ws : List (List ℕ)). some (stored header ws info))
            (e ∙ ap (λ (u : List (List ℕ)). w ∷ u) n)
          ∙ ap some (stored-value header w v (words u) info f h))

  third :
      (w t : List ℕ) (o : Option Store)
      → header w ≡ o
      → words s ≡ w ∷ words t
      → length t < length s
      → elim o as (λ x. Option (DiscoverInfo × Bool)) [
        | none ↦ read_headers fuel header t info
        | some store ↦ elim (strtok_r t) as (λ x. Option (DiscoverInfo × Bool)) [
          | none ↦ some (info, false)
          | some q ↦ read_headers fuel header q.1 (store q.0 info)
        ]
      ]
        ≡ some (stored header (words s) info)
  third w t none h e k =
      ih t info (omega (arith, l, k))
      ∙ sym (
          ap (λ (ws : List (List ℕ)). some (stored header ws info)) e
          ∙ ap some (stored-skip header w (words t) info h))
  third w t (some f) h e k = second w t f (strtok_r t) h e k (strtok_r-IsNextWord t)

  first :
      (o : Option (List ℕ × List ℕ))
      → IsNextWord s o
      → elim o as (λ x. Option (DiscoverInfo × Bool)) [
        | none ↦ some (info, true)
        | some p ↦ elim (header p.0) as (λ x. Option (DiscoverInfo × Bool)) [
          | none ↦ read_headers fuel header p.1 info
          | some store ↦ elim (strtok_r p.1) as (λ x. Option (DiscoverInfo × Bool)) [
            | none ↦ some (info, false)
            | some q ↦ read_headers fuel header q.1 (store q.0 info)
          ]
        ]
      ]
        ≡ some (stored header (words s) info)
  first none e = sym (ap (λ (ws : List (List ℕ)). some (stored header ws info)) e ∙ nothing)
  first (some (w, t)) (e, k) = third w t (header w) refl e k

module _ (header : Header) where
  -- The loop over the string, with a round for each byte and one more, stores what the list of the
  -- string's words says, and ends with an error exactly where that does.
  pub read_headers-stored :
      (fuel : ℕ) (s : List ℕ) (info : DiscoverInfo)
      → length s < fuel
      → read_headers fuel header s info ≡ some (stored header (words s) info)
  unfolding read_headers
  read_headers-stored zero s info l = absurd (omega (arith, l))
  read_headers-stored (suc fuel) s info l =
      first header fuel (read_headers-stored fuel) s info l (strtok_r s) (strtok_r-IsNextWord s)
