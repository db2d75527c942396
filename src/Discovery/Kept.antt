-- ===== src/Discovery/Kept.antt =====
-- What the loops over the words of a message keep of the record (lib/discovery.c).
use libfuji.Common.{
  ℕ, ◌<◌, ◌≡◌, List, [], ◌∷◌, Option, none, some, Bool, true, false, if◌then◌else◌, length, subst,
  sym, ◌∙◌,
}
use libfuji.Discovery.Words.{words}
use libfuji.Discovery.{DiscoverInfo, Header, read_headers}
use libfuji.Discovery.Headers.{stored, read_headers-stored}

abbrev Store : Type 0
Store = List ℕ → DiscoverInfo → DiscoverInfo

module _ (P : DiscoverInfo → Type 0) where
  -- A word's value, wherever it is stored, keeps `P`.
  abbrev pub KeepsInfo : Option Store → Type 0
  KeepsInfo none = Unit
  KeepsInfo (some f) = (v : List ℕ) (info : DiscoverInfo) → P info → P (f v info)

  pub if-KeepsInfo :
      (b : Bool) (x y : Option Store) → KeepsInfo x → KeepsInfo y → KeepsInfo (if b then x else y)
  if-KeepsInfo true x y h k = h
  if-KeepsInfo false x y h k = k

module _ (P : DiscoverInfo → Type 0) (header : Header)
    (keeps : (w : List ℕ) → KeepsInfo P (header w)) where
  stored-keeps : (ws : List (List ℕ)) (info : DiscoverInfo) → P info → P (stored header ws info).0
  unfolding stored
  stored-keeps [] info h = h
  stored-keeps (w ∷ []) info h = go (header w)
    where
      go :
          (o : Option Store)
          → P
              (elim o as (λ x. DiscoverInfo × Bool) [
                | none ↦ (info, true)
                | some f ↦ (info, false)
              ]).0
      go none = h
      go (some f) = h
  stored-keeps (w ∷ v ∷ ws) info h =
      go (header w) (keeps w) (stored-keeps (v ∷ ws) info h) (λ i. stored-keeps ws i)
    where
      go :
          (o : Option Store)
          → KeepsInfo P o
          → P (stored header (v ∷ ws) info).0
          → ((i : DiscoverInfo) → P i → P (stored header ws i).0)
          → P
              (elim o as (λ x. DiscoverInfo × Bool) [
                | none ↦ stored header (v ∷ ws) info
                | some f ↦ stored header ws (f v info)
              ]).0
      go none k a b = a
      go (some f) k a b = b (f v info) (k v info h)

  Holds : Option (DiscoverInfo × Bool) → Type 0
  Holds none = Unit
  Holds (some (info, fine)) = P info

  -- Where the loop ends, an error included, what held before holds.
  pub read_headers-keeps :
      (s : List ℕ) (info info' : DiscoverInfo) (fuel : ℕ) (fine : Bool)
      → P info
      → length s < fuel
      → read_headers fuel header s info ≡ some (info', fine)
      → P info'
  unfolding Holds
  read_headers-keeps s info info' fuel fine h l e =
      subst Holds (sym (read_headers-stored header fuel s info l) ∙ e)
        (stored-keeps (words s) info h)
