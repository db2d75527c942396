-- ===== src/Calls/Counts.antt =====
-- Which descriptors and references are held, along a chain of calls: one rule for each way to build
-- it.
use libfuji.Common.{
  ℕ, ◌≡◌, refl, ◌∙◌, sym, ap, ◌⊎◌, inl, inr, Bool, true, false, ◌||◌, ◌==◌, if◌then◌else◌, List, [],
  ◌∷◌, Option, none, some, arith,
}
use libfuji.Calls.{Io, done, undefined, ask, tell, look, using, is_negative, is_positive}

-- A descriptor, or a reference to a service or a characteristic.
pub data Handle : Type 0 where
  descriptor : ℕ → Handle
  service : ℕ → Handle
  characteristic : ℕ → Handle

unfoldable pub is_same : Handle → Handle → Bool
is_same (descriptor x) (descriptor y) = x == y
is_same (service x) (service y) = x == y
is_same (characteristic x) (characteristic y) = x == y
is_same g h = false

unfoldable pub is_held : Handle → List Handle → Bool
is_held h [] = false
is_held h (g ∷ l) = is_same h g || is_held h l

-- Once less.
unfoldable pub remove : Handle → List Handle → List Handle
remove h [] = []
remove h (g ∷ l) = let rest : List Handle = remove h l in if is_same h g then l else g ∷ rest

is_same_refl : (h : Handle) → is_same h h ≡ true
unfolding is_same
is_same_refl (descriptor x) = ground arith
is_same_refl (service x) = ground arith
is_same_refl (characteristic x) = ground arith

remove-head : (h : Handle) (l : List Handle) → remove h (h ∷ l) ≡ l
unfolding remove
remove-head h l = rw (is_same_refl h) refl

remove-service :
    (s c : ℕ) (l : List Handle)
    → remove (service s) (characteristic c ∷ service s ∷ l) ≡ characteristic c ∷ l
unfolding remove is_same
remove-service s c l = let e : (s == s) ≡ true = ground arith in rw e refl

-- What holds where the function returns.
abbrev pub Returns : {W A : Type 0} → (W → A → Type 0) → Option (W × A) → Type 0
Returns P none = Unit
Returns P (some (w, a)) = P w a

-- From a state that holds `n`, the function comes to one that holds what goes with its result.
pub record Counts {W A : Type 0} (count : W → List Handle) (n : List Handle) (f : Io W A)
    (Q : List Handle → A → Type 0) : Type 0 where
  pub at : (w : W) → count w ≡ n → Returns (λ w' a. Q (count w') a) (f w)

-- The call leaves what is held alone.
abbrev pub Ignores : {W B : Type 0} → (W → List Handle) → (W → W × B) → Type 0
Ignores {W} count op = (w : W) → count (op w).0 ≡ count w

abbrev pub Leaves : {W : Type 0} → (W → List Handle) → (W → W) → Type 0
Leaves {W} count op = (w : W) → count (op w) ≡ count w

-- What `h` stands for is given back; where it is not held, nothing is.
abbrev pub Releases : {W : Type 0} → (W → List Handle) → Handle → (W → W) → Type 0
Releases {W} count h op = (w : W) → count (op w) ≡ remove h (count w)

-- A new descriptor where the result is positive, and otherwise it is negative.
abbrev pub Opens : {W : Type 0} → (W → List Handle) → (W → W × ℕ) → Type 0
Opens {W} count op =
    (w : W)
    → ((is_negative (op w).1 ≡ true) × (count (op w).0 ≡ count w))
      ⊎ ((is_positive (op w).1 ≡ true)
          × (is_held (descriptor (op w).1) (count w) ≡ false)
          × (count (op w).0 ≡ descriptor (op w).1 ∷ count w))

-- One more reference where there is a result.
abbrev pub Acquires :
    {W B : Type 0} → (W → List Handle) → (B → Handle) → (W → W × Option B) → Type 0
Acquires {W} count handle op =
    (w : W)
    → count (op w).0
      ≡ elim (op w).1 as (λ o. List Handle) [ none ↦ count w | some b ↦ handle b ∷ count w ]

module _ {W A : Type 0} {count : W → List Handle} {n : List Handle}
    {Q : List Handle → A → Type 0} where
  pub Counts-done : (a : A) → Q n a → Counts count n (done a) Q
  unfolding done
  Counts-done a q = record { at = λ w e. rw e q }

  pub Counts-undefined : Counts count n undefined Q
  unfolding undefined
  Counts-undefined = record { at = λ w e. tt }

  pub Counts-ask :
      {B : Type 0} (op : W → W × B) (k : B → Io W A)
      → Ignores count op
      → ((b : B) → Counts count n (k b) Q)
      → Counts count n (ask op k) Q
  unfolding ask
  Counts-ask op k h hk = record { at = λ w e. (hk (op w).1).at (op w).0 (h w ∙ e) }

  -- The same, with something known of the result.
  pub Counts-knowing :
      {B : Type 0} (P : B → Type 0) (op : W → W × B) (k : B → Io W A)
      → ((w : W) → P (op w).1)
      → Ignores count op
      → ((b : B) → P b → Counts count n (k b) Q)
      → Counts count n (ask op k) Q
  unfolding ask
  Counts-knowing P op k p h hk = record { at = λ w e. (hk (op w).1 (p w)).at (op w).0 (h w ∙ e) }

  pub Counts-tell :
      (op : W → W) (f : Io W A)
      → Leaves count op
      → Counts count n f Q
      → Counts count n (tell op f) Q
  unfolding tell
  Counts-tell op f h hf = record { at = λ w e. hf.at (op w) (h w ∙ e) }

  pub Counts-remove :
      (h : Handle) (m : List Handle) (op : W → W) (f : Io W A)
      → Releases count h op
      → remove h m ≡ n
      → Counts count n f Q
      → Counts count m (tell op f) Q
  unfolding tell
  Counts-remove h m op f r k hf = record { at = λ w e. hf.at (op w) (r w ∙ ap (remove h) e ∙ k) }

  pub Counts-release :
      {h : Handle} (op : W → W) (f : Io W A)
      → Releases count h op
      → Counts count n f Q
      → Counts count (h ∷ n) (tell op f) Q
  Counts-release {h} op f r hf = Counts-remove h (h ∷ n) op f r (remove-head h n) hf

  pub Counts-look :
      {B : Type 0} (get : W → B) (k : B → Io W A)
      → ((b : B) → Counts count n (k b) Q)
      → Counts count n (look get k) Q
  unfolding look
  Counts-look get k hk = record { at = λ w e. (hk (get w)).at w e }

  pub Counts-if :
      (b : Bool) (f g : Io W A)
      → Counts count n f Q
      → Counts count n g Q
      → Counts count n (if b then f else g) Q
  Counts-if true f g hf hg = hf
  Counts-if false f g hf hg = hg

  pub Counts-split :
      (b : Bool) (f g : Io W A)
      → (b ≡ true → Counts count n f Q)
      → (b ≡ false → Counts count n g Q)
      → Counts count n (if b then f else g) Q
  Counts-split true f g hf hg = hf refl
  Counts-split false f g hf hg = hg refl

  pub Counts-then :
      (b : Bool) (f g : Io W A)
      → b ≡ true
      → Counts count n f Q
      → Counts count n (if b then f else g) Q
  Counts-then b f g e h = rw e h

  pub Counts-else :
      (b : Bool) (f g : Io W A)
      → b ≡ false
      → Counts count n g Q
      → Counts count n (if b then f else g) Q
  Counts-else b f g e h = rw e h

  pub Counts-open :
      (op : W → W × ℕ) (k : ℕ → Io W A)
      → Opens count op
      → ((fd : ℕ) → is_negative fd ≡ true → Counts count n (k fd) Q)
      → ((fd : ℕ)
          → is_positive fd ≡ true
          → is_held (descriptor fd) n ≡ false
          → Counts count (descriptor fd ∷ n) (k fd) Q)
      → Counts count n (ask op k) Q
  unfolding ask
  Counts-open op k h bad good = record {
    at = λ w e. elim (h w) [
      | inl (b, m) ↦ (bad (op w).1 b).at (op w).0 (m ∙ e)
      | inr (b, x, m) ↦
          (good (op w).1 b (ap (is_held (descriptor (op w).1)) (sym e) ∙ x)).at (op w).0
            (m ∙ ap (λ l. descriptor (op w).1 ∷ l) e)
    ];
  }

  -- The same for a reference, with something known of whether there is one.
  pub Counts-acquire_knowing :
      {B : Type 0} (P : Option B → Type 0) (handle : B → Handle) (op : W → W × Option B)
      (k : Option B → Io W A)
      → ((w : W) → P (op w).1)
      → Acquires count handle op
      → (P none → Counts count n (k none) Q)
      → ((b : B) → P (some b) → Counts count (handle b ∷ n) (k (some b)) Q)
      → Counts count n (ask op k) Q
  unfolding ask
  Counts-acquire_knowing {B} P handle op k p h bad good = record {
    at = λ w e. go (op w).0 (op w).1 (count w) (p w) (h w) e;
  }
    where
      go :
          (w' : W) (o : Option B) (m : List Handle)
          → P o
          → count w' ≡ elim o as (λ x. List Handle) [ none ↦ m | some b ↦ handle b ∷ m ]
          → m ≡ n
          → Returns (λ w'' a. Q (count w'') a) (k o w')
      go w' none m q h e = (bad q).at w' (h ∙ e)
      go w' (some b) m q h e = (good b q).at w' (h ∙ ap (λ l. handle b ∷ l) e)

  pub Counts-acquire :
      {B : Type 0} {handle : B → Handle} (op : W → W × Option B) (k : Option B → Io W A)
      → Acquires count handle op
      → Counts count n (k none) Q
      → ((b : B) → Counts count (handle b ∷ n) (k (some b)) Q)
      → Counts count n (ask op k) Q
  Counts-acquire {handle = handle} op k h bad good =
      Counts-acquire_knowing (λ o. Unit) handle op k (λ w. tt) h (λ q. bad) (λ b q. good b)

  pub Counts-using :
      {B : Type 0} (R : List Handle → B → Type 0) (f : Io W B) (k : B → Io W A)
      → Counts count n f R
      → ((m : List Handle) (b : B) → R m b → Counts count m (k b) Q)
      → Counts count n (using f k) Q
  unfolding using
  Counts-using {B} R f k hf hk = record { at = λ w e. go (f w) (hf.at w e) }
    where
      go :
          (o : Option (W × B))
          → Returns (λ w' b. R (count w') b) o
          → Returns
              (λ w' a. Q (count w') a)
              (elim o as (λ x. Option (W × A)) [ none ↦ none | some p ↦ k p.1 p.0 ])
      go none h = tt
      go (some (w', b)) h = (hk (count w') b h).at w' refl

module _ {W A : Type 0} {count : W → List Handle} {n : List Handle}
    {Q : List Handle → A → Type 0} where
  -- A service that is given back before its characteristic.
  pub Counts-release_service :
      {s c : ℕ} (op : W → W) (f : Io W A)
      → Releases count (service s) op
      → Counts count (characteristic c ∷ n) f Q
      → Counts count (characteristic c ∷ service s ∷ n) (tell op f) Q
  Counts-release_service {s} {c} op f r hf =
      Counts-remove (service s) (characteristic c ∷ service s ∷ n) op f r (remove-service s c n) hf

pub positive-not_negative : (v : ℕ) → is_positive v ≡ true → is_negative v ≡ false
positive-not_negative v h = ground (arith, h)

pub negative-not_positive : (v : ℕ) → is_negative v ≡ true → is_positive v ≡ false
negative-not_positive v h = ground (arith, h)

pub ruleset counts_rules = (
  Counts-then, Counts-else, Counts-if, Counts-ask, Counts-tell, Counts-release,
  Counts-release_service, Counts-look, Counts-undefined,
)
