-- ===== src/Exif/Sound.antt =====
-- Reasoning about the functions of the EXIF parser (lib/exif.c), where they return a value.
use libfuji.Common.{
  ℕ, ◌+◌, ◌^◌, ◌<◌, ◌≤◌, ◌≡◌, refl, Option, none, some, Bool, true, false, if◌then◌else◌, ltb, u32,
  arith,
}
use libfuji.Exif.State.{Memory, GetMore, More, ExifParser, Parser, Answer, ◌>>=◌, look}
use libfuji.Exif.{got_more, ask_more, ensure_size, peek}

-- All of the first `n` bytes are known.
abbrev pub IsFilled : ℕ → Memory → Type 0
IsFilled n m = (i : ℕ) → i < n → (v : ℕ) × (m i ≡ some v)

module _ {W : Type 0} where
  -- What holds of the state and the value.
  abbrev pub Out : {A : Type 0} → (ExifParser W → A → Type 0) → Answer W A → Type 0
  Out Q none = Unit
  Out Q (some (c, none)) = Unit
  Out Q (some (c, some a)) = Q c a

  pub bind-Out :
      {A B : Type 0} (Q : ExifParser W → A → Type 0) (Q' : ExifParser W → B → Type 0)
      (p : Parser W A) (k : A → Parser W B) (c : ExifParser W)
      → Out Q (p c)
      → ((d : ExifParser W) (a : A) → Q d a → Out Q' (k a d))
      → Out Q' ((p >>= k) c)
  unfolding ◌>>=◌
  bind-Out {A = A} {B = B} Q Q' p k c h f = go (p c) h
    where
      go :
          (o : Answer W A)
          → Out Q o
          → Out Q' (elim o as (λ x. Answer W B) [
            | none ↦ none
            | some r ↦ elim r.1 as (λ x. Answer W B) [ none ↦ some (r.0, none) | some a ↦ k a r.0 ]
          ])
      go none h = tt
      go (some (d, none)) h = tt
      go (some (d, some a)) h = f d a h

  -- A look at the state: whatever it shows, the state stays.
  pub look-Out :
      {A B : Type 0} (Q : ExifParser W → B → Type 0) (f : ExifParser W → Option A)
      (k : A → Parser W B) (c : ExifParser W)
      → ((a : A) → Out Q (k a c))
      → Out Q ((look f >>= k) c)
  unfolding ◌>>=◌ look
  look-Out {A = A} {B = B} Q f k c h = go (f c)
    where
      go :
          (o : Option A)
          → Out Q
              (elim (elim o as (λ x. Answer W A) [ none ↦ none | some a ↦ some (c, some a) ])
                as (λ x. Answer W B) [
                  | none ↦ none
                  | some r ↦ elim r.1 as (λ x. Answer W B) [
                    | none ↦ some (r.0, none)
                    | some a ↦ k a r.0
                  ]
                ])
      go none = tt
      go (some a) = h a

  pub peek-Out :
      {A B : Type 0} (Q : ExifParser W → B → Type 0) (f : Memory → ℕ → Option A) (of : ℕ)
      (k : A → Parser W B) (c : ExifParser W)
      → ((a : A) → Out Q (k a c))
      → Out Q ((peek f of >>= k) c)
  unfolding peek
  peek-Out Q f of k c h = look-Out Q (λ c. f c.buf of) k c h

  -- What `get_more` gives is as long as what it was asked for.
  abbrev pub IsMore : ℕ → More W → Type 0
  IsMore n none = Unit
  IsMore n (some (w, none)) = Unit
  IsMore n (some (w, some m)) = IsFilled n m

  abbrev pub Delivers : Option (GetMore W) → Type 0
  Delivers none = Unit
  Delivers (some f) = (m : Memory) (n old : ℕ) (w : W) → IsMore n (f m n old w)

  -- The buffer has its length, and what it grows by will be there.
  pub record IsSound (c : ExifParser W) : Type 0 where
    pub filled : IsFilled c.length c.buf
    pub delivers : Delivers c.get_more

  -- The state after `ensure_size n`: all but the buffer is the same.
  pub record IsGrown (n : ℕ) (c d : ExifParser W) : Type 0 where
    pub sound : IsSound d
    pub same_of : d.thumb_of ≡ c.thumb_of
    pub same_size : d.thumb_size ≡ c.thumb_size
    pub long_enough : n + 1000 < 2 ^ 32 → n ≤ d.length

  got_more-IsGrown :
      (n : ℕ) (c : ExifParser W) (o : More W)
      → Delivers c.get_more
      → IsMore (u32 (n + 1000)) o
      → Out (λ d _. IsGrown n c d) (got_more c (u32 (n + 1000)) o)
  unfolding got_more
  got_more-IsGrown n c none d h = tt
  got_more-IsGrown n c (some (w, none)) d h = tt
  got_more-IsGrown n c (some (w, some m)) d h = record {
    sound = record { filled = h; delivers = d };
    same_of = refl;
    same_size = refl;
    long_enough = λ l. omega (arith, l);
  }

  ask_more-IsGrown :
      (g : Option (GetMore W)) (n : ℕ) (c : ExifParser W)
      → g ≡ c.get_more
      → IsSound c
      → Delivers g
      → Out (λ d _. IsGrown n c d) (ask_more g (u32 (n + 1000)) c)
  unfolding ask_more
  ask_more-IsGrown none n c e s h = tt
  ask_more-IsGrown (some f) n c e s h =
      got_more-IsGrown n c (f c.buf (u32 (n + 1000)) c.length c.world) s.delivers (h _ _ _ _)

  pub ensure_size-IsGrown :
      (n : ℕ) (c : ExifParser W) → IsSound c → Out (λ d _. IsGrown n c d) (ensure_size n c)
  unfolding ensure_size
  ensure_size-IsGrown n c s = go (ltb c.length n) (λ h. ground (arith, h))
    where
      go :
          (b : Bool)
          → (b ≡ false → n ≤ c.length)
          → Out
              (λ d _. IsGrown n c d)
              (if b then ask_more c.get_more (u32 (n + 1000)) c else some (c, some tt))
      go true h = ask_more-IsGrown c.get_more n c refl s s.delivers
      go false h = record { sound = s; same_of = refl; same_size = refl; long_enough = λ _. h refl }
