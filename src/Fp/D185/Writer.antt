-- ===== src/Fp/D185/Writer.antt =====
-- What the writers of `fp_create_d185` store, given room, and that they fault without it.
use libfuji.Common.{
  ℕ, zero, suc, ◌+◌, ◌*◌, ◌/◌, ◌%◌, ◌^◌, ◌<◌, ◌≤◌, ◌≡◌, ap, ◌∙◌, sym, List, [], ◌∷◌, ◌++◌, none,
  some, append_assoc, append-nil, length, length-append, replicate, lt→ltb, le→ltb, u8, le16, le32,
  arith,
}
use libfuji.Fp.D185.Codec.{write_u8, write_u16, write_u32, write_chars, write_padding}

module _ (len : ℕ) (out : List ℕ) where
  pub write_u8_room :
      (v : ℕ) → v < 256 → length out < len → write_u8 len out v ≡ some (out ++ v ∷ [])
  unfolding write_u8
  write_u8_room v b h = let e : u8 v ≡ v = omega arith in rw (lt→ltb (length out) len h, e)

  pub write_u8_full : (v : ℕ) → len ≤ length out → write_u8 len out v ≡ none
  unfolding write_u8
  write_u8_full v h = rw (le→ltb (length out) len h)

length-snoc : (out : List ℕ) (v : ℕ) → length (out ++ v ∷ []) ≡ length out + 1
length-snoc out v = length-append out (v ∷ [])

pub write_u16_room :
    (len : ℕ) (out : List ℕ) (v : ℕ)
    → length out + 2 ≤ len
    → write_u16 len out v ≡ some (out ++ le16 v)
unfolding write_u16
write_u16_room len out v h =
    rw
      (
        write_u8_room len out (v % 256) (omega arith) (omega arith),
        write_u8_room len (out ++ v % 256 ∷ []) (v / 2 ^ 8 % 256) (omega arith)
            (omega (arith, length-snoc out (v % 256))),
      )
      (ap some (append_assoc out (v % 256 ∷ []) (v / 2 ^ 8 % 256 ∷ [])))

pub write_u32_room :
    (len : ℕ) (out : List ℕ) (v : ℕ)
    → length out + 4 ≤ len
    → write_u32 len out v ≡ some (out ++ le32 v)
unfolding write_u32
write_u32_room len out v h =
    rw
      (
        write_u8_room len out (v % 256) (omega arith) (omega arith),
        write_u8_room len (out ++ v % 256 ∷ []) (v / 2 ^ 8 % 256) (omega arith)
            (omega (arith, length-snoc out (v % 256))),
        append_assoc out (v % 256 ∷ []) (v / 2 ^ 8 % 256 ∷ []),
        write_u8_room len (out ++ v % 256 ∷ v / 2 ^ 8 % 256 ∷ []) (v / 2 ^ 16 % 256) (omega arith)
            (omega (arith, length-append out (v % 256 ∷ v / 2 ^ 8 % 256 ∷ []))),
        append_assoc out (v % 256 ∷ v / 2 ^ 8 % 256 ∷ []) (v / 2 ^ 16 % 256 ∷ []),
        write_u8_room len (out ++ v % 256 ∷ v / 2 ^ 8 % 256 ∷ v / 2 ^ 16 % 256 ∷ [])
            (v / 2 ^ 24 % 256) (omega arith)
            (omega (arith, length-append out (v % 256 ∷ v / 2 ^ 8 % 256 ∷ v / 2 ^ 16 % 256 ∷ []))),
      )
      (ap some (
        append_assoc out (v % 256 ∷ v / 2 ^ 8 % 256 ∷ v / 2 ^ 16 % 256 ∷ [])
          (v / 2 ^ 24 % 256 ∷ [])))

-- With room for three bytes only, the fourth write runs over the end.
pub write_u32_full :
    (len : ℕ) (out : List ℕ) (v : ℕ) → length out + 3 ≡ len → write_u32 len out v ≡ none
unfolding write_u32
write_u32_full len out v h = rw (
  write_u8_room len out (v % 256) (omega arith) (omega arith),
  write_u8_room len (out ++ v % 256 ∷ []) (v / 2 ^ 8 % 256) (omega arith)
      (omega (arith, length-snoc out (v % 256))),
  append_assoc out (v % 256 ∷ []) (v / 2 ^ 8 % 256 ∷ []),
  write_u8_room len (out ++ v % 256 ∷ v / 2 ^ 8 % 256 ∷ []) (v / 2 ^ 16 % 256) (omega arith)
      (omega (arith, length-append out (v % 256 ∷ v / 2 ^ 8 % 256 ∷ []))),
  append_assoc out (v % 256 ∷ v / 2 ^ 8 % 256 ∷ []) (v / 2 ^ 16 % 256 ∷ []),
  write_u8_full len (out ++ v % 256 ∷ v / 2 ^ 8 % 256 ∷ v / 2 ^ 16 % 256 ∷ []) (v / 2 ^ 24 % 256)
      (omega (arith, length-append out (v % 256 ∷ v / 2 ^ 8 % 256 ∷ v / 2 ^ 16 % 256 ∷ []))),
)

-- The characters as 16-bit units.
abbrev pub wide : List ℕ → List ℕ
wide [] = []
wide (c ∷ cs) = le16 c ++ wide cs

pub length-wide : (cs : List ℕ) → length (wide cs) ≡ 2 * length cs
length-wide [] = omega arith
length-wide (c ∷ cs) = omega (arith, length-wide cs)

pub write_chars_room :
    (len : ℕ) (out cs : List ℕ)
    → length out + 2 * length cs ≤ len
    → write_chars len out cs ≡ some (out ++ wide cs)
unfolding write_chars
write_chars_room len out [] h = ap some (sym (append-nil out))
write_chars_room len out (c ∷ cs) h = rw (write_u16_room len out c (omega arith)) (
    write_chars_room len (out ++ le16 c) cs (omega (arith, length-append out (le16 c)))
    ∙ ap some (append_assoc out (le16 c) (wide cs)))

-- The padding loop fills up to the start of the properties.
pub write_padding_room :
    (fuel len : ℕ) (out : List ℕ) (n : ℕ)
    → n < fuel
    → length out + n ≡ 0x201
    → 0x201 ≤ len
    → write_padding fuel len out ≡ some (out ++ replicate n 0)
unfolding write_padding
write_padding_room zero len out n f e h = elim f [ ]
write_padding_room (suc fuel) len out zero f e h =
    rw (le→ltb (length out) 0x201 (omega arith), write_padding) (ap some (sym (append-nil out)))
write_padding_room (suc fuel) len out (suc n) f e h = ground (
  arith,
  write_u8_room len out 0 (omega arith) (omega arith),
  write_padding_room fuel len (out ++ 0 ∷ []) n (omega arith) (omega (arith, length-snoc out 0)) h,
  append_assoc out (0 ∷ []) (replicate n 0),
)
