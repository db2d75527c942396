-- ===== src/Fp/D185/Safety.antt =====
-- `fp_parse_d185` on any input: it stays inside the buffer, and accepts only listed values.
use libfuji.Common.{
  ℕ, zero, suc, ◌+◌, ◌*◌, ◌≤◌, ◌≡◌, inl, inr, refl, ◌≢◌, none, u32, Bool-cases, Option-cases, List,
  Option, some, length, ltb, read_u16, read_u8, le→ltb, read_u16-lt, read_u8-lt, read_u32-lt, arith,
}
use libfuji.Fp.Lookup.{Status, success, failure}
use libfuji.Fp.Profile.{FujiProfile}
use libfuji.Fp.D185.Codec.{
  next_value, parse_index, parse_props, iop_digit, parse_iop, fp_parse_d185,
}

parse_iop-ne-none :
    (bin : List ℕ) (left i of acc : ℕ)
    → of ≡ 3 + 2 * i
    → i ≤ 9
    → 0x200 ≤ length bin
    → parse_iop bin left i of acc ≢ none
unfolding parse_iop
parse_iop-ne-none bin zero i of acc e b h = cc
parse_iop-ne-none bin (suc left) i of acc e b h =
    let (w, r) = read_u16-lt bin of (omega arith) in
    elim (Option-cases (iop_digit w)) [
      | inl q ↦ ground (arith, r, q)
      | inr (d, q) ↦
          ground
            (arith, r, q, parse_iop-ne-none bin left (i + 1) (of + 2) (u32 (u32 (acc * 16) + d)))
    ]

next_value-ne-none : (bin : List ℕ) (len of : ℕ) → len ≤ length bin → next_value bin len of ≢ none
unfolding next_value
next_value-ne-none bin len of h = elim (Bool-cases (ltb len (of + 4))) [
  | inl e ↦ rw e (ground arith)
  | inr e ↦ let (v, r) = read_u32-lt bin of (ground arith) in rw (e, r) (ground arith)
]

parse_props-ne-none :
    (bin : List ℕ) (len left i of : ℕ) (fp : FujiProfile)
    → len ≤ length bin
    → parse_props bin len left i of fp ≢ none
unfolding parse_props
parse_props-ne-none bin len zero i of fp h = cc
parse_props-ne-none bin len (suc left) i of fp h = elim (Option-cases (next_value bin len of)) [
  | inl q ↦ absurd (next_value-ne-none bin len of h q)
  | inr (x, q) ↦
      ground (arith, q, parse_props-ne-none bin len left (i + 1) x.1 (parse_index fp i x.0).0 h)
]

returns_of_ne {ℓ} : {A : Type ℓ} (o : Option A) → o ≢ none → (a : A) × (o ≡ some a)
returns_of_ne none h = absurd (h refl)
returns_of_ne (some a) h = (a, refl)

after_iop :
    (bin : List ℕ) (len n_props str_len : ℕ) (old : FujiProfile)
    → 0x200 ≤ len
    → len ≤ length bin
    → read_u16 bin 0 ≡ some n_props
    → read_u8 bin 2 ≡ some str_len
    → fp_parse_d185 bin len old ≢ none
unfolding fp_parse_d185
after_iop bin len n_props str_len old b h r0 r1 =
    elim (Option-cases (parse_iop bin str_len 0 3 0)) [
      | inl q ↦
          absurd (parse_iop-ne-none bin str_len 0 3 0 (omega arith) (omega arith) (omega arith) q)
      | inr ((code, success), q) ↦
          rw (le→ltb len 0x200 b, r0, r1, q) (parse_props-ne-none bin len n_props 0 0x201 _ h)
      | inr ((code, failure), q) ↦ rw (le→ltb len 0x200 b, r0, r1, q) (λ e. cc)
    ]

-- Whatever the bytes are, in a buffer of at least `len` bytes `fp_parse_d185` returns: no read leaves
-- the buffer.
pub parse_d185_in_bounds :
    (bin : List ℕ) (len : ℕ) (old : FujiProfile)
    → len ≤ length bin
    → (r : FujiProfile × Status) × (fp_parse_d185 bin len old ≡ some r)
unfolding fp_parse_d185
parse_d185_in_bounds bin len old h = elim (Bool-cases (ltb len 0x200)) [
  | inl e ↦ ((old, failure), rw e)
  | inr e ↦
      let (n_props, r0) = read_u16-lt bin 0 (ground arith) in
      let (str_len, r1) = read_u8-lt bin 2 (ground arith) in
      returns_of_ne _ (after_iop bin len n_props str_len old (ground arith) h r0 r1)
]
