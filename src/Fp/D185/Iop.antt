-- ===== src/Fp/D185/Iop.antt =====
-- The processor code: printed by `"%08X"`, written as 16-bit characters, and read back.
use libfuji.Common.{
  ℕ, suc, ◌+◌, ◌*◌, ◌/◌, ◌%◌, ◌^◌, ◌<◌, ◌≤◌, ◌≡◌, refl, ap, ◌∙◌, sym, List, [], ◌∷◌, ◌++◌, map,
  some, append_assoc, length, length-append, u32, le16, read_u16, arith, read_u16-append,
}
use libfuji.Fp.Lookup.{success}
use libfuji.Fp.D185.Codec.{hex_digit, print_08x, iop_digit, parse_iop}
use libfuji.Fp.D185.Writer.{wide}

iop_digit-hex_digit : (d : ℕ) → d < 16 → iop_digit (hex_digit d) ≡ some d
unfolding iop_digit hex_digit
iop_digit-hex_digit d h = ground arith

hex_digit_bounds : (d : ℕ) → d < 16 → (0 < hex_digit d) × (hex_digit d < 2 ^ 16)
unfolding hex_digit
hex_digit_bounds d h = ground arith

abbrev pub IsDigits : List ℕ → Type 0
IsDigits [] = Unit {0}
IsDigits (d ∷ ds) = (d < 16) × IsDigits ds

-- What the loop makes of the digits.
abbrev pub gather : ℕ → List ℕ → ℕ
gather acc [] = acc
gather acc (d ∷ ds) = gather (u32 (u32 (acc * 16) + d)) ds

parse_iop-step :
    (bin : List ℕ) (left i of acc d : ℕ)
    → read_u16 bin of ≡ some (hex_digit d)
    → d < 16
    → i ≤ 8
    → parse_iop bin (suc left) i of acc
      ≡ parse_iop bin left (i + 1) (of + 2) (u32 (u32 (acc * 16) + d))
unfolding parse_iop
parse_iop-step bin left i of acc d r h b =
    ground (arith, r, iop_digit-hex_digit d h, hex_digit_bounds d h)

parse_iop-end :
    (bin : List ℕ) (left i of acc : ℕ)
    → read_u16 bin of ≡ some 0
    → parse_iop bin (suc left) i of acc ≡ some (acc, success)
unfolding parse_iop
parse_iop-end bin left i of acc r = ground (arith, r)

-- Digits that stand at the cursor and are closed by a NULL character are all read.
pub parse_iop-gather :
    (ds pre post : List ℕ) (i of acc : ℕ)
    → IsDigits ds
    → i + length ds ≤ 9
    → of ≡ length pre
    → parse_iop (pre ++ (wide (map hex_digit ds) ++ (le16 0 ++ post))) (suc (length ds)) i of acc
      ≡ some (gather acc ds, success)
parse_iop-gather [] pre post i of acc h b e =
    parse_iop-end _ 0 i of acc (read_u16-append pre post 0 of (omega arith) e)
parse_iop-gather (d ∷ ds) pre post i of acc h b e =
    parse_iop-step _ _ i of acc d
      (read_u16-append pre (wide (map hex_digit ds) ++ (le16 0 ++ post)) (hex_digit d) of
        (hex_digit_bounds d h.0).1 e)
      h.0 (omega arith)
    ∙ ap
        (λ (bin : List ℕ).
          parse_iop bin (suc (length ds)) (i + 1) (of + 2) (u32 (u32 (acc * 16) + d)))
        (sym (append_assoc pre (le16 (hex_digit d)) _))
    ∙ parse_iop-gather ds (pre ++ le16 (hex_digit d)) post (i + 1) (of + 2) _ h.1 (omega arith)
        (omega (arith, length-append pre (le16 (hex_digit d))))

-- The eight hexadecimal digits of a 32-bit number.
abbrev pub digits_of : ℕ → List ℕ
digits_of v =
    v / 16 ^ 7 % 16
    ∷ v / 16 ^ 6 % 16
    ∷ v / 16 ^ 5 % 16
    ∷ v / 16 ^ 4 % 16
    ∷ v / 16 ^ 3 % 16
    ∷ v / 16 ^ 2 % 16
    ∷ v / 16 % 16
    ∷ v % 16
    ∷ []

pub print_08x-digits : (v : ℕ) → print_08x v ≡ map hex_digit (digits_of v)
unfolding print_08x
print_08x-digits v = refl

pub digits_of-IsDigits : (v : ℕ) → IsDigits (digits_of v)
digits_of-IsDigits v = omega arith

pub gather-digits_of : (v : ℕ) → v < 2 ^ 32 → gather 0 (digits_of v) ≡ v
gather-digits_of v h = omega arith
