-- ===== src/Fp/Xml/Strtoul.antt =====
-- `strtoul` of the C library, in the bases 0 and 16 that fp/src/xml.c uses, with a 64-bit `long`. A
-- text is the list of its bytes.
use Prim.Native.Char.{code}
use libfuji.Common.{
  ℕ, ◌+◌, ◌-◌, ◌*◌, ◌%◌, ◌^◌, String, Bool, true, false, ◌&&◌, ◌||◌, List, [], ◌∷◌, Option, none,
  some, ltb, leb, ◌==◌, if◌then◌else◌,
}

abbrev pub codes : String → List ℕ
codes String.[] = []
codes (String.◌∷◌ c s) = code c ∷ codes s

is_space : ℕ → Bool
is_space c = c == 32 || leb 9 c && leb c 13

skip_spaces : List ℕ → List ℕ
skip_spaces [] = []
skip_spaces (c ∷ s) = if is_space c then skip_spaces s else c ∷ s

digit_value : ℕ → Option ℕ
digit_value c =
    if leb b'0' c && leb c b'9'
    then some (c - b'0')
    else if leb b'A' c && leb c b'Z'
    then some (c - b'A' + 10)
    else if leb b'a' c && leb c b'z'
    then some (c - b'a' + 10)
    else none

-- The digits of the base at the head of the text, gathered. Nothing is cut off yet.
take_digits : ℕ → ℕ → List ℕ → ℕ
take_digits base acc [] = acc
take_digits base acc (c ∷ s) = elim (digit_value c) [
  | none ↦ acc
  | some d ↦ let rest = take_digits base (acc * base + d) s in if ltb d base then rest else acc
]

-- Does the text go on with a digit of base 16?
hex_follows : List ℕ → Bool
unfolding digit_value
hex_follows [] = false
hex_follows (c ∷ s) = elim (digit_value c) [ none ↦ false | some d ↦ ltb d 16 ]

-- The digits behind the sign: `0x` and `0X` mean base 16 where a digit follows, another leading 0
-- means base 8.
magnitude : ℕ → List ℕ → ℕ
unfolding take_digits hex_follows
magnitude base (c ∷ x ∷ s) =
    if c == b'0' && (x == b'x' || x == b'X') && hex_follows s
    then take_digits 16 0 s
    else if base == 0
    then take_digits (if c == b'0' then 8 else 10) 0 (c ∷ x ∷ s)
    else take_digits base 0 (c ∷ x ∷ s)
magnitude base s = take_digits (if base == 0 then 10 else base) 0 s

-- `ULONG_MAX` stands for what does not fit; a minus sign negates what does.
limited : Bool → ℕ → ℕ
limited minus n = if ltb n (2 ^ 64) then if minus then (2 ^ 64 - n) % 2 ^ 64 else n else 2 ^ 64 - 1

signed_number : ℕ → List ℕ → ℕ
unfolding magnitude limited
signed_number base [] = 0
signed_number base (c ∷ s) =
    if c == b'-'
    then limited true (magnitude base s)
    else if c == b'+'
    then limited false (magnitude base s)
    else limited false (magnitude base (c ∷ s))

unfoldable pub strtoul : String → ℕ → ℕ
unfolding skip_spaces is_space signed_number
strtoul str base = signed_number base (skip_spaces (codes str))
