-- ===== src/Fp/D185/Codec.antt =====
-- `fp_create_d185` and `fp_parse_d185` (fp/src/d185.c). Both may run out of their buffer, which is
-- undefined in C; the model returns `none` there.
use libfuji.Common.{
  ℕ, zero, suc, ◌+◌, ◌-◌, ◌*◌, ◌/◌, ◌%◌, ◌^◌, List, [], ◌∷◌, ◌++◌, Option, none, some, true, false,
  ◌&&◌, length, get_elem?, ltb, leb, ◌==◌, if◌then◌else◌, ◌>>=◌, u8, u32, read_u8, read_u16,
  read_u32,
}
use libfuji.Fp.Lookup.{Status, success, failure}
use libfuji.Fp.Profile.{FujiProfile, zeroed}
use libfuji.Fp.D185.Props.{D185Prop, all_props, get_prop, parse_prop}

-- The writers. `out` is what stands in the buffer below the cursor `of`, so `of` is its length;
-- `len` is the size of the buffer.
unfoldable pub write_u8 : ℕ → List ℕ → ℕ → Option (List ℕ)
write_u8 len out v = if ltb (length out) len then some (out ++ u8 v ∷ []) else none

unfoldable pub write_u16 : ℕ → List ℕ → ℕ → Option (List ℕ)
unfolding write_u8
write_u16 len out v = do o ← write_u8 len out (v % 256); write_u8 len o (v / 2 ^ 8 % 256)

unfoldable pub write_u32 : ℕ → List ℕ → ℕ → Option (List ℕ)
unfolding write_u8
write_u32 len out v = do
  o ← write_u8 len out (v % 256)
  o1 ← write_u8 len o (v / 2 ^ 8 % 256)
  o2 ← write_u8 len o1 (v / 2 ^ 16 % 256)
  write_u8 len o2 (v / 2 ^ 24 % 256)

-- An upper case hexadecimal digit, and what `"%08X"` prints for a `uint32_t`.
unfoldable pub hex_digit : ℕ → ℕ
hex_digit d = if ltb d 10 then b'0' + d else b'A' + (d - 10)

unfoldable pub print_08x : ℕ → List ℕ
unfolding hex_digit
print_08x v =
    hex_digit (v / 16 ^ 7 % 16)
    ∷ hex_digit (v / 16 ^ 6 % 16)
    ∷ hex_digit (v / 16 ^ 5 % 16)
    ∷ hex_digit (v / 16 ^ 4 % 16)
    ∷ hex_digit (v / 16 ^ 3 % 16)
    ∷ hex_digit (v / 16 ^ 2 % 16)
    ∷ hex_digit (v / 16 % 16)
    ∷ hex_digit (v % 16)
    ∷ []

-- `for (i = 0; temp_iop_code[i] != '\0'; i++)`.
unfoldable pub write_chars : ℕ → List ℕ → List ℕ → Option (List ℕ)
write_chars len out [] = some out
write_chars len out (c ∷ cs) = do o ← write_u16 len out c; write_chars len o cs

-- `while (of < 0x201)`, with fuel.
unfoldable pub write_padding : ℕ → ℕ → List ℕ → Option (List ℕ)
write_padding zero len out = none
write_padding (suc fuel) len out = elim (ltb (length out) 0x201) [
  | true ↦ elim (write_u8 len out 0) [ none ↦ none | some o ↦ write_padding fuel len o ]
  | false ↦ some out
]

-- The loop over the properties. `junk` and `junk_size` are what `value` and `value_size` hold before
-- they are written: C leaves both indeterminate.
unfoldable pub write_props :
    FujiProfile → (D185Prop → ℕ) → ℕ → ℕ → List ℕ → List D185Prop → Option (List ℕ × Status)
write_props fp junk junk_size len out [] = some (out, success)
write_props fp junk junk_size len out (p ∷ ps) =
    let (value, rc) = get_prop fp p (junk p) junk_size in
    elim rc [
      | failure ↦ some (out, failure)
      | success ↦ elim (write_u32 len out value) [
        | none ↦ none
        | some o ↦ write_props fp junk junk_size len o ps
      ]
    ]

-- On success the C function returns the number of bytes written, the length of the list here; on
-- failure it returns -1. The padding needs at most 0x201 rounds.
unfoldable pub fp_create_d185 : FujiProfile → (D185Prop → ℕ) → ℕ → ℕ → Option (List ℕ × Status)
fp_create_d185 fp junk junk_size len = if ltb len 0x274 then some ([], failure) else do
  o ← write_u16 len [] 0x1d
  let temp_iop_code = print_08x fp.iop_code
  o1 ← write_u8 len o (length temp_iop_code + 1)
  o2 ← write_chars len o1 temp_iop_code
  o3 ← write_u16 len o2 0x0
  o4 ← write_padding 0x202 len o3
  write_props fp junk junk_size len o4 all_props

-- One character of the processor code: its digit, or `none` for a character that is not one.
unfoldable pub iop_digit : ℕ → Option ℕ
iop_digit wchr =
    if leb b'0' wchr && leb wchr b'9'
    then some (wchr - b'0')
    else if leb b'A' wchr && leb wchr b'F'
    then some (wchr - b'A' + 10)
    else none

-- The loop over the characters, at index `i` with `str_len - i` rounds left.
unfoldable pub parse_iop : List ℕ → ℕ → ℕ → ℕ → ℕ → Option (ℕ × Status)
parse_iop bin zero i of iop_code = some (iop_code, success)
parse_iop bin (suc left) i of iop_code = elim (read_u16 bin of) [
  | none ↦ none
  | some wchr ↦ elim (wchr == 0) [
    | true ↦ some (iop_code, success)
    | false ↦ elim (ltb 8 i) [
      | true ↦ some (iop_code, failure)
      | false ↦ elim (iop_digit wchr) [
        | none ↦ some (iop_code, failure)
        | some d ↦ parse_iop bin left (i + 1) (of + 2) (u32 (u32 (iop_code * 16) + d))
      ]
    ]
  ]
]

-- The value of the next property, and the cursor behind it.
unfoldable pub next_value : List ℕ → ℕ → ℕ → Option (ℕ × ℕ)
next_value bin len of =
    if ltb len (of + 4) then some (0, of) else do v ← read_u32 bin of; some (v, of + 4)

-- `parse_prop` by index; an index past the last property is refused.
unfoldable pub parse_index : FujiProfile → ℕ → ℕ → FujiProfile × Status
parse_index fp i value = elim (get_elem? all_props i) [
  | none ↦ (fp, failure)
  | some p ↦ parse_prop fp p value
]

-- The loop over the properties, at index `i` with `n_props - i` rounds left.
unfoldable pub parse_props : List ℕ → ℕ → ℕ → ℕ → ℕ → FujiProfile → Option (FujiProfile × Status)
parse_props bin len zero i of fp = some (fp, success)
parse_props bin len (suc left) i of fp = elim (next_value bin len of) [
  | none ↦ none
  | some (value, of') ↦
      let (fp', rc) = parse_index fp i value in
      elim rc [ failure ↦ some (fp', failure) | success ↦ parse_props bin len left (i + 1) of' fp' ]
]

-- The profile is what `*fp` holds on return; a buffer that is too short leaves it as it was.
unfoldable pub fp_parse_d185 : List ℕ → ℕ → FujiProfile → Option (FujiProfile × Status)
fp_parse_d185 bin len fp = if ltb len 0x200 then some (fp, failure) else do
  let fp0 : FujiProfile = record zeroed { struct_ver = 0x10000 }
  n_props ← read_u16 bin 0
  str_len ← read_u8 bin 2
  (iop_code, rc) ← parse_iop bin str_len 0 3 0
  elim rc [
    | failure ↦ some (fp0, failure)
    | success ↦ parse_props bin len n_props 0 0x201 (record fp0 { iop_code = iop_code })
  ]
