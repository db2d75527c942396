-- ===== src/Fp/Lookup.antt =====
-- `struct FujiLookup` (fp/src/fp.h) and the two searches of a table: by value in fp/src/d185.c,
-- by key in fp/src/xml.c. A table is the list of its rows; its end stands for the NULL key.
use libfuji.Common.{
  ℕ, ◌≡◌, ◌⊎◌, inl, inr, refl, String, str_eq, List, [], ◌∷◌, Bool, true, false, ◌==◌,
  if◌then◌else◌,
}

pub record FujiLookup : Type 0 where
  pub key : String
  pub value : ℕ

abbrev pub row : String → ℕ → FujiLookup
row k v = record { key = k; value = v }

-- The `int` results 0 and -1.
pub data Status : Type 0 where
  success failure : Status

pub Status-cases : (rc : Status) → (rc ≡ success) ⊎ (rc ≡ failure)
Status-cases success = inl refl
Status-cases failure = inr refl

-- `rc |= …` over such results.
infixr 30 ◌or_status◌
abbrev pub ◌or_status◌ : Status → Status → Status
success or_status b = b
failure or_status b = failure

-- Is some row's value `v`?
unfoldable pub has_value : ℕ → List FujiLookup → Bool
has_value v [] = false
has_value v (r ∷ tbl) = if v == r.value then true else has_value v tbl

-- `copy_value_if_valid`: the content of `*output` after the call, from that before it, and the
-- result. A value 0 that no row has is accepted without a write.
unfoldable pub copy_value_if_valid : ℕ → ℕ → List FujiLookup → ℕ × Status
copy_value_if_valid value output [] = if value == 0 then (output, success) else (output, failure)
copy_value_if_valid value output (r ∷ tbl) =
    if value == r.value then (value, success) else copy_value_if_valid value output tbl

-- The loop of `validate_lookup` over a string that is not NULL.
unfoldable pub validate_lookup : String → ℕ → List FujiLookup → ℕ × Status
validate_lookup str out [] = (out, failure)
validate_lookup str out (r ∷ tbl) =
    if str_eq str r.key then (r.value, success) else validate_lookup str out tbl
