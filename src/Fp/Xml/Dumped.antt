-- ===== src/Fp/Xml/Dumped.antt =====
-- What the dump of a profile (fp/src/xml.c) prints.
use libfuji.Common.{
  ℕ, String, str_eq, eq_iff, ◌≡◌, ◌↔◌, refl, true, false, List, [], ◌∷◌, Option, none, some, ◌==◌,
  arith, inl, inr, Bool-cases, ◌∙◌, ap, sym,
}
use mathlib.Core.Bool.{true≢false}
use libfuji.Fp.Lookup.{FujiLookup, Status, success, ◌or_status◌, has_value, validate_lookup}
use libfuji.Fp.Xml.Dump.{
  line, dump_key, dump_property, DumpCall, call, dump_all, is_dumpable, all_dumpable, has_key,
  has_distinct_keys,
}

-- The row that the dump of a listed value takes, and what the reader makes of its key.
abbrev IsReadBack : String → ℕ → ℕ → List FujiLookup → String → Type 0
IsReadBack label value out tbl key =
    (dump_key label value tbl ≡ (line label key ∷ [], success))
    × (validate_lookup key out tbl ≡ (value, success))
    × (has_key key tbl ≡ true)

key_elsewhere :
    (key other : String) (tbl : List FujiLookup)
    → has_key key tbl ≡ true
    → has_key other tbl ≡ false
    → str_eq key other ≡ false
key_elsewhere key other tbl h k = elim (Bool-cases (str_eq key other)) [
  | inr e ↦ e
  | inl e ↦ absurd (true≢false (sym h ∙ ap (λ s. has_key s tbl) ((eq_iff key other).0 e) ∙ k))
]

dump_key-head :
    (label : String) (value out : ℕ) (r : FujiLookup) (tbl : List FujiLookup)
    → (r.value == value) ≡ true
    → IsReadBack label value out (r ∷ tbl) r.key
unfolding dump_key validate_lookup has_key
dump_key-head label value out r tbl e = ground (arith, (eq_iff r.key r.key).1 refl)

dump_key-tail :
    (label key : String) (value out : ℕ) (r : FujiLookup) (tbl : List FujiLookup)
    → (r.value == value) ≡ false
    → str_eq key r.key ≡ false
    → IsReadBack label value out tbl key
    → IsReadBack label value out (r ∷ tbl) key
unfolding dump_key validate_lookup has_key
dump_key-tail label key value out r tbl e d (a, b, c) = (rw e a, rw d b, rw d c)

dump_key-reads_back :
    (label : String) (value out : ℕ) (tbl : List FujiLookup)
    → has_distinct_keys tbl ≡ true
    → has_value value tbl ≡ true
    → (key : String) × IsReadBack label value out tbl key
unfolding has_distinct_keys has_value
dump_key-reads_back label value out [] d h = cc
dump_key-reads_back label value out (r ∷ tbl) d h = elim (Bool-cases (r.value == value)) [
  | inl e ↦ (r.key, dump_key-head label value out r tbl e)
  | inr e ↦
      let (key, b) = dump_key-reads_back label value out tbl (ground arith) (ground arith) in
      (
        key,
        dump_key-tail label key value out r tbl e (key_elsewhere key r.key tbl b.2 (ground arith))
            b,
      )
]

-- Where a table's keys are distinct, every value of the table is dumped as one line, and the reader
-- takes the text of that line back to the value.
pub dump_property-validate :
    (print_d : ℕ → String) (label : String) (value out : ℕ) (tbl : List FujiLookup)
    → has_distinct_keys tbl ≡ true
    → has_value value tbl ≡ true
    → (key : String) × (dump_property print_d label value (some tbl)
        ≡ (line label key ∷ [], success))
      × (validate_lookup key out tbl ≡ (value, success))
unfolding dump_property
dump_property-validate print_d label value out tbl d h =
    let (key, (a, b, c)) = dump_key-reads_back label value out tbl d h in (key, a, b)

dump_key-listed :
    (label : String) (value : ℕ) (tbl : List FujiLookup)
    → ((dump_key label value tbl).1 ≡ success) ↔ (has_value value tbl ≡ true)
unfolding dump_key has_value
dump_key-listed label value [] = ground arith
dump_key-listed label value (r ∷ tbl) = ground (arith, dump_key-listed label value tbl)

dump_property-listed :
    (print_d : ℕ → String) (label : String) (value : ℕ) (tbl : Option (List FujiLookup))
    → ((dump_property print_d label value tbl).1 ≡ success)
      ↔ (is_dumpable (call label value tbl) ≡ true)
unfolding dump_property is_dumpable
dump_property-listed print_d label value none = ((λ _. refl), λ _. refl)
dump_property-listed print_d label value (some tbl) = dump_key-listed label value tbl

pub dump_all-listed :
    (print_d : ℕ → String) (cs : List DumpCall) (rc : Status)
    → ((dump_all print_d cs rc).1 ≡ success) ↔ ((rc ≡ success) × (all_dumpable cs ≡ true))
unfolding dump_all all_dumpable
dump_all-listed print_d [] rc = ((λ e. (e, refl)), λ p. p.0)
dump_all-listed print_d (c ∷ cs) rc = ground (
  arith,
  dump_property-listed print_d c.label c.value c.tbl,
  dump_all-listed print_d cs (rc or_status (dump_property print_d c.label c.value c.tbl).1),
)
