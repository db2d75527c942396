-- ===== src/Fp/Tables/Ranges.antt =====
-- Signed ranges in tenths (fp/src/data.c): the tables in source order, without the closing NULL row.
use libfuji.Common.{List, [], ◌∷◌, neg32}
use libfuji.Fp.Lookup.{FujiLookup, row}

unfoldable pub fp_range : List FujiLookup
fp_range =
    row "4" 40
    ∷ row "3" 30
    ∷ row "2" 20
    ∷ row "1" 10
    ∷ row "0" 0
    ∷ row "-1" (neg32 10)
    ∷ row "-2" (neg32 20)
    ∷ row "-3" (neg32 30)
    ∷ row "-4" (neg32 40)
    ∷ []

unfoldable pub fp_range_wb_shift : List FujiLookup
fp_range_wb_shift =
    row "9" 90
    ∷ row "8" 80
    ∷ row "7" 70
    ∷ row "6" 60
    ∷ row "5" 50
    ∷ row "4" 40
    ∷ row "3" 30
    ∷ row "2" 20
    ∷ row "1" 10
    ∷ row "0" 0
    ∷ row "-1" (neg32 10)
    ∷ row "-2" (neg32 20)
    ∷ row "-3" (neg32 30)
    ∷ row "-4" (neg32 40)
    ∷ row "-5" (neg32 50)
    ∷ row "-6" (neg32 60)
    ∷ row "-7" (neg32 70)
    ∷ row "-8" (neg32 80)
    ∷ row "-9" (neg32 90)
    ∷ []

unfoldable pub fp_clarity : List FujiLookup
fp_clarity =
    row "5" 50
    ∷ row "4" 40
    ∷ row "3" 30
    ∷ row "2" 20
    ∷ row "1" 10
    ∷ row "0" 0
    ∷ row "-1" (neg32 10)
    ∷ row "-2" (neg32 20)
    ∷ row "-3" (neg32 30)
    ∷ row "-4" (neg32 40)
    ∷ row "-5" (neg32 50)
    ∷ []

unfoldable pub fp_range_p4_n2 : List FujiLookup
fp_range_p4_n2 =
    row "4" 40
    ∷ row "3" 30
    ∷ row "2" 20
    ∷ row "1" 10
    ∷ row "0" 0
    ∷ row "-1" (neg32 10)
    ∷ row "-2" (neg32 20)
    ∷ []

unfoldable pub fp_range_p4_n4_halfs : List FujiLookup
fp_range_p4_n4_halfs =
    row "4" 40
    ∷ row "3.5" 35
    ∷ row "3" 30
    ∷ row "2.5" 25
    ∷ row "2" 20
    ∷ row "1.5" 15
    ∷ row "1" 10
    ∷ row "0.5" 5
    ∷ row "0" 0
    ∷ row "-0.5" (neg32 5)
    ∷ row "-1" (neg32 10)
    ∷ row "-1.5" (neg32 15)
    ∷ row "-2" (neg32 20)
    ∷ row "-2.5" (neg32 25)
    ∷ row "-3" (neg32 30)
    ∷ row "-3.5" (neg32 35)
    ∷ row "-4" (neg32 40)
    ∷ []
