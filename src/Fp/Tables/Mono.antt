-- ===== src/Fp/Tables/Mono.antt =====
-- Monochrome colour shifts (fp/src/data.c): the tables in source order, without the closing NULL row.
use libfuji.Common.{List, [], ◌∷◌, neg32}
use libfuji.Fp.Lookup.{FujiLookup, row}

unfoldable pub fp_range_mono_shift_warm_cold : List FujiLookup
fp_range_mono_shift_warm_cold =
    row "18" 180
    ∷ row "17" 170
    ∷ row "16" 160
    ∷ row "15" 150
    ∷ row "14" 140
    ∷ row "13" 130
    ∷ row "12" 120
    ∷ row "11" 110
    ∷ row "10" 100
    ∷ row "9" 90
    ∷ row "8" 80
    ∷ row "7" 70
    ∷ row "6" 60
    ∷ row "5" 50
    ∷ row "4" 40
    ∷ row "3" 30
    ∷ row "2" 20
    ∷ row "1" 10
    ∷ row "0" 0
    ∷ row "-1" (neg32 10)
    ∷ row "-2" (neg32 20)
    ∷ row "-3" (neg32 30)
    ∷ row "-4" (neg32 40)
    ∷ row "-5" (neg32 50)
    ∷ row "-6" (neg32 60)
    ∷ row "-7" (neg32 70)
    ∷ row "-8" (neg32 80)
    ∷ row "-9" (neg32 90)
    ∷ row "-10" (neg32 100)
    ∷ row "-11" (neg32 110)
    ∷ row "-12" (neg32 120)
    ∷ row "-13" (neg32 130)
    ∷ row "-14" (neg32 140)
    ∷ row "-15" (neg32 150)
    ∷ row "-16" (neg32 160)
    ∷ row "-17" (neg32 170)
    ∷ row "-18" (neg32 180)
    ∷ []

unfoldable pub fp_range_mono_green_magenta : List FujiLookup
fp_range_mono_green_magenta =
    row "18" 180
    ∷ row "17" 170
    ∷ row "16" 160
    ∷ row "15" 150
    ∷ row "14" 140
    ∷ row "13" 130
    ∷ row "12" 120
    ∷ row "11" 110
    ∷ row "10" 100
    ∷ row "9" 90
    ∷ row "8" 80
    ∷ row "7" 70
    ∷ row "6" 60
    ∷ row "5" 50
    ∷ row "4" 40
    ∷ row "3" 30
    ∷ row "2" 20
    ∷ row "1" 10
    ∷ row "0" 0
    ∷ row "-1" (neg32 10)
    ∷ row "-2" (neg32 20)
    ∷ row "-3" (neg32 30)
    ∷ row "-4" (neg32 40)
    ∷ row "-5" (neg32 50)
    ∷ row "-6" (neg32 60)
    ∷ row "-7" (neg32 70)
    ∷ row "-8" (neg32 80)
    ∷ row "-9" (neg32 90)
    ∷ row "-10" (neg32 100)
    ∷ row "-11" (neg32 110)
    ∷ row "-12" (neg32 120)
    ∷ row "-13" (neg32 130)
    ∷ row "-14" (neg32 140)
    ∷ row "-15" (neg32 150)
    ∷ row "-16" (neg32 160)
    ∷ row "-17" (neg32 170)
    ∷ row "-18" (neg32 180)
    ∷ []
