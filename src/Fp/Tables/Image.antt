-- ===== src/Fp/Tables/Image.antt =====
-- Image format, size, quality, exposure and dynamic range (fp/src/data.c): the tables in source order, without the closing NULL row.
use libfuji.Common.{List, [], ◌∷◌, neg32}
use libfuji.Fp.Lookup.{FujiLookup, row}

unfoldable pub fp_file_type : List FujiLookup
fp_file_type = row "JPG" 7 ∷ row "TIF" 9 ∷ row "TIF_16BIT" 11 ∷ []

unfoldable pub fp_image_size : List FujiLookup
fp_image_size =
    row "L3x2" 7
    ∷ row "L16x9" 8
    ∷ row "L1x1" 9
    ∷ row "M3x2" 4
    ∷ row "M16x9" 5
    ∷ row "M1x1" 6
    ∷ row "S3x2" 1
    ∷ row "S16x9" 2
    ∷ row "S1x1" 3
    ∷ []

unfoldable pub fp_image_quality : List FujiLookup
fp_image_quality = row "Fine" 2 ∷ row "Normal" 3 ∷ []

unfoldable pub fp_exposure_bias : List FujiLookup
fp_exposure_bias =
    row "P3P00" 3000
    ∷ row "P2P67" 2667
    ∷ row "P2P33" 2333
    ∷ row "P2P0" 2000
    ∷ row "P1P67" 1667
    ∷ row "P1P33" 1333
    ∷ row "P1P00" 1000
    ∷ row "P0P67" 667
    ∷ row "P0P33" 333
    ∷ row "0" 0
    ∷ row "M0P33" (neg32 333)
    ∷ row "M0P67" (neg32 667)
    ∷ row "M1P00" (neg32 1000)
    ∷ row "M1P33" (neg32 1333)
    ∷ row "M1P67" (neg32 1667)
    ∷ row "M2P00" (neg32 2000)
    ∷ row "M2P33" (neg32 2333)
    ∷ row "M2P67" (neg32 2667)
    ∷ row "M3P00" (neg32 3000)
    ∷ []

unfoldable pub fp_drange : List FujiLookup
fp_drange = row "DR100" 100 ∷ row "DR200" 200 ∷ row "DR400" 400 ∷ []

unfoldable pub fp_drange_priority : List FujiLookup
fp_drange_priority = row "OFF" 0 ∷ row "0" 0 ∷ row "P1" 1 ∷ row "P2" 2 ∷ row "P3" 3 ∷ []
