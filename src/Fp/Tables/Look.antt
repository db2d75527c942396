-- ===== src/Fp/Tables/Look.antt =====
-- Film simulation, grain, chrome effects and white balance (fp/src/data.c): the tables in source order, without the closing NULL row.
use libfuji.Common.{List, [], ◌∷◌}
use libfuji.Fp.Lookup.{FujiLookup, row}

unfoldable pub fp_film_sim : List FujiLookup
fp_film_sim =
    row "Provia" 1
    ∷ row "Velvia" 2
    ∷ row "Astia" 3
    ∷ row "Classic" 11
    ∷ row "ClassicNEGA" 17
    ∷ row "NEGAStd" 5
    ∷ row "NEGAhi" 4
    ∷ row "AcrosR" 14
    ∷ row "AcrosG" 15
    ∷ row "AcrosYe" 13
    ∷ row "Acros" 12
    ∷ row "Eterna" 16
    ∷ row "BW" 6
    ∷ row "BYe" 7
    ∷ row "BR" 8
    ∷ row "BG" 9
    ∷ row "Sepia" 10
    ∷ row "NostalgicNEGA" 11
    ∷ []

unfoldable pub fp_grain_effect : List FujiLookup
fp_grain_effect = row "OFF" 1 ∷ row "WEAK" 2 ∷ row "STRONG" 3 ∷ []

unfoldable pub fp_grain_effect_size : List FujiLookup
fp_grain_effect_size = row "SMALL" 0 ∷ row "LARGE" 2 ∷ []

unfoldable pub fp_chrome_effect : List FujiLookup
fp_chrome_effect = row "OFF" 1 ∷ row "WEAK" 2 ∷ row "STRONG" 3 ∷ []

unfoldable pub fp_color_chrome_blue : List FujiLookup
fp_color_chrome_blue = row "OFF" 0 ∷ row "WEAK" 1 ∷ row "STRONG" 2 ∷ []

unfoldable pub fp_white_balance_shoot_cond : List FujiLookup
fp_white_balance_shoot_cond = row "ON" 1 ∷ row "OFF" 2 ∷ []

unfoldable pub fp_white_balance_mode : List FujiLookup
fp_white_balance_mode =
    row "AsShot" 0
    ∷ row "INVALID" 1
    ∷ row "Auto" 2
    ∷ row "Custom1" 32776
    ∷ row "Custom2" 32777
    ∷ row "Custom3" 32778
    ∷ row "Temperature" 32775
    ∷ row "Daylight" 4
    ∷ row "Shade" 32774
    ∷ row "FLight1" 32769
    ∷ row "FLight2" 32770
    ∷ row "FLight3" 32771
    ∷ row "Incand" 6
    ∷ row "Uwater" 8
    ∷ []

unfoldable pub fp_noise_reduction : List FujiLookup
fp_noise_reduction =
    row "4" 20480
    ∷ row "3" 24576
    ∷ row "2" 0
    ∷ row "1" 4096
    ∷ row "0" 8192
    ∷ row "-1" 12288
    ∷ row "-2" 16384
    ∷ row "-3" 28672
    ∷ row "-4" 32768
    ∷ []
