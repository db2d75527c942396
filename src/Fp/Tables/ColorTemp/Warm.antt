-- ===== src/Fp/Tables/ColorTemp/Warm.antt =====
-- Rows 0K to 3990K of `fp_color_temp` (fp/src/data.c).
use libfuji.Common.{List, [], ◌∷◌}
use libfuji.Fp.Lookup.{FujiLookup, row}

unfoldable pub color_temp_below_3000 : List FujiLookup
color_temp_below_3000 =
    row "0K" 0
    ∷ row "2200K" 2200
    ∷ row "2500K" 2500
    ∷ row "2510K" 2510
    ∷ row "2520K" 2520
    ∷ row "2530K" 2530
    ∷ row "2540K" 2540
    ∷ row "2550K" 2550
    ∷ row "2560K" 2560
    ∷ row "2570K" 2570
    ∷ row "2580K" 2580
    ∷ row "2590K" 2590
    ∷ row "2600K" 2600
    ∷ row "2610K" 2610
    ∷ row "2620K" 2620
    ∷ row "2630K" 2630
    ∷ row "2640K" 2640
    ∷ row "2650K" 2650
    ∷ row "2660K" 2660
    ∷ row "2670K" 2670
    ∷ row "2680K" 2680
    ∷ row "2690K" 2690
    ∷ row "2700K" 2700
    ∷ row "2710K" 2710
    ∷ row "2720K" 2720
    ∷ row "2730K" 2730
    ∷ row "2740K" 2740
    ∷ row "2750K" 2750
    ∷ row "2760K" 2760
    ∷ row "2770K" 2770
    ∷ row "2780K" 2780
    ∷ row "2790K" 2790
    ∷ row "2800K" 2800
    ∷ row "2810K" 2810
    ∷ row "2820K" 2820
    ∷ row "2830K" 2830
    ∷ row "2840K" 2840
    ∷ row "2850K" 2850
    ∷ row "2860K" 2860
    ∷ row "2870K" 2870
    ∷ row "2880K" 2880
    ∷ row "2890K" 2890
    ∷ row "2900K" 2900
    ∷ row "2910K" 2910
    ∷ row "2920K" 2920
    ∷ row "2930K" 2930
    ∷ row "2940K" 2940
    ∷ row "2950K" 2950
    ∷ row "2960K" 2960
    ∷ row "2970K" 2970
    ∷ row "2980K" 2980
    ∷ row "2990K" 2990
    ∷ []

unfoldable pub color_temp_from_3000 : List FujiLookup
color_temp_from_3000 =
    row "3000K" 3000
    ∷ row "3010K" 3010
    ∷ row "3020K" 3020
    ∷ row "3030K" 3030
    ∷ row "3040K" 3040
    ∷ row "3050K" 3050
    ∷ row "3060K" 3060
    ∷ row "3070K" 3070
    ∷ row "3080K" 3080
    ∷ row "3090K" 3090
    ∷ row "3100K" 3100
    ∷ row "3110K" 3110
    ∷ row "3120K" 3120
    ∷ row "3130K" 3130
    ∷ row "3140K" 3140
    ∷ row "3150K" 3150
    ∷ row "3160K" 3160
    ∷ row "3170K" 3170
    ∷ row "3180K" 3180
    ∷ row "3190K" 3190
    ∷ row "3200K" 3200
    ∷ row "3210K" 3210
    ∷ row "3220K" 3220
    ∷ row "3230K" 3230
    ∷ row "3240K" 3240
    ∷ row "3250K" 3250
    ∷ row "3260K" 3260
    ∷ row "3270K" 3270
    ∷ row "3280K" 3280
    ∷ row "3290K" 3290
    ∷ row "3300K" 3300
    ∷ row "3310K" 3310
    ∷ row "3320K" 3320
    ∷ row "3330K" 3330
    ∷ row "3340K" 3340
    ∷ row "3350K" 3350
    ∷ row "3360K" 3360
    ∷ row "3370K" 3370
    ∷ row "3380K" 3380
    ∷ row "3390K" 3390
    ∷ row "3400K" 3400
    ∷ row "3410K" 3410
    ∷ row "3420K" 3420
    ∷ row "3430K" 3430
    ∷ row "3440K" 3440
    ∷ row "3450K" 3450
    ∷ row "3460K" 3460
    ∷ row "3470K" 3470
    ∷ row "3480K" 3480
    ∷ row "3490K" 3490
    ∷ row "3500K" 3500
    ∷ row "3510K" 3510
    ∷ row "3520K" 3520
    ∷ row "3530K" 3530
    ∷ row "3540K" 3540
    ∷ row "3550K" 3550
    ∷ row "3560K" 3560
    ∷ row "3570K" 3570
    ∷ row "3580K" 3580
    ∷ row "3590K" 3590
    ∷ row "3600K" 3600
    ∷ row "3610K" 3610
    ∷ row "3620K" 3620
    ∷ row "3630K" 3630
    ∷ row "3640K" 3640
    ∷ row "3650K" 3650
    ∷ row "3660K" 3660
    ∷ row "3670K" 3670
    ∷ row "3680K" 3680
    ∷ row "3690K" 3690
    ∷ row "3700K" 3700
    ∷ row "3710K" 3710
    ∷ row "3720K" 3720
    ∷ row "3730K" 3730
    ∷ row "3740K" 3740
    ∷ row "3750K" 3750
    ∷ row "3760K" 3760
    ∷ row "3770K" 3770
    ∷ row "3780K" 3780
    ∷ row "3790K" 3790
    ∷ row "3800K" 3800
    ∷ row "3810K" 3810
    ∷ row "3820K" 3820
    ∷ row "3830K" 3830
    ∷ row "3840K" 3840
    ∷ row "3850K" 3850
    ∷ row "3860K" 3860
    ∷ row "3870K" 3870
    ∷ row "3880K" 3880
    ∷ row "3890K" 3890
    ∷ row "3900K" 3900
    ∷ row "3910K" 3910
    ∷ row "3920K" 3920
    ∷ row "3930K" 3930
    ∷ row "3940K" 3940
    ∷ row "3950K" 3950
    ∷ row "3960K" 3960
    ∷ row "3970K" 3970
    ∷ row "3980K" 3980
    ∷ row "3990K" 3990
    ∷ []
