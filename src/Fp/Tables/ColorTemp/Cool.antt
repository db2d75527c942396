-- ===== src/Fp/Tables/ColorTemp/Cool.antt =====
-- Rows 6000K to 7990K of `fp_color_temp` (fp/src/data.c).
use libfuji.Common.{List, [], ◌∷◌}
use libfuji.Fp.Lookup.{FujiLookup, row}

unfoldable pub color_temp_from_6000 : List FujiLookup
color_temp_from_6000 =
    row "6000K" 6000
    ∷ row "6010K" 6010
    ∷ row "6020K" 6020
    ∷ row "6030K" 6030
    ∷ row "6040K" 6040
    ∷ row "6050K" 6050
    ∷ row "6060K" 6060
    ∷ row "6070K" 6070
    ∷ row "6080K" 6080
    ∷ row "6090K" 6090
    ∷ row "6100K" 6100
    ∷ row "6110K" 6110
    ∷ row "6120K" 6120
    ∷ row "6130K" 6130
    ∷ row "6140K" 6140
    ∷ row "6150K" 6150
    ∷ row "6160K" 6160
    ∷ row "6170K" 6170
    ∷ row "6180K" 6180
    ∷ row "6190K" 6190
    ∷ row "6200K" 6200
    ∷ row "6210K" 6210
    ∷ row "6220K" 6220
    ∷ row "6230K" 6230
    ∷ row "6240K" 6240
    ∷ row "6250K" 6250
    ∷ row "6260K" 6260
    ∷ row "6270K" 6270
    ∷ row "6280K" 6280
    ∷ row "6290K" 6290
    ∷ row "6300K" 6300
    ∷ row "6310K" 6310
    ∷ row "6320K" 6320
    ∷ row "6330K" 6330
    ∷ row "6340K" 6340
    ∷ row "6350K" 6350
    ∷ row "6360K" 6360
    ∷ row "6370K" 6370
    ∷ row "6380K" 6380
    ∷ row "6390K" 6390
    ∷ row "6400K" 6400
    ∷ row "6410K" 6410
    ∷ row "6420K" 6420
    ∷ row "6430K" 6430
    ∷ row "6440K" 6440
    ∷ row "6450K" 6450
    ∷ row "6460K" 6460
    ∷ row "6470K" 6470
    ∷ row "6480K" 6480
    ∷ row "6490K" 6490
    ∷ row "6500K" 6500
    ∷ row "6510K" 6510
    ∷ row "6520K" 6520
    ∷ row "6530K" 6530
    ∷ row "6540K" 6540
    ∷ row "6550K" 6550
    ∷ row "6560K" 6560
    ∷ row "6570K" 6570
    ∷ row "6580K" 6580
    ∷ row "6590K" 6590
    ∷ row "6600K" 6600
    ∷ row "6610K" 6610
    ∷ row "6620K" 6620
    ∷ row "6630K" 6630
    ∷ row "6640K" 6640
    ∷ row "6650K" 6650
    ∷ row "6660K" 6660
    ∷ row "6670K" 6670
    ∷ row "6680K" 6680
    ∷ row "6690K" 6690
    ∷ row "6700K" 6700
    ∷ row "6710K" 6710
    ∷ row "6720K" 6720
    ∷ row "6730K" 6730
    ∷ row "6740K" 6740
    ∷ row "6750K" 6750
    ∷ row "6760K" 6760
    ∷ row "6770K" 6770
    ∷ row "6780K" 6780
    ∷ row "6790K" 6790
    ∷ row "6800K" 6800
    ∷ row "6810K" 6810
    ∷ row "6820K" 6820
    ∷ row "6830K" 6830
    ∷ row "6840K" 6840
    ∷ row "6850K" 6850
    ∷ row "6860K" 6860
    ∷ row "6870K" 6870
    ∷ row "6880K" 6880
    ∷ row "6890K" 6890
    ∷ row "6900K" 6900
    ∷ row "6910K" 6910
    ∷ row "6920K" 6920
    ∷ row "6930K" 6930
    ∷ row "6940K" 6940
    ∷ row "6950K" 6950
    ∷ row "6960K" 6960
    ∷ row "6970K" 6970
    ∷ row "6980K" 6980
    ∷ row "6990K" 6990
    ∷ []

unfoldable pub color_temp_from_7000 : List FujiLookup
color_temp_from_7000 =
    row "7000K" 7000
    ∷ row "7010K" 7010
    ∷ row "7020K" 7020
    ∷ row "7030K" 7030
    ∷ row "7040K" 7040
    ∷ row "7050K" 7050
    ∷ row "7060K" 7060
    ∷ row "7070K" 7070
    ∷ row "7080K" 7080
    ∷ row "7090K" 7090
    ∷ row "7100K" 7100
    ∷ row "7110K" 7110
    ∷ row "7120K" 7120
    ∷ row "7130K" 7130
    ∷ row "7140K" 7140
    ∷ row "7150K" 7150
    ∷ row "7160K" 7160
    ∷ row "7170K" 7170
    ∷ row "7180K" 7180
    ∷ row "7190K" 7190
    ∷ row "7200K" 7200
    ∷ row "7210K" 7210
    ∷ row "7220K" 7220
    ∷ row "7230K" 7230
    ∷ row "7240K" 7240
    ∷ row "7250K" 7250
    ∷ row "7260K" 7260
    ∷ row "7270K" 7270
    ∷ row "7280K" 7280
    ∷ row "7290K" 7290
    ∷ row "7300K" 7300
    ∷ row "7310K" 7310
    ∷ row "7320K" 7320
    ∷ row "7330K" 7330
    ∷ row "7340K" 7340
    ∷ row "7350K" 7350
    ∷ row "7360K" 7360
    ∷ row "7370K" 7370
    ∷ row "7380K" 7380
    ∷ row "7390K" 7390
    ∷ row "7400K" 7400
    ∷ row "7410K" 7410
    ∷ row "7420K" 7420
    ∷ row "7430K" 7430
    ∷ row "7440K" 7440
    ∷ row "7450K" 7450
    ∷ row "7460K" 7460
    ∷ row "7470K" 7470
    ∷ row "7480K" 7480
    ∷ row "7490K" 7490
    ∷ row "7500K" 7500
    ∷ row "7510K" 7510
    ∷ row "7520K" 7520
    ∷ row "7530K" 7530
    ∷ row "7540K" 7540
    ∷ row "7550K" 7550
    ∷ row "7560K" 7560
    ∷ row "7570K" 7570
    ∷ row "7580K" 7580
    ∷ row "7590K" 7590
    ∷ row "7600K" 7600
    ∷ row "7610K" 7610
    ∷ row "7620K" 7620
    ∷ row "7630K" 7630
    ∷ row "7640K" 7640
    ∷ row "7650K" 7650
    ∷ row "7660K" 7660
    ∷ row "7670K" 7670
    ∷ row "7680K" 7680
    ∷ row "7690K" 7690
    ∷ row "7700K" 7700
    ∷ row "7710K" 7710
    ∷ row "7720K" 7720
    ∷ row "7730K" 7730
    ∷ row "7740K" 7740
    ∷ row "7750K" 7750
    ∷ row "7760K" 7760
    ∷ row "7770K" 7770
    ∷ row "7780K" 7780
    ∷ row "7790K" 7790
    ∷ row "7800K" 7800
    ∷ row "7810K" 7810
    ∷ row "7820K" 7820
    ∷ row "7830K" 7830
    ∷ row "7840K" 7840
    ∷ row "7850K" 7850
    ∷ row "7860K" 7860
    ∷ row "7870K" 7870
    ∷ row "7880K" 7880
    ∷ row "7890K" 7890
    ∷ row "7900K" 7900
    ∷ row "7910K" 7910
    ∷ row "7920K" 7920
    ∷ row "7930K" 7930
    ∷ row "7940K" 7940
    ∷ row "7950K" 7950
    ∷ row "7960K" 7960
    ∷ row "7970K" 7970
    ∷ row "7980K" 7980
    ∷ row "7990K" 7990
    ∷ []
