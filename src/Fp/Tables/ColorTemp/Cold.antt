-- ===== src/Fp/Tables/ColorTemp/Cold.antt =====
-- Rows 8000K to 10000K of `fp_color_temp` (fp/src/data.c).
use libfuji.Common.{List, [], ◌∷◌}
use libfuji.Fp.Lookup.{FujiLookup, row}

unfoldable pub color_temp_from_8000 : List FujiLookup
color_temp_from_8000 =
    row "8000K" 8000
    ∷ row "8010K" 8010
    ∷ row "8020K" 8020
    ∷ row "8030K" 8030
    ∷ row "8040K" 8040
    ∷ row "8050K" 8050
    ∷ row "8060K" 8060
    ∷ row "8070K" 8070
    ∷ row "8080K" 8080
    ∷ row "8090K" 8090
    ∷ row "8100K" 8100
    ∷ row "8110K" 8110
    ∷ row "8120K" 8120
    ∷ row "8130K" 8130
    ∷ row "8140K" 8140
    ∷ row "8150K" 8150
    ∷ row "8160K" 8160
    ∷ row "8170K" 8170
    ∷ row "8180K" 8180
    ∷ row "8190K" 8190
    ∷ row "8200K" 8200
    ∷ row "8210K" 8210
    ∷ row "8220K" 8220
    ∷ row "8230K" 8230
    ∷ row "8240K" 8240
    ∷ row "8250K" 8250
    ∷ row "8260K" 8260
    ∷ row "8270K" 8270
    ∷ row "8280K" 8280
    ∷ row "8290K" 8290
    ∷ row "8300K" 8300
    ∷ row "8310K" 8310
    ∷ row "8320K" 8320
    ∷ row "8330K" 8330
    ∷ row "8340K" 8340
    ∷ row "8350K" 8350
    ∷ row "8360K" 8360
    ∷ row "8370K" 8370
    ∷ row "8380K" 8380
    ∷ row "8390K" 8390
    ∷ row "8400K" 8400
    ∷ row "8410K" 8410
    ∷ row "8420K" 8420
    ∷ row "8430K" 8430
    ∷ row "8440K" 8440
    ∷ row "8450K" 8450
    ∷ row "8460K" 8460
    ∷ row "8470K" 8470
    ∷ row "8480K" 8480
    ∷ row "8490K" 8490
    ∷ row "8500K" 8500
    ∷ row "8510K" 8510
    ∷ row "8520K" 8520
    ∷ row "8530K" 8530
    ∷ row "8540K" 8540
    ∷ row "8550K" 8550
    ∷ row "8560K" 8560
    ∷ row "8570K" 8570
    ∷ row "8580K" 8580
    ∷ row "8590K" 8590
    ∷ row "8600K" 8600
    ∷ row "8610K" 8610
    ∷ row "8620K" 8620
    ∷ row "8630K" 8630
    ∷ row "8640K" 8640
    ∷ row "8650K" 8650
    ∷ row "8660K" 8660
    ∷ row "8670K" 8670
    ∷ row "8680K" 8680
    ∷ row "8690K" 8690
    ∷ row "8700K" 8700
    ∷ row "8710K" 8710
    ∷ row "8720K" 8720
    ∷ row "8730K" 8730
    ∷ row "8740K" 8740
    ∷ row "8750K" 8750
    ∷ row "8760K" 8760
    ∷ row "8770K" 8770
    ∷ row "8780K" 8780
    ∷ row "8790K" 8790
    ∷ row "8800K" 8800
    ∷ row "8810K" 8810
    ∷ row "8820K" 8820
    ∷ row "8830K" 8830
    ∷ row "8840K" 8840
    ∷ row "8850K" 8850
    ∷ row "8860K" 8860
    ∷ row "8870K" 8870
    ∷ row "8880K" 8880
    ∷ row "8890K" 8890
    ∷ row "8900K" 8900
    ∷ row "8910K" 8910
    ∷ row "8920K" 8920
    ∷ row "8930K" 8930
    ∷ row "8940K" 8940
    ∷ row "8950K" 8950
    ∷ row "8960K" 8960
    ∷ row "8970K" 8970
    ∷ row "8980K" 8980
    ∷ row "8990K" 8990
    ∷ []

unfoldable pub color_temp_from_9000 : List FujiLookup
color_temp_from_9000 =
    row "9000K" 9000
    ∷ row "9010K" 9010
    ∷ row "9020K" 9020
    ∷ row "9030K" 9030
    ∷ row "9040K" 9040
    ∷ row "9050K" 9050
    ∷ row "9060K" 9060
    ∷ row "9070K" 9070
    ∷ row "9080K" 9080
    ∷ row "9090K" 9090
    ∷ row "9100K" 9100
    ∷ row "9110K" 9110
    ∷ row "9120K" 9120
    ∷ row "9130K" 9130
    ∷ row "9140K" 9140
    ∷ row "9150K" 9150
    ∷ row "9160K" 9160
    ∷ row "9170K" 9170
    ∷ row "9180K" 9180
    ∷ row "9190K" 9190
    ∷ row "9200K" 9200
    ∷ row "9210K" 9210
    ∷ row "9220K" 9220
    ∷ row "9230K" 9230
    ∷ row "9240K" 9240
    ∷ row "9250K" 9250
    ∷ row "9260K" 9260
    ∷ row "9270K" 9270
    ∷ row "9280K" 9280
    ∷ row "9290K" 9290
    ∷ row "9300K" 9300
    ∷ row "9310K" 9310
    ∷ row "9320K" 9320
    ∷ row "9330K" 9330
    ∷ row "9340K" 9340
    ∷ row "9350K" 9350
    ∷ row "9360K" 9360
    ∷ row "9370K" 9370
    ∷ row "9380K" 9380
    ∷ row "9390K" 9390
    ∷ row "9400K" 9400
    ∷ row "9410K" 9410
    ∷ row "9420K" 9420
    ∷ row "9430K" 9430
    ∷ row "9440K" 9440
    ∷ row "9450K" 9450
    ∷ row "9460K" 9460
    ∷ row "9470K" 9470
    ∷ row "9480K" 9480
    ∷ row "9490K" 9490
    ∷ row "9500K" 9500
    ∷ row "9510K" 9510
    ∷ row "9520K" 9520
    ∷ row "9530K" 9530
    ∷ row "9540K" 9540
    ∷ row "9550K" 9550
    ∷ row "9560K" 9560
    ∷ row "9570K" 9570
    ∷ row "9580K" 9580
    ∷ row "9590K" 9590
    ∷ row "9600K" 9600
    ∷ row "9610K" 9610
    ∷ row "9620K" 9620
    ∷ row "9630K" 9630
    ∷ row "9640K" 9640
    ∷ row "9650K" 9650
    ∷ row "9660K" 9660
    ∷ row "9670K" 9670
    ∷ row "9680K" 9680
    ∷ row "9690K" 9690
    ∷ row "9700K" 9700
    ∷ row "9710K" 9710
    ∷ row "9720K" 9720
    ∷ row "9730K" 9730
    ∷ row "9740K" 9740
    ∷ row "9750K" 9750
    ∷ row "9760K" 9760
    ∷ row "9770K" 9770
    ∷ row "9780K" 9780
    ∷ row "9790K" 9790
    ∷ row "9800K" 9800
    ∷ row "9810K" 9810
    ∷ row "9820K" 9820
    ∷ row "9830K" 9830
    ∷ row "9840K" 9840
    ∷ row "9850K" 9850
    ∷ row "9860K" 9860
    ∷ row "9870K" 9870
    ∷ row "9880K" 9880
    ∷ row "9890K" 9890
    ∷ row "9900K" 9900
    ∷ row "9910K" 9910
    ∷ row "9920K" 9920
    ∷ row "9930K" 9930
    ∷ row "9940K" 9940
    ∷ row "9950K" 9950
    ∷ row "9960K" 9960
    ∷ row "9970K" 9970
    ∷ row "9980K" 9980
    ∷ row "9990K" 9990
    ∷ row "10000K" 1000
    ∷ []
