-- ===== src/Fp/Tables/ColorTemp/Mild.antt =====
-- Rows 4000K to 5990K of `fp_color_temp` (fp/src/data.c).
use libfuji.Common.{List, [], ◌∷◌}
use libfuji.Fp.Lookup.{FujiLookup, row}

unfoldable pub color_temp_from_4000 : List FujiLookup
color_temp_from_4000 =
    row "4000K" 4000
    ∷ row "4010K" 4010
    ∷ row "4020K" 4020
    ∷ row "4030K" 4030
    ∷ row "4040K" 4040
    ∷ row "4050K" 4050
    ∷ row "4060K" 4060
    ∷ row "4070K" 4070
    ∷ row "4080K" 4080
    ∷ row "4090K" 4090
    ∷ row "4100K" 4100
    ∷ row "4110K" 4110
    ∷ row "4120K" 4120
    ∷ row "4130K" 4130
    ∷ row "4140K" 4140
    ∷ row "4150K" 4150
    ∷ row "4160K" 4160
    ∷ row "4170K" 4170
    ∷ row "4180K" 4180
    ∷ row "4190K" 4190
    ∷ row "4200K" 4200
    ∷ row "4210K" 4210
    ∷ row "4220K" 4220
    ∷ row "4230K" 4230
    ∷ row "4240K" 4240
    ∷ row "4250K" 4250
    ∷ row "4260K" 4260
    ∷ row "4270K" 4270
    ∷ row "4280K" 4280
    ∷ row "4290K" 4290
    ∷ row "4300K" 4300
    ∷ row "4310K" 4310
    ∷ row "4320K" 4320
    ∷ row "4330K" 4330
    ∷ row "4340K" 4340
    ∷ row "4350K" 4350
    ∷ row "4360K" 4360
    ∷ row "4370K" 4370
    ∷ row "4380K" 4380
    ∷ row "4390K" 4390
    ∷ row "4400K" 4400
    ∷ row "4410K" 4410
    ∷ row "4420K" 4420
    ∷ row "4430K" 4430
    ∷ row "4440K" 4440
    ∷ row "4450K" 4450
    ∷ row "4460K" 4460
    ∷ row "4470K" 4470
    ∷ row "4480K" 4480
    ∷ row "4490K" 4490
    ∷ row "4500K" 4500
    ∷ row "4510K" 4510
    ∷ row "4520K" 4520
    ∷ row "4530K" 4530
    ∷ row "4540K" 4540
    ∷ row "4550K" 4550
    ∷ row "4560K" 4560
    ∷ row "4570K" 4570
    ∷ row "4580K" 4580
    ∷ row "4590K" 4590
    ∷ row "4600K" 4600
    ∷ row "4610K" 4610
    ∷ row "4620K" 4620
    ∷ row "4630K" 4630
    ∷ row "4640K" 4640
    ∷ row "4650K" 4650
    ∷ row "4660K" 4660
    ∷ row "4670K" 4670
    ∷ row "4680K" 4680
    ∷ row "4690K" 4690
    ∷ row "4700K" 4700
    ∷ row "4710K" 4710
    ∷ row "4720K" 4720
    ∷ row "4730K" 4730
    ∷ row "4740K" 4740
    ∷ row "4750K" 4750
    ∷ row "4760K" 4760
    ∷ row "4770K" 4770
    ∷ row "4780K" 4780
    ∷ row "4790K" 4790
    ∷ row "4800K" 4800
    ∷ row "4810K" 4810
    ∷ row "4820K" 4820
    ∷ row "4830K" 4830
    ∷ row "4840K" 4840
    ∷ row "4850K" 4850
    ∷ row "4860K" 4860
    ∷ row "4870K" 4870
    ∷ row "4880K" 4880
    ∷ row "4890K" 4890
    ∷ row "4900K" 4900
    ∷ row "4910K" 4910
    ∷ row "4920K" 4920
    ∷ row "4930K" 4930
    ∷ row "4940K" 4940
    ∷ row "4950K" 4950
    ∷ row "4960K" 4960
    ∷ row "4970K" 4970
    ∷ row "4980K" 4980
    ∷ row "4990K" 4990
    ∷ []

unfoldable pub color_temp_from_5000 : List FujiLookup
color_temp_from_5000 =
    row "5000K" 5000
    ∷ row "5010K" 5010
    ∷ row "5020K" 5020
    ∷ row "5030K" 5030
    ∷ row "5040K" 5040
    ∷ row "5050K" 5050
    ∷ row "5060K" 5060
    ∷ row "5070K" 5070
    ∷ row "5080K" 5080
    ∷ row "5090K" 5090
    ∷ row "5100K" 5100
    ∷ row "5110K" 5110
    ∷ row "5120K" 5120
    ∷ row "5130K" 5130
    ∷ row "5140K" 5140
    ∷ row "5150K" 5150
    ∷ row "5160K" 5160
    ∷ row "5170K" 5170
    ∷ row "5180K" 5180
    ∷ row "5190K" 5190
    ∷ row "5200K" 5200
    ∷ row "5210K" 5210
    ∷ row "5220K" 5220
    ∷ row "5230K" 5230
    ∷ row "5240K" 5240
    ∷ row "5250K" 5250
    ∷ row "5260K" 5260
    ∷ row "5270K" 5270
    ∷ row "5280K" 5280
    ∷ row "5290K" 5290
    ∷ row "5300K" 5300
    ∷ row "5310K" 5310
    ∷ row "5320K" 5320
    ∷ row "5330K" 5330
    ∷ row "5340K" 5340
    ∷ row "5350K" 5350
    ∷ row "5360K" 5360
    ∷ row "5370K" 5370
    ∷ row "5380K" 5380
    ∷ row "5390K" 5390
    ∷ row "5400K" 5400
    ∷ row "5410K" 5410
    ∷ row "5420K" 5420
    ∷ row "5430K" 5430
    ∷ row "5440K" 5440
    ∷ row "5450K" 5450
    ∷ row "5460K" 5460
    ∷ row "5470K" 5470
    ∷ row "5480K" 5480
    ∷ row "5490K" 5490
    ∷ row "5500K" 5500
    ∷ row "5510K" 5510
    ∷ row "5520K" 5520
    ∷ row "5530K" 5530
    ∷ row "5540K" 5540
    ∷ row "5550K" 5550
    ∷ row "5560K" 5560
    ∷ row "5570K" 5570
    ∷ row "5580K" 5580
    ∷ row "5590K" 5590
    ∷ row "5600K" 5600
    ∷ row "5610K" 5610
    ∷ row "5620K" 5620
    ∷ row "5630K" 5630
    ∷ row "5640K" 5640
    ∷ row "5650K" 5650
    ∷ row "5660K" 5660
    ∷ row "5670K" 5670
    ∷ row "5680K" 5680
    ∷ row "5690K" 5690
    ∷ row "5700K" 5700
    ∷ row "5710K" 5710
    ∷ row "5720K" 5720
    ∷ row "5730K" 5730
    ∷ row "5740K" 5740
    ∷ row "5750K" 5750
    ∷ row "5760K" 5760
    ∷ row "5770K" 5770
    ∷ row "5780K" 5780
    ∷ row "5790K" 5790
    ∷ row "5800K" 5800
    ∷ row "5810K" 5810
    ∷ row "5820K" 5820
    ∷ row "5830K" 5830
    ∷ row "5840K" 5840
    ∷ row "5850K" 5850
    ∷ row "5860K" 5860
    ∷ row "5870K" 5870
    ∷ row "5880K" 5880
    ∷ row "5890K" 5890
    ∷ row "5900K" 5900
    ∷ row "5910K" 5910
    ∷ row "5920K" 5920
    ∷ row "5930K" 5930
    ∷ row "5940K" 5940
    ∷ row "5950K" 5950
    ∷ row "5960K" 5960
    ∷ row "5970K" 5970
    ∷ row "5980K" 5980
    ∷ row "5990K" 5990
    ∷ []
