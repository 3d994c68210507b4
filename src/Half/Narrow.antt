-- ===== src/Half/Narrow.antt =====
-- The tables of src/ujo_float.c that take a single precision number to a half.
use libujo_c.Base.{ℕ, List, [], ◌∷◌, ◌++◌}

abbrev pub base_table_0 : List ℕ
base_table_0 =
    0 ∷ 0 ∷ 0 ∷ 0 ∷ 0 ∷ 0 ∷ 0 ∷ 0 ∷ 0 ∷ 0 ∷ 0 ∷ 0 ∷ 0 ∷ 0 ∷ 0 ∷ 0 ∷ 0 ∷ 0 ∷ 0 ∷ 0 ∷ 0 ∷ 0 ∷ 0 ∷ 0
    ∷ 0 ∷ 0 ∷ 0 ∷ 0 ∷ 0 ∷ 0 ∷ 0 ∷ 0 ∷ 0 ∷ 0 ∷ 0 ∷ 0 ∷ 0 ∷ 0 ∷ 0 ∷ 0 ∷ 0 ∷ 0 ∷ 0 ∷ 0 ∷ 0 ∷ 0 ∷ 0 ∷ 0
    ∷ 0 ∷ 0 ∷ 0 ∷ 0 ∷ 0 ∷ 0 ∷ 0 ∷ 0 ∷ 0 ∷ 0 ∷ 0 ∷ 0 ∷ 0 ∷ 0 ∷ 0 ∷ 0 ∷ 0 ∷ 0 ∷ 0 ∷ 0 ∷ 0 ∷ 0 ∷ 0 ∷ 0
    ∷ 0 ∷ 0 ∷ 0 ∷ 0 ∷ 0 ∷ 0 ∷ 0 ∷ 0 ∷ 0 ∷ 0 ∷ 0 ∷ 0 ∷ 0 ∷ 0 ∷ 0 ∷ 0 ∷ 0 ∷ 0 ∷ 0 ∷ 0 ∷ 0 ∷ 0 ∷ 0 ∷ 0
    ∷ 0 ∷ 0 ∷ 0 ∷ 0 ∷ 0 ∷ 0 ∷ 0 ∷ 1 ∷ 2 ∷ 4 ∷ 8 ∷ 16 ∷ 32 ∷ 64 ∷ 128 ∷ 256 ∷ 512 ∷ 1024 ∷ 2048
    ∷ 3072 ∷ 4096 ∷ 5120 ∷ 6144 ∷ 7168 ∷ 8192 ∷ 9216 ∷ 10240 ∷ 11264 ∷ 12288 ∷ 13312 ∷ 14336 ∷ 15360
    ∷ []

abbrev pub base_table_1 : List ℕ
base_table_1 =
    16384 ∷ 17408 ∷ 18432 ∷ 19456 ∷ 20480 ∷ 21504 ∷ 22528 ∷ 23552 ∷ 24576 ∷ 25600 ∷ 26624 ∷ 27648
    ∷ 28672 ∷ 29696 ∷ 30720 ∷ 31744 ∷ 31744 ∷ 31744 ∷ 31744 ∷ 31744 ∷ 31744 ∷ 31744 ∷ 31744 ∷ 31744
    ∷ 31744 ∷ 31744 ∷ 31744 ∷ 31744 ∷ 31744 ∷ 31744 ∷ 31744 ∷ 31744 ∷ 31744 ∷ 31744 ∷ 31744 ∷ 31744
    ∷ 31744 ∷ 31744 ∷ 31744 ∷ 31744 ∷ 31744 ∷ 31744 ∷ 31744 ∷ 31744 ∷ 31744 ∷ 31744 ∷ 31744 ∷ 31744
    ∷ 31744 ∷ 31744 ∷ 31744 ∷ 31744 ∷ 31744 ∷ 31744 ∷ 31744 ∷ 31744 ∷ 31744 ∷ 31744 ∷ 31744 ∷ 31744
    ∷ 31744 ∷ 31744 ∷ 31744 ∷ 31744 ∷ 31744 ∷ 31744 ∷ 31744 ∷ 31744 ∷ 31744 ∷ 31744 ∷ 31744 ∷ 31744
    ∷ 31744 ∷ 31744 ∷ 31744 ∷ 31744 ∷ 31744 ∷ 31744 ∷ 31744 ∷ 31744 ∷ 31744 ∷ 31744 ∷ 31744 ∷ 31744
    ∷ 31744 ∷ 31744 ∷ 31744 ∷ 31744 ∷ 31744 ∷ 31744 ∷ 31744 ∷ 31744 ∷ 31744 ∷ 31744 ∷ 31744 ∷ 31744
    ∷ 31744 ∷ 31744 ∷ 31744 ∷ 31744 ∷ 31744 ∷ 31744 ∷ 31744 ∷ 31744 ∷ 31744 ∷ 31744 ∷ 31744 ∷ 31744
    ∷ 31744 ∷ 31744 ∷ 31744 ∷ 31744 ∷ 31744 ∷ 31744 ∷ 31744 ∷ 31744 ∷ 31744 ∷ 31744 ∷ 31744 ∷ 31744
    ∷ 31744 ∷ 31744 ∷ 31744 ∷ 31744 ∷ 31744 ∷ 31744 ∷ 31744 ∷ 31744 ∷ []

abbrev pub base_table_2 : List ℕ
base_table_2 =
    32768 ∷ 32768 ∷ 32768 ∷ 32768 ∷ 32768 ∷ 32768 ∷ 32768 ∷ 32768 ∷ 32768 ∷ 32768 ∷ 32768 ∷ 32768
    ∷ 32768 ∷ 32768 ∷ 32768 ∷ 32768 ∷ 32768 ∷ 32768 ∷ 32768 ∷ 32768 ∷ 32768 ∷ 32768 ∷ 32768 ∷ 32768
    ∷ 32768 ∷ 32768 ∷ 32768 ∷ 32768 ∷ 32768 ∷ 32768 ∷ 32768 ∷ 32768 ∷ 32768 ∷ 32768 ∷ 32768 ∷ 32768
    ∷ 32768 ∷ 32768 ∷ 32768 ∷ 32768 ∷ 32768 ∷ 32768 ∷ 32768 ∷ 32768 ∷ 32768 ∷ 32768 ∷ 32768 ∷ 32768
    ∷ 32768 ∷ 32768 ∷ 32768 ∷ 32768 ∷ 32768 ∷ 32768 ∷ 32768 ∷ 32768 ∷ 32768 ∷ 32768 ∷ 32768 ∷ 32768
    ∷ 32768 ∷ 32768 ∷ 32768 ∷ 32768 ∷ 32768 ∷ 32768 ∷ 32768 ∷ 32768 ∷ 32768 ∷ 32768 ∷ 32768 ∷ 32768
    ∷ 32768 ∷ 32768 ∷ 32768 ∷ 32768 ∷ 32768 ∷ 32768 ∷ 32768 ∷ 32768 ∷ 32768 ∷ 32768 ∷ 32768 ∷ 32768
    ∷ 32768 ∷ 32768 ∷ 32768 ∷ 32768 ∷ 32768 ∷ 32768 ∷ 32768 ∷ 32768 ∷ 32768 ∷ 32768 ∷ 32768 ∷ 32768
    ∷ 32768 ∷ 32768 ∷ 32768 ∷ 32768 ∷ 32768 ∷ 32768 ∷ 32768 ∷ 32769 ∷ 32770 ∷ 32772 ∷ 32776 ∷ 32784
    ∷ 32800 ∷ 32832 ∷ 32896 ∷ 33024 ∷ 33280 ∷ 33792 ∷ 34816 ∷ 35840 ∷ 36864 ∷ 37888 ∷ 38912 ∷ 39936
    ∷ 40960 ∷ 41984 ∷ 43008 ∷ 44032 ∷ 45056 ∷ 46080 ∷ 47104 ∷ 48128 ∷ []

abbrev pub base_table_3 : List ℕ
base_table_3 =
    49152 ∷ 50176 ∷ 51200 ∷ 52224 ∷ 53248 ∷ 54272 ∷ 55296 ∷ 56320 ∷ 57344 ∷ 58368 ∷ 59392 ∷ 60416
    ∷ 61440 ∷ 62464 ∷ 63488 ∷ 64512 ∷ 64512 ∷ 64512 ∷ 64512 ∷ 64512 ∷ 64512 ∷ 64512 ∷ 64512 ∷ 64512
    ∷ 64512 ∷ 64512 ∷ 64512 ∷ 64512 ∷ 64512 ∷ 64512 ∷ 64512 ∷ 64512 ∷ 64512 ∷ 64512 ∷ 64512 ∷ 64512
    ∷ 64512 ∷ 64512 ∷ 64512 ∷ 64512 ∷ 64512 ∷ 64512 ∷ 64512 ∷ 64512 ∷ 64512 ∷ 64512 ∷ 64512 ∷ 64512
    ∷ 64512 ∷ 64512 ∷ 64512 ∷ 64512 ∷ 64512 ∷ 64512 ∷ 64512 ∷ 64512 ∷ 64512 ∷ 64512 ∷ 64512 ∷ 64512
    ∷ 64512 ∷ 64512 ∷ 64512 ∷ 64512 ∷ 64512 ∷ 64512 ∷ 64512 ∷ 64512 ∷ 64512 ∷ 64512 ∷ 64512 ∷ 64512
    ∷ 64512 ∷ 64512 ∷ 64512 ∷ 64512 ∷ 64512 ∷ 64512 ∷ 64512 ∷ 64512 ∷ 64512 ∷ 64512 ∷ 64512 ∷ 64512
    ∷ 64512 ∷ 64512 ∷ 64512 ∷ 64512 ∷ 64512 ∷ 64512 ∷ 64512 ∷ 64512 ∷ 64512 ∷ 64512 ∷ 64512 ∷ 64512
    ∷ 64512 ∷ 64512 ∷ 64512 ∷ 64512 ∷ 64512 ∷ 64512 ∷ 64512 ∷ 64512 ∷ 64512 ∷ 64512 ∷ 64512 ∷ 64512
    ∷ 64512 ∷ 64512 ∷ 64512 ∷ 64512 ∷ 64512 ∷ 64512 ∷ 64512 ∷ 64512 ∷ 64512 ∷ 64512 ∷ 64512 ∷ 64512
    ∷ 64512 ∷ 64512 ∷ 64512 ∷ 64512 ∷ 64512 ∷ 64512 ∷ 64512 ∷ 64512 ∷ []

abbrev pub base_table : List ℕ
base_table = base_table_0 ++ base_table_1 ++ base_table_2 ++ base_table_3

abbrev pub shift_table_0 : List ℕ
shift_table_0 =
    24 ∷ 24 ∷ 24 ∷ 24 ∷ 24 ∷ 24 ∷ 24 ∷ 24 ∷ 24 ∷ 24 ∷ 24 ∷ 24 ∷ 24 ∷ 24 ∷ 24 ∷ 24 ∷ 24 ∷ 24 ∷ 24
    ∷ 24 ∷ 24 ∷ 24 ∷ 24 ∷ 24 ∷ 24 ∷ 24 ∷ 24 ∷ 24 ∷ 24 ∷ 24 ∷ 24 ∷ 24 ∷ 24 ∷ 24 ∷ 24 ∷ 24 ∷ 24 ∷ 24
    ∷ 24 ∷ 24 ∷ 24 ∷ 24 ∷ 24 ∷ 24 ∷ 24 ∷ 24 ∷ 24 ∷ 24 ∷ 24 ∷ 24 ∷ 24 ∷ 24 ∷ 24 ∷ 24 ∷ 24 ∷ 24 ∷ 24
    ∷ 24 ∷ 24 ∷ 24 ∷ 24 ∷ 24 ∷ 24 ∷ 24 ∷ 24 ∷ 24 ∷ 24 ∷ 24 ∷ 24 ∷ 24 ∷ 24 ∷ 24 ∷ 24 ∷ 24 ∷ 24 ∷ 24
    ∷ 24 ∷ 24 ∷ 24 ∷ 24 ∷ 24 ∷ 24 ∷ 24 ∷ 24 ∷ 24 ∷ 24 ∷ 24 ∷ 24 ∷ 24 ∷ 24 ∷ 24 ∷ 24 ∷ 24 ∷ 24 ∷ 24
    ∷ 24 ∷ 24 ∷ 24 ∷ 24 ∷ 24 ∷ 24 ∷ 24 ∷ 24 ∷ 23 ∷ 22 ∷ 21 ∷ 20 ∷ 19 ∷ 18 ∷ 17 ∷ 16 ∷ 15 ∷ 14 ∷ 13
    ∷ 13 ∷ 13 ∷ 13 ∷ 13 ∷ 13 ∷ 13 ∷ 13 ∷ 13 ∷ 13 ∷ 13 ∷ 13 ∷ 13 ∷ 13 ∷ 13 ∷ []

abbrev pub shift_table_1 : List ℕ
shift_table_1 =
    13 ∷ 13 ∷ 13 ∷ 13 ∷ 13 ∷ 13 ∷ 13 ∷ 13 ∷ 13 ∷ 13 ∷ 13 ∷ 13 ∷ 13 ∷ 13 ∷ 13 ∷ 24 ∷ 24 ∷ 24 ∷ 24
    ∷ 24 ∷ 24 ∷ 24 ∷ 24 ∷ 24 ∷ 24 ∷ 24 ∷ 24 ∷ 24 ∷ 24 ∷ 24 ∷ 24 ∷ 24 ∷ 24 ∷ 24 ∷ 24 ∷ 24 ∷ 24 ∷ 24
    ∷ 24 ∷ 24 ∷ 24 ∷ 24 ∷ 24 ∷ 24 ∷ 24 ∷ 24 ∷ 24 ∷ 24 ∷ 24 ∷ 24 ∷ 24 ∷ 24 ∷ 24 ∷ 24 ∷ 24 ∷ 24 ∷ 24
    ∷ 24 ∷ 24 ∷ 24 ∷ 24 ∷ 24 ∷ 24 ∷ 24 ∷ 24 ∷ 24 ∷ 24 ∷ 24 ∷ 24 ∷ 24 ∷ 24 ∷ 24 ∷ 24 ∷ 24 ∷ 24 ∷ 24
    ∷ 24 ∷ 24 ∷ 24 ∷ 24 ∷ 24 ∷ 24 ∷ 24 ∷ 24 ∷ 24 ∷ 24 ∷ 24 ∷ 24 ∷ 24 ∷ 24 ∷ 24 ∷ 24 ∷ 24 ∷ 24 ∷ 24
    ∷ 24 ∷ 24 ∷ 24 ∷ 24 ∷ 24 ∷ 24 ∷ 24 ∷ 24 ∷ 24 ∷ 24 ∷ 24 ∷ 24 ∷ 24 ∷ 24 ∷ 24 ∷ 24 ∷ 24 ∷ 24 ∷ 24
    ∷ 24 ∷ 24 ∷ 24 ∷ 24 ∷ 24 ∷ 24 ∷ 24 ∷ 24 ∷ 24 ∷ 24 ∷ 24 ∷ 24 ∷ 24 ∷ 13 ∷ []

abbrev pub shift_table_2 : List ℕ
shift_table_2 =
    24 ∷ 24 ∷ 24 ∷ 24 ∷ 24 ∷ 24 ∷ 24 ∷ 24 ∷ 24 ∷ 24 ∷ 24 ∷ 24 ∷ 24 ∷ 24 ∷ 24 ∷ 24 ∷ 24 ∷ 24 ∷ 24
    ∷ 24 ∷ 24 ∷ 24 ∷ 24 ∷ 24 ∷ 24 ∷ 24 ∷ 24 ∷ 24 ∷ 24 ∷ 24 ∷ 24 ∷ 24 ∷ 24 ∷ 24 ∷ 24 ∷ 24 ∷ 24 ∷ 24
    ∷ 24 ∷ 24 ∷ 24 ∷ 24 ∷ 24 ∷ 24 ∷ 24 ∷ 24 ∷ 24 ∷ 24 ∷ 24 ∷ 24 ∷ 24 ∷ 24 ∷ 24 ∷ 24 ∷ 24 ∷ 24 ∷ 24
    ∷ 24 ∷ 24 ∷ 24 ∷ 24 ∷ 24 ∷ 24 ∷ 24 ∷ 24 ∷ 24 ∷ 24 ∷ 24 ∷ 24 ∷ 24 ∷ 24 ∷ 24 ∷ 24 ∷ 24 ∷ 24 ∷ 24
    ∷ 24 ∷ 24 ∷ 24 ∷ 24 ∷ 24 ∷ 24 ∷ 24 ∷ 24 ∷ 24 ∷ 24 ∷ 24 ∷ 24 ∷ 24 ∷ 24 ∷ 24 ∷ 24 ∷ 24 ∷ 24 ∷ 24
    ∷ 24 ∷ 24 ∷ 24 ∷ 24 ∷ 24 ∷ 24 ∷ 24 ∷ 24 ∷ 23 ∷ 22 ∷ 21 ∷ 20 ∷ 19 ∷ 18 ∷ 17 ∷ 16 ∷ 15 ∷ 14 ∷ 13
    ∷ 13 ∷ 13 ∷ 13 ∷ 13 ∷ 13 ∷ 13 ∷ 13 ∷ 13 ∷ 13 ∷ 13 ∷ 13 ∷ 13 ∷ 13 ∷ 13 ∷ []

abbrev pub shift_table_3 : List ℕ
shift_table_3 =
    13 ∷ 13 ∷ 13 ∷ 13 ∷ 13 ∷ 13 ∷ 13 ∷ 13 ∷ 13 ∷ 13 ∷ 13 ∷ 13 ∷ 13 ∷ 13 ∷ 13 ∷ 24 ∷ 24 ∷ 24 ∷ 24
    ∷ 24 ∷ 24 ∷ 24 ∷ 24 ∷ 24 ∷ 24 ∷ 24 ∷ 24 ∷ 24 ∷ 24 ∷ 24 ∷ 24 ∷ 24 ∷ 24 ∷ 24 ∷ 24 ∷ 24 ∷ 24 ∷ 24
    ∷ 24 ∷ 24 ∷ 24 ∷ 24 ∷ 24 ∷ 24 ∷ 24 ∷ 24 ∷ 24 ∷ 24 ∷ 24 ∷ 24 ∷ 24 ∷ 24 ∷ 24 ∷ 24 ∷ 24 ∷ 24 ∷ 24
    ∷ 24 ∷ 24 ∷ 24 ∷ 24 ∷ 24 ∷ 24 ∷ 24 ∷ 24 ∷ 24 ∷ 24 ∷ 24 ∷ 24 ∷ 24 ∷ 24 ∷ 24 ∷ 24 ∷ 24 ∷ 24 ∷ 24
    ∷ 24 ∷ 24 ∷ 24 ∷ 24 ∷ 24 ∷ 24 ∷ 24 ∷ 24 ∷ 24 ∷ 24 ∷ 24 ∷ 24 ∷ 24 ∷ 24 ∷ 24 ∷ 24 ∷ 24 ∷ 24 ∷ 24
    ∷ 24 ∷ 24 ∷ 24 ∷ 24 ∷ 24 ∷ 24 ∷ 24 ∷ 24 ∷ 24 ∷ 24 ∷ 24 ∷ 24 ∷ 24 ∷ 24 ∷ 24 ∷ 24 ∷ 24 ∷ 24 ∷ 24
    ∷ 24 ∷ 24 ∷ 24 ∷ 24 ∷ 24 ∷ 24 ∷ 24 ∷ 24 ∷ 24 ∷ 24 ∷ 24 ∷ 24 ∷ 24 ∷ 13 ∷ []

abbrev pub shift_table : List ℕ
shift_table = shift_table_0 ++ shift_table_1 ++ shift_table_2 ++ shift_table_3
