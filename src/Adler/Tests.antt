-- ===== src/Adler/Tests.antt =====
-- The checksum of source/src/tools.cpp at a published value.
use otg_premium_version.Common.{ℕ, ◌+◌, ◌*◌, ◌^◌, List, [], ◌∷◌, ◌≡◌, refl, arith}
use otg_premium_version.Adler.{adler_checksum}
use otg_premium_version.Adler.Sums.{reference, adler_checksum-reference}

-- "Wikipedia"
abbrev word_bytes : List ℕ
word_bytes = 87 ∷ 105 ∷ 107 ∷ 105 ∷ 112 ∷ 101 ∷ 100 ∷ 105 ∷ 97 ∷ []

published : adler_checksum word_bytes ≡ 0x11E60398
unfolding adler_checksum
published = refl

adler_checksum-reference_example :
    adler_checksum word_bytes
    ≡ (reference word_bytes (record { a = 1; b = 0 })).a
      + (reference word_bytes (record { a = 1; b = 0 })).b * 2 ^ 16
adler_checksum-reference_example = adler_checksum-reference word_bytes (omega arith) (omega arith)
