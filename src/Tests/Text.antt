-- ===== src/Tests/Text.antt =====
-- Texts, links and the integer root.
use aping.Base.{ℕ, List, [], ◌∷◌, ◌≡◌, arith}
use aping.Hardware.{getmacfrom6b, read_mac, read_mac-getmacfrom6b}
use aping.Report.{isqrt}
use aping.Report.Root.{IsRoot, isqrt-IsRoot}

abbrev word : List ℕ
word = 112 ∷ 105 ∷ 110 ∷ 103 ∷ []

abbrev address : List ℕ
address = 0 ∷ 80 ∷ 86 ∷ 192 ∷ 10 ∷ 255 ∷ []

read_mac-getmacfrom6b_example : read_mac (getmacfrom6b address) ≡ address
read_mac-getmacfrom6b_example =
    read_mac-getmacfrom6b address
      (omega arith, (omega arith, (omega arith, (omega arith, (omega arith, (omega arith, tt))))))

isqrt-IsRoot_example : IsRoot 1000 (isqrt 1000)
isqrt-IsRoot_example = isqrt-IsRoot 1000 (omega arith)
