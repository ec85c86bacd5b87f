-- ===== src/Common/Utf8.antt =====
-- Which bytes are UTF-8, as the `to_str` of a path's name tests: the well-formed sequences of the
-- Unicode standard.
use Prim.Native.Nat.{ℕ, ◌<◌}
use mathlib.Core.Path.{◌≡◌, refl}
use mathlib.Core.Bool.{Bool, true, false, ◌&&◌}
use mathlib.Core.Option.{Option, none, some}
use mathlib.Core.List.{List, [], ◌∷◌}
use velocity_match.Common.Lists.{All}
use velocity_match.Common.Tests.{ltb, leb, ◌==◌, if◌then◌else◌, lt→ltb}

-- The least and the greatest value of a byte.
abbrev pub Range : Type 0
Range = ℕ × ℕ

abbrev continuation : Range
continuation = (128, 191)

-- The bytes that have to follow a first byte; none where no character starts with it.
abbrev pub followed_by : (first : ℕ) → Option (List Range)
followed_by b =
    if ltb b 128
    then some []
    else (if ltb b 194
        then none
        else (if ltb b 224
            then some (continuation ∷ [])
            else (if b == 224
                then some ((160, 191) ∷ continuation ∷ [])
                else (if b == 237
                    then some ((128, 159) ∷ continuation ∷ [])
                    else (if ltb b 240
                        then some (continuation ∷ continuation ∷ [])
                        else (if b == 240
                            then some ((144, 191) ∷ continuation ∷ continuation ∷ [])
                            else (if ltb b 244
                                then some (continuation ∷ continuation ∷ continuation ∷ [])
                                else (if b == 244
                                    then some ((128, 143) ∷ continuation ∷ continuation ∷ [])
                                    else none))))))))

-- The bytes from here on, where some of the ranges given have to come first.
abbrev pub utf8_from : List Range → List ℕ → Bool
utf8_from [] [] = true
utf8_from (_ ∷ _) [] = false
utf8_from ((least, greatest) ∷ ranges) (b ∷ bytes) =
    (leb least b && leb b greatest) && utf8_from ranges bytes
utf8_from [] (b ∷ bytes) = elim (followed_by b) [
  | none ↦ false
  | some ranges ↦ utf8_from ranges bytes
]

abbrev pub is_utf8 : List ℕ → Bool
is_utf8 bytes = utf8_from [] bytes

followed_by-ascii : (b : ℕ) → b < 128 → followed_by b ≡ some []
followed_by-ascii b small = rw (followed_by, lt→ltb b 128 small) refl

-- ASCII is UTF-8.
pub is_utf8-ascii : (bytes : List ℕ) → All (λ b. b < 128) bytes → is_utf8 bytes ≡ true
is_utf8-ascii [] a = refl
is_utf8-ascii (b ∷ bytes) (small, a) =
    rw (utf8_from, followed_by-ascii b small) (is_utf8-ascii bytes a)

abbrev euro : List ℕ
euro = 226 ∷ 130 ∷ 172 ∷ []

abbrev overlong : List ℕ
overlong = 224 ∷ 130 ∷ 172 ∷ []

euro_whole : is_utf8 euro ≡ true
euro_whole = refl

overlong_refused : is_utf8 overlong ≡ false
overlong_refused = refl
