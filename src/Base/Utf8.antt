-- ===== src/Base/Utf8.antt =====
-- UTF-8, as `String::from_utf8` and `OsString::into_string` check it, and `str::trim`.
use mathlib.Core.List.{reverse, reverse-cons, reverse-reverse, ◌++◌, List, [], ◌∷◌}
use mathlib.Core.Path.{◌≡◌, refl}
use native.Mathlib.Omega.{arith}
use pakstak.Base.Tests.{nat_eq, leb, if◌then◌else◌}
use pakstak.Base.Strings.{Text}
use pakstak.Base.Lists.{drop, length, All}
use Prim.Native.Nat.{ℕ, zero, suc, ◌<◌}
use mathlib.Core.Bool.{Bool, true, false, ◌&&◌, ◌||◌}
use mathlib.Core.Option.{Option, none, some}

abbrev Ranges : Type 0
Ranges = List (ℕ × ℕ)

abbrev within : ℕ → ℕ → ℕ → Bool
within lo hi b = leb lo b && leb b hi

-- The ranges of the bytes that must follow a first byte.
lead : ℕ → Option Ranges
lead b =
    if leb b 0x7f
    then some []
    else if within 0xc2 0xdf b
    then some ((0x80, 0xbf) ∷ [])
    else if nat_eq b 0xe0
    then some ((0xa0, 0xbf) ∷ (0x80, 0xbf) ∷ [])
    else if nat_eq b 0xed
    then some ((0x80, 0x9f) ∷ (0x80, 0xbf) ∷ [])
    else if within 0xe1 0xef b
    then some ((0x80, 0xbf) ∷ (0x80, 0xbf) ∷ [])
    else if nat_eq b 0xf0
    then some ((0x90, 0xbf) ∷ (0x80, 0xbf) ∷ (0x80, 0xbf) ∷ [])
    else if within 0xf1 0xf3 b
    then some ((0x80, 0xbf) ∷ (0x80, 0xbf) ∷ (0x80, 0xbf) ∷ [])
    else if nat_eq b 0xf4
    then some ((0x80, 0x8f) ∷ (0x80, 0xbf) ∷ (0x80, 0xbf) ∷ [])
    else none

utf8_from : Ranges → Text → Bool
utf8_from [] [] = true
utf8_from (r ∷ rs) [] = false
utf8_from ((lo, hi) ∷ rs) (b ∷ s) = within lo hi b && utf8_from rs s
utf8_from [] (b ∷ s) = elim (lead b) [ none ↦ false | some rs ↦ utf8_from rs s ]

unfoldable pub is_utf8 : Text → Bool
unfolding utf8_from lead
is_utf8 = utf8_from []

-- The bytes that one character of white space takes at the beginning of a text, or 0.
white_1 : ℕ → ℕ
white_1 a = if within 9 13 a || nat_eq a 32 then 1 else 0

white_2 : ℕ → ℕ → ℕ
white_2 a b = if nat_eq a 0xc2 && (nat_eq b 0x85 || nat_eq b 0xa0) then 2 else white_1 a

white_3 : ℕ → ℕ → ℕ → ℕ
white_3 a b c =
    if (nat_eq a 0xe1 && nat_eq b 0x9a && nat_eq c 0x80)
      || (nat_eq a 0xe2
          && nat_eq b 0x80
          && (within 0x80 0x8a c || nat_eq c 0xa8 || nat_eq c 0xa9 || nat_eq c 0xaf))
      || (nat_eq a 0xe2 && nat_eq b 0x81 && nat_eq c 0x9f)
      || (nat_eq a 0xe3 && nat_eq b 0x80 && nat_eq c 0x80)
    then 3
    else white_2 a b

white_front : Text → ℕ
white_front [] = 0
white_front (a ∷ []) = white_1 a
white_front (a ∷ b ∷ []) = white_2 a b
white_front (a ∷ b ∷ c ∷ s) = white_3 a b c

-- The same of the reversed text, from the other end.
white_back : Text → ℕ
white_back [] = 0
white_back (a ∷ []) = white_1 a
white_back (b ∷ a ∷ []) = if nat_eq (white_2 a b) 2 then 2 else white_1 b
white_back (c ∷ b ∷ a ∷ s) =
    if nat_eq (white_3 a b c) 3 then 3 else if nat_eq (white_2 b c) 2 then 2 else white_1 c

strip_white : (Text → ℕ) → ℕ → Text → Text
strip_white front zero s = s
strip_white front (suc fuel) s =
    let rest = strip_white front fuel (drop (front s) s) in if nat_eq (front s) 0 then s else rest

-- `str::trim`. Each round takes a byte at least, so the length is fuel enough.
unfoldable pub trim : Text → Text
unfolding strip_white white_front white_back white_1 white_2 white_3
trim s =
    let s' = strip_white white_front (length s) s in
    reverse (strip_white white_back (length s') (reverse s'))

-- A visible ASCII character.
abbrev pub IsGraphic : ℕ → Type 0
IsGraphic c = (32 < c) × (c < 127)

pub is_utf8_graphic : (s : Text) → All IsGraphic s → is_utf8 s ≡ true
unfolding is_utf8
is_utf8_graphic [] h = refl
is_utf8_graphic (c ∷ s) (h, hs) = ground (arith, is_utf8_graphic s hs)

white_1_graphic : (a : ℕ) → IsGraphic a → white_1 a ≡ 0
unfolding white_1
white_1_graphic a h = ground arith

white_2_graphic : (a b : ℕ) → IsGraphic a → white_2 a b ≡ 0
unfolding white_2
white_2_graphic a b h = ground (arith, white_1_graphic a h)

white_3_graphic : (a b c : ℕ) → IsGraphic a → white_3 a b c ≡ 0
unfolding white_3
white_3_graphic a b c h = ground (arith, white_2_graphic a b h)

white_front_graphic : (s : Text) → All IsGraphic s → white_front s ≡ 0
unfolding white_front
white_front_graphic [] h = refl
white_front_graphic (a ∷ []) h = white_1_graphic a h.0
white_front_graphic (a ∷ b ∷ []) h = white_2_graphic a b h.0
white_front_graphic (a ∷ b ∷ c ∷ s) h = white_3_graphic a b c h.0

white_back_graphic : (s : Text) → All IsGraphic s → white_back s ≡ 0
unfolding white_back
white_back_graphic [] h = refl
white_back_graphic (a ∷ []) h = white_1_graphic a h.0
white_back_graphic (b ∷ a ∷ []) h = rw (white_2_graphic a b h.1.0, white_1_graphic b h.0)
white_back_graphic (c ∷ b ∷ a ∷ s) h =
    rw (white_3_graphic a b c h.1.1.0, white_2_graphic b c h.1.0, white_1_graphic c h.0)

strip_white_none :
    (front : Text → ℕ) (fuel : ℕ) (s : Text) → front s ≡ 0 → strip_white front fuel s ≡ s
unfolding strip_white
strip_white_none front zero s h = refl
strip_white_none front (suc fuel) s h = rw h

All-append {ℓ κ} :
    {A : Type ℓ} (P : A → Type κ) (xs ys : List A) → All P xs → All P ys → All P (xs ++ ys)
All-append P [] ys h k = k
All-append P (x ∷ xs) ys (h, hs) k = (h, All-append P xs ys hs k)

All-reverse {ℓ κ} : {A : Type ℓ} (P : A → Type κ) (xs : List A) → All P xs → All P (reverse xs)
All-reverse P [] h = h
All-reverse P (x ∷ xs) (h, hs) =
    rw (reverse-cons x xs) (All-append P (reverse xs) (x ∷ []) (All-reverse P xs hs) (h, tt))

-- Visible text has nothing to trim.
pub trim_graphic : (s : Text) → All IsGraphic s → trim s ≡ s
unfolding trim
trim_graphic s h =
    rw
      (
        strip_white_none white_front (length s) s (white_front_graphic s h),
        strip_white_none white_back (length s) (reverse s)
            (white_back_graphic (reverse s) (All-reverse IsGraphic s h)),
      )
      (reverse-reverse s)
