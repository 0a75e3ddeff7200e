-- ===== src/Base/Texts.antt =====
-- Text as the codes of its characters, and std::to_string of an unsigned number.
use Prim.Native.Char.{code}
use Prim.Native.Nat.{ℕ, zero, suc, ◌+◌, ◌-◌, ◌*◌, ◌/◌, ◌%◌, ◌<◌}
use Prim.Native.String.{String}
use mathlib.Core.Bool.{Bool, true, false, ◌&&◌}
use mathlib.Core.List.{List, [], ◌∷◌, ◌++◌}
use mathlib.Core.Path.{◌≡◌, refl, ◌∙◌}
use native.Mathlib.Omega.{arith}
use dpdk_wrapper_library.Base.Tests.{ltb, ◌==◌, if◌then◌else◌, Bool-cases}
use mathlib.Core.Logic.{inl, inr}

abbrev pub Text : Type 0
Text = List ℕ

abbrev pub codes : String → Text
codes String.[] = []
codes (String.◌∷◌ c s) = code c ∷ codes s

abbrev pub same_text : Text → Text → Bool
same_text [] [] = true
same_text [] (b ∷ bs) = false
same_text (a ∷ as') [] = false
same_text (a ∷ as') (b ∷ bs) = a == b && same_text as' bs

decimal : ℕ → ℕ → Text
decimal zero n = []
decimal (suc fuel) n =
    let front = decimal fuel (n / 10) in
    if ltb n 10 then (48 + n) ∷ [] else front ++ (48 + n % 10) ∷ []

-- A number has at most as many digits as its value and one.
unfoldable pub to_string : ℕ → Text
unfolding decimal
to_string n = decimal (suc n) n

unfoldable pub read_from : ℕ → Text → ℕ
read_from n [] = n
read_from n (c ∷ cs) = read_from (n * 10 + (c - 48)) cs

abbrev pub read_number : Text → ℕ
read_number s = read_from 0 s

read_from-snoc : (s : Text) (n c : ℕ) → read_from n (s ++ c ∷ []) ≡ read_from n s * 10 + (c - 48)
unfolding read_from
read_from-snoc [] n c = refl
read_from-snoc (x ∷ s) n c = read_from-snoc s (n * 10 + (x - 48)) c

read_from-decimal : (fuel n : ℕ) → n < fuel → read_from 0 (decimal fuel n) ≡ n
unfolding decimal read_from
read_from-decimal zero n h = absurd (omega arith)
read_from-decimal (suc fuel) n h = elim (Bool-cases (ltb n 10)) [
  | inl last ↦ rw (decimal, last) (omega arith)
  | inr more ↦
      rw (decimal, more)
        (read_from-snoc (decimal fuel (n / 10)) 0 (48 + n % 10)
          ∙ ground (arith, read_from-decimal fuel (n / 10)))
]

-- A printed number reads back.
pub read_number-to_string : (n : ℕ) → read_number (to_string n) ≡ n
unfolding to_string
read_number-to_string n = read_from-decimal (suc n) n (omega arith)
