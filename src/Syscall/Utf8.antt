-- ===== src/Syscall/Utf8.antt =====
-- `core::str::from_utf8`, which `str_from_user` of kernel/src/syscall/dispatch.rs calls.
use alaphi_os.Base.{
  ℕ, Bool, true, false, Option, none, some, List, [], ◌∷◌, ◌&&◌, leb, if◌then◌else◌,
}
use alaphi_os.Base.Bytes.{Bytes}

-- The bounds of the bytes that must follow a first byte.
abbrev pub Ranges : Type 0
Ranges = List (ℕ × ℕ)

abbrev continuation : ℕ × ℕ
continuation = (128, 191)

abbrev first_bytes : List (ℕ × ℕ × Ranges)
first_bytes =
    (0, 127, [])
    ∷ (194, 223, continuation ∷ [])
    ∷ (224, 224, (160, 191) ∷ continuation ∷ [])
    ∷ (225, 236, continuation ∷ continuation ∷ [])
    ∷ (237, 237, (128, 159) ∷ continuation ∷ [])
    ∷ (238, 239, continuation ∷ continuation ∷ [])
    ∷ (240, 240, (144, 191) ∷ continuation ∷ continuation ∷ [])
    ∷ (241, 243, continuation ∷ continuation ∷ continuation ∷ [])
    ∷ (244, 244, (128, 143) ∷ continuation ∷ continuation ∷ [])
    ∷ []

unfoldable pub follow : List (ℕ × ℕ × Ranges) → ℕ → Option Ranges
follow [] b = none
follow ((lo, hi, rest) ∷ rows) b = if leb lo b && leb b hi then some rest else follow rows b

unfoldable pub is_utf8 : Ranges → Bytes → Bool
is_utf8 [] [] = true
is_utf8 (_ ∷ _) [] = false
is_utf8 ((lo, hi) ∷ rest) (b ∷ bytes) = leb lo b && leb b hi && is_utf8 rest bytes
is_utf8 [] (b ∷ bytes) = elim (follow first_bytes b) [
  | none ↦ false
  | some rest ↦ is_utf8 rest bytes
]

unfoldable pub from_utf8 : Bytes → Option Bytes
from_utf8 bytes = if is_utf8 [] bytes then some bytes else none
