-- ===== src/Common/StrUtil/Copy.antt =====
-- What `htsn_strlcpy` leaves in the buffer.
use wireless_tsn_configurato.Base.{
  ℕ, ◌+◌, ◌-◌, ◌≤◌, ◌<◌, ◌≡◌, some, arith, take, length, length-take, take_of_le,
}
use wireless_tsn_configurato.Base.Text.{CString}
use wireless_tsn_configurato.Common.StrUtil.{strlcpy, copied}

-- The copy of a string, with its NUL, fits a buffer of `size > 0` bytes; it is the string cut to
-- `size - 1` bytes; the result is the length of the source.
pub strlcpy_bounded :
    (size : ℕ) (src : CString)
    → 0 < size
    → (length (strlcpy size (some src)).0 + 1 ≤ size)
      × ((strlcpy size (some src)).0 ≡ take (size - 1) src)
      × ((strlcpy size (some src)).1 ≡ length src)
unfolding strlcpy
strlcpy_bounded size src h =
    ground (
      arith,
      length-take (size - 1) src,
      λ (p : length src ≤ size - 1). take_of_le (size - 1) src p,
    )

-- A string that fits is copied whole.
pub copied_of_lt : (size : ℕ) (src : CString) → length src < size → copied size src ≡ src
unfolding strlcpy
copied_of_lt size src h = ground arith

-- Every copy is shorter than the buffer.
pub length-copied : (size : ℕ) (src : CString) → 0 < size → length (copied size src) < size
length-copied size src h = omega (arith, strlcpy_bounded size src h)

pub copied-copied :
    (size : ℕ) (src : CString) → 0 < size → copied size (copied size src) ≡ copied size src
copied-copied size src h = copied_of_lt size (copied size src) (length-copied size src h)
