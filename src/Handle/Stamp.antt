-- ===== src/Handle/Stamp.antt =====
-- The fields of a date stamp.
use cxx_unlzx.Base.{ℕ, ◌+◌, ◌*◌, ◌^◌, ◌<◌, ◌≡◌, arith}
use cxx_unlzx.Handle.{second, minute, hour, year, month, day}

-- Where six numbers fit 6, 6, 5, 6, 4 and 5 bits and are packed from the lowest bit up, the
-- getters of the stamp return them as second, minute, hour, year (plus 1970), month and day.
pub stamp_fields :
    (s m h y n d : ℕ)
    → s < 2 ^ 6
    → m < 2 ^ 6
    → h < 2 ^ 5
    → y < 2 ^ 6
    → n < 2 ^ 4
    → d < 2 ^ 5
    → (let raw = s + 2 ^ 6 * m + 2 ^ 12 * h + 2 ^ 17 * y + 2 ^ 23 * n + 2 ^ 27 * d in
        (second raw ≡ s)
        × (minute raw ≡ m)
        × (hour raw ≡ h)
        × (year raw ≡ 1970 + y)
        × (month raw ≡ n)
        × (day raw ≡ d))
unfolding second minute hour year month day
stamp_fields s m h y n d a b c e f g =
    (omega arith, omega arith, omega arith, omega arith, omega arith, omega arith)
