-- ===== src/CString/Tests.antt =====
-- A move by one byte within a range.
use os_lab.Base.Int.{pos}
use os_lab.Base.{◌==◌, if◌then◌else◌, ℕ, ◌*◌, ◌≡◌, refl}
use os_lab.CString.Strings.{copy_safe, safestrcpy}

abbrev squares : ℕ → ℕ
squares a = a * a

copied_twice : safestrcpy (λ a. if a == 20 then 65 else 0) 3 20 (pos 2) 3 ≡ 65
unfolding safestrcpy copy_safe
copied_twice = refl
