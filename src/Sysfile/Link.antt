-- ===== src/Sysfile/Link.antt =====
-- `sys_link`, from its arguments to its result.
use os_lab.Sysfile.Ledger.{Ledger, AtRest}
use os_lab.Base.{◌≡◌, refl, inl}
use os_lab.Base.Int.{ℤ, negsuc}
use os_lab.Sysfile.Links.{Linked}

-- The descriptors are as before, the ledger is settled, and no name was made.
pub idle-Linked : (r : ℤ) (l : Ledger) → AtRest l.opened l → r ≡ negsuc 0 → Linked l r l
idle-Linked r l h e = (h, inl (e, λ j. refl))
