-- ===== src/Kalloc/Tests.antt =====
-- Two pages above a kernel that ends at 0x80400000.
use os_lab.Base.{ℕ, false}
use os_lab.Kalloc.{Kmem}

abbrev kernel_end : ℕ
kernel_end = 0x8040_0000

abbrev one_free : Kmem
one_free = record { freelist = 0x8040_0000; use_lock = false; mem = λ a. 0 }
