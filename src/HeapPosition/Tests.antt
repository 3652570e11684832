-- ===== src/HeapPosition/Tests.antt =====
-- A heap of one byte that grows by two pages.
use x3c0_microkernel.Common.{◌+◌, ◌-◌, ◌*◌, ◌^◌, refl, arith}
use x3c0_microkernel.Common.Words.{u32}
use x3c0_microkernel.HeapPosition.{sbrk}
use x3c0_microkernel.HeapPosition.Growing.{Moved, page_call, sbrk-grown}

sbrk-grown_example :
    Moved 0xc0000001
      (0xc0000001 + 0x2000)
      (2 ^ 20 - 2)
      (λ k. page_call (u32 (0xc0000001 + 4096 * k)) 0)
      (sbrk 0xc0000001 0x2000)
sbrk-grown_example = sbrk-grown 0xc0000001 0x2000 1 (omega arith) refl
