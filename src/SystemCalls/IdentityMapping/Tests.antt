-- ===== src/SystemCalls/IdentityMapping/Tests.antt =====
-- A range without a page, in an empty address space.
use x3c0_microkernel.Common.{◌^◌, ◌≡◌, some, arith}
use x3c0_microkernel.Virtual.{Virtual}
use x3c0_microkernel.SystemCalls.IdentityMapping.{request_identity_mapping}
use x3c0_microkernel.SystemCalls.IdentityMapping.Unmapped.{request_identity_mapping-same}

abbrev empty : Virtual
empty = record {
  memory = λ a. 0;
  allocator = record { bitmap = λ w. 1; frame_count = 8; dma_zone_end = 0 };
  current = 0x1000;
  kernel = 0x1000;
}

request_identity_mapping-same_example :
    request_identity_mapping (λ k. 0) (2 ^ 21) empty 0x401000 0x2000 ≡ some (empty, 0)
unfolding x3c0_microkernel.Virtual.retrieve_mapping
request_identity_mapping-same_example =
    request_identity_mapping-same (λ k. 0) (2 ^ 21) empty 0x401000 0x2000 (omega arith)
      (omega arith) (omega arith) (omega arith)
