-- ===== src/Bitmap/Tests.antt =====
-- The bitmap of 21 privileges, over memory that held other data.
use x3c0_microkernel.Common.{◌≡◌, refl, true, false, [], ◌∷◌, some, arith}
use x3c0_microkernel.Bitmap.{Bitmap, create, test_bit}
use x3c0_microkernel.Bitmap.Series.{write_all, written_set, Represents, found_set, write_all-create}

abbrev dirty : Bitmap
dirty = create (λ i. 0xf0f0) 21

dirty_bit : test_bit dirty 4 ≡ some true
unfolding test_bit create
dirty_bit = refl

write_all-create_example :
    (t : Bitmap) × (write_all dirty ((3, true) ∷ (4, false) ∷ []) ≡ some t)
    × Represents t 21 (written_set (found_set (λ i. 0xf0f0)) ((3, true) ∷ (4, false) ∷ []))
write_all-create_example =
    write_all-create (λ i. 0xf0f0) 21 ((3, true) ∷ (4, false) ∷ []) (omega arith, (omega arith, tt))
