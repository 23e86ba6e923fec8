-- ===== src/Table/Tests.antt =====
-- A table of one reference, of at most five.
use andsifr.Common.{◌+◌, ◌-◌, ◌%◌, ◌^◌, ◌<◌, ◌≡◌, refl, some, [], ◌∷◌, ◌++◌, length, replicate}
use andsifr.Common.Outcome.{ok}
use andsifr.Table.{TableInstance, too_long, copy_behind, fill_loop, grow}
use andsifr.Table.Grow.{Allowed, grow-replicate}

abbrev single : TableInstance
single = record { references = 7 ∷ []; min_size = 1; max_size = some 5; type = 112 }

grow_by_three : grow single 3 9 ≡ ok (record single { references = 7 ∷ 9 ∷ 9 ∷ 9 ∷ [] }, 1)
unfolding grow too_long fill_loop copy_behind
grow_by_three = refl

grow_too_far : grow single 5 9 ≡ ok (single, 2 ^ 32 - 1)
unfolding grow too_long
grow_too_far = refl

grow-replicate_example :
    (Allowed single (length single.references + 3)
      → grow single 3 9
        ≡ ok (
          record single { references = single.references ++ replicate 3 9 },
          length single.references,
        ))
    × (0 < 3
        → ¬ Allowed single (length single.references % 2 ^ 32 + 3)
        → grow single 3 9 ≡ ok (single, 2 ^ 32 - 1))
grow-replicate_example = grow-replicate single 3 9
