-- ===== src/IoManager/Growth/Tests.antt =====
-- The lookups of addEvent on concrete descriptors.
use eva.Base.{ℕ, ◌≡◌, refl, true, leb, length, update, arith}
use eva.IoManager.Growth.{
  new_table, checked, found, out_of_range, Growing, resize_and_fetch, Steps, here, further, checks,
  resizes, begun,
}
use eva.IoManager.Growth.Found.{IsRight, found_lem}
use eva.IoManager.Growth.Shrinks.{shrinks_lem}

-- One thread adds an event to the descriptor 40, which the vector of 32 elements does not have.
abbrev asked : Growing
asked = record begun { at = update begun.at 0 (checked 40 (leb (length new_table.contexts) 40)) }

abbrev got : Growing
got = resize_and_fetch asked 0 40

got-Steps : Steps begun got
unfolding new_table
got-Steps = further (further here (checks 0 40 refl)) (resizes 0 40 refl)

got_context : got.at 0 ≡ found 40 72
unfolding resize_and_fetch new_table
got_context = refl

found_lem_example : IsRight got (got.at 0)
found_lem_example = found_lem got 0 got-Steps

new_table-length : length new_table.contexts ≡ 32
unfolding new_table
new_table-length = refl

-- The threads 0, 1 and 2 add events to the descriptors 100, 40 and 100.
shrinks_lem_example :
    (t : Growing) × (p : ℕ) × Steps begun t
    × (t.at 0 ≡ found 100 p)
    × (leb (length t.table.contexts) 100 ≡ true)
    × (t.at 2 ≡ out_of_range 100)
shrinks_lem_example =
    shrinks_lem begun 0 1 2 100 40 refl refl refl refl refl refl (omega (arith, new_table-length))
      (omega (arith, new_table-length)) (omega arith)
