-- ===== src/Cdc/Marks/Tests.antt =====
-- internal/source/cdc/resolver.go: the theorems at a concrete table of marks.
use cdc_sink_redshift.Common.{
  ℕ, ◌≡◌, ◌↔◌, refl, true, false, some, List, [], ◌∷◌, All, if◌then◌else◌,
}
use cdc_sink_redshift.Common.Int.{pos}
use cdc_sink_redshift.Hlc as Hlc
use cdc_sink_redshift.Hlc.{Time, Before}
use cdc_sink_redshift.Cdc.Stamps.Steps.{NotAfter}
use cdc_sink_redshift.Sql.{pair_lt}
use cdc_sink_redshift.Cdc.Marks.{Mark, least, mark_time, is_pending, select_timestamp}
use cdc_sink_redshift.Cdc.Marks.Order.{Chosen, mark_time-rises, select_timestamp-Chosen}

abbrev at_time : ℕ → Time
at_time n = Hlc.new (pos n) (pos 0)

abbrev marks : List Mark
marks =
    record { time = at_time 7; applied = false }
    ∷ record { time = at_time 5; applied = false }
    ∷ record { time = at_time 3; applied = true }
    ∷ []

select_5 : select_timestamp marks (at_time 3) ≡ some (at_time 5)
unfolding select_timestamp least is_pending pair_lt
select_5 = refl

mark_time-rises_example :
    (((mark_time marks (at_time 9)).1 ≡ true) ↔ All (λ (r : Mark). Before r.time (at_time 9)) marks)
    × ((mark_time marks (at_time 9)).0 ≡ (
        if (mark_time marks (at_time 9)).1
        then record { time = at_time 9; applied = false } ∷ marks
        else marks))
mark_time-rises_example = mark_time-rises marks (at_time 9)

select_timestamp-Chosen_example :
    Chosen (is_pending (at_time 3)) marks (select_timestamp marks (at_time 3))
    × ((r : Mark)
        → (is_pending (at_time 3) r ≡ true) ↔ ((r.applied ≡ false) × NotAfter (at_time 3) r.time))
select_timestamp-Chosen_example = select_timestamp-Chosen marks (at_time 3)
