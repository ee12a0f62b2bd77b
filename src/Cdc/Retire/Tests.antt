-- ===== src/Cdc/Retire/Tests.antt =====
-- internal/source/cdc/resolver.go: a round of retirements over two tables.
use cdc_sink_redshift.Common.{◌≡◌, refl, some, none, [], ◌∷◌, get_elem?, arith}
use cdc_sink_redshift.Common.Int.{pos, wrap64, ◌-ℤ◌}
use cdc_sink_redshift.Hlc as Hlc
use cdc_sink_redshift.Ident.{Table, new}
use cdc_sink_redshift.Cdc.Retire.{
  ready, unavailable, retire_round, back_off, backed_off, retire_round-backed_off,
}

abbrev first_table : Table
first_table = some (none, new (b'a' ∷ []))

abbrev second_table : Table
second_table = some (none, new (b'b' ∷ []))

-- With an offset of 10 the second table is retired up to 80, not up to 90.
drift :
    (retire_round
      (λ _. ready)
      (λ _ _. ready)
      10
      (first_table ∷ second_table ∷ [])
      (Hlc.new (pos 100) (pos 0))).0
    ≡ (first_table, Hlc.new (pos 90) (pos 0)) ∷ (second_table, Hlc.new (pos 80) (pos 0)) ∷ []
unfolding retire_round back_off wrap64 ◌-ℤ◌
drift = refl

retire_round-backed_off_example :
    get_elem?
      (retire_round
        (λ _. ready)
        (λ _ _. unavailable)
        10
        (first_table ∷ second_table ∷ [])
        (Hlc.new (pos 100) (pos 0))).0
      1
    ≡ some (second_table, backed_off 10 2 (Hlc.new (pos 100) (pos 0)))
retire_round-backed_off_example =
    retire_round-backed_off (λ _ _. unavailable) 10 (first_table ∷ second_table ∷ [])
      (Hlc.new (pos 100) (pos 0)) 1 second_table (λ u x h. absurd (ground (arith, h))) refl
