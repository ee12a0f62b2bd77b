-- ===== src/Cdc/Resolver/Pages/Resumes.antt =====
-- internal/source/cdc/resolver.go: the stamps that `process` saves, against the rows that are still to come.
use cdc_sink_redshift.Common.{ℕ, ◌≡◌, ◌↔◌, Bool, true, List}
use cdc_sink_redshift.Cmap.{Map}
use cdc_sink_redshift.Ident.{Table}
use cdc_sink_redshift.Staging.{Cursor, clamp}
use cdc_sink_redshift.Cdc.Stamps.{ResolvedStamp, Offset}
use cdc_sink_redshift.Cdc.Resolver.{Config, Sink}
use cdc_sink_redshift.Cdc.Resolver.Plan.{Plan}
use cdc_sink_redshift.Cdc.Resolver.Pages.{start_cursor, Database}
use cdc_sink_redshift.Cdc.Resolver.Pages.Ahead.{Ahead}

module _ {C S E : Type 0} (eq : C → C → Bool) (eq_iff : (a b : C) → (eq a b ≡ true) ↔ (a ≡ b))
    (mapper : Table → C) (sink : Sink S E) (cfg : Config) (targets : List (List Table))
    (no_limit duplicate_table : E) (db : Database E) where
  abbrev cursor : Map Table C ℕ → ResolvedStamp → Cursor
  cursor ids rs = clamp (start_cursor eq mapper cfg ids rs)

  abbrev first : Map Table C ℕ → ResolvedStamp → Offset
  first ids rs = record {
    key = rs.offset_key;
    table = rs.offset_table;
    time = (cursor ids rs).offset_time;
  }
