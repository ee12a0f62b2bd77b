-- ===== src/Apply/Config.antt =====
-- internal/util/applycfg/conf.go: the configuration of a target table. Its maps are never nil, as
-- `NewConfig` makes them; a merge function is known by a value of the parameter `M`.
use cdc_sink_redshift.Common.{
  Bool, ◌&&◌, Option, none, some, List, [], ◌∷◌, ◌++◌, if◌then◌else◌, is_empty,
}
use cdc_sink_redshift.Common.Int.{ℤ}
use cdc_sink_redshift.Common.{Bytes}
use cdc_sink_redshift.Cmap as Cmap
use cdc_sink_redshift.Cmap.{Map}

-- `SubstitutionToken`: the text "$0".
abbrev pub substitution_token : Bytes
substitution_token = b'$' ∷ b'0' ∷ []

-- `Config`. Columns are named by `K`, which maps compare in the form `C`.
pub record Config (K C M : Type 0) : Type 0 where
  pub cas_columns : List K
  pub deadlines : Map K C ℤ
  pub exprs : Map K C Bytes
  pub extras : K
  pub ignore : Map K C Bool
  pub merger : Option M
  pub source_names : Map K C K

-- `NewConfig`, with the empty name.
unfoldable pub new_config : {K C M : Type 0} → K → Config K C M
new_config no_name = record {
  cas_columns = [];
  deadlines = [];
  exprs = [];
  extras = no_name;
  ignore = [];
  merger = none;
  source_names = [];
}

-- A later value, if there is one.
abbrev pub or_keep {ℓ} : {A : Type ℓ} → Option A → Option A → Option A
or_keep (some a) old = some a
or_keep none old = old

abbrev pub absent {ℓ} : {A : Type ℓ} → Option A → Bool
absent none = Bool.true
absent (some a) = Bool.false

module _ {K C M : Type 0} (eq : C → C → Bool) (mapper : K → C) (no_name : K)
    (name_empty : K → Bool) where
  -- `Copy`.
  unfoldable pub copy : Config K C M → Config K C M
  copy t = record (new_config {M = M} no_name) {
    cas_columns = [] ++ t.cas_columns;
    deadlines = Cmap.copy_into eq mapper t.deadlines [];
    exprs = Cmap.copy_into eq mapper t.exprs [];
    extras = t.extras;
    ignore = Cmap.copy_into eq mapper t.ignore [];
    merger = t.merger;
    source_names = Cmap.copy_into eq mapper t.source_names [];
  }

  -- `Patch`.
  unfoldable pub patch : Config K C M → Config K C M → Config K C M
  patch t other = record {
    cas_columns = t.cas_columns ++ other.cas_columns;
    deadlines = Cmap.copy_into eq mapper other.deadlines t.deadlines;
    exprs = Cmap.copy_into eq mapper other.exprs t.exprs;
    extras = if name_empty other.extras then t.extras else other.extras;
    ignore = Cmap.copy_into eq mapper other.ignore t.ignore;
    merger = or_keep other.merger t.merger;
    source_names = Cmap.copy_into eq mapper other.source_names t.source_names;
  }

  -- `IsZero`.
  unfoldable pub is_zero : Config K C M → Bool
  is_zero t =
      is_empty t.cas_columns
      && is_empty t.deadlines
      && is_empty t.exprs
      && name_empty t.extras
      && is_empty t.ignore
      && absent t.merger
      && is_empty t.source_names
