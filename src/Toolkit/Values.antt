-- ===== src/Toolkit/Values.antt =====
-- `ParamValues` of toolkit.rs, and the numeric casts of its accessors.
use leafmask.Prelude.{Text, Bool, Option, none, some, [], option_bind, Map, at_key, put_key}
use leafmask.Prelude.Int.{ℤ, parse_i64}
use leafmask.Bson.{Bson, StdApi, F64, int32, int64, double, boolean, string}

pub record ParamValues : Type 0 where
  pub map : Map Bson

abbrev pub no_values : ParamValues
no_values = record { map = [] }

unfoldable pub get : ParamValues → Text → Option Bson
get self name = at_key self.map name

unfoldable pub insert : ParamValues → Text → Bson → ParamValues
insert self name value = record { map = put_key self.map name value }

-- Bson::as_str and Bson::as_bool
abbrev pub as_str : Bson → Option Text
as_str (string s) = some s
as_str _ = none

abbrev pub as_bool : Bson → Option Bool
as_bool (boolean b) = some b
as_bool _ = none

module _ ⦃std : StdApi⦄ where
  unfoldable pub to_i64 : Bson → Option ℤ
  to_i64 (int32 v) = some v
  to_i64 (int64 v) = some v
  to_i64 (double v) = some (std.i64_of_f64 v)
  to_i64 (string s) = parse_i64 s
  to_i64 _ = none

  unfoldable pub to_f64 : Bson → Option F64
  to_f64 (int32 v) = some (std.f64_of_i64 v)
  to_f64 (int64 v) = some (std.f64_of_i64 v)
  to_f64 (double v) = some v
  to_f64 (string s) = std.parse_f64 s
  to_f64 _ = none

  unfoldable pub get_i64 : ParamValues → Text → Option ℤ
  unfolding get to_i64
  get_i64 self name = option_bind (get self name) to_i64

  unfoldable pub get_f64 : ParamValues → Text → Option F64
  unfolding get to_f64
  get_f64 self name = option_bind (get self name) to_f64

unfoldable pub get_str : ParamValues → Text → Option Text
unfolding get
get_str self name = option_bind (get self name) as_str

unfoldable pub get_bool : ParamValues → Text → Option Bool
unfolding get
get_bool self name = option_bind (get self name) as_bool
