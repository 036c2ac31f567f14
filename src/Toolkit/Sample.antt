-- ===== src/Toolkit/Sample.antt =====
-- A concrete YAML library, for tests: nothing is rendered.
use leafmask.Prelude.{none, some, Text}
use leafmask.Prelude.Int.{ℤ}
use leafmask.Toolkit.Yaml.{Yaml, YamlApi}

instance abbrev pub sample_yaml : YamlApi
sample_yaml = record { to_string = λ v. none; nan = 0 }

-- An integer that is written down.
abbrev pub whole : ℤ → Text → Yaml
whole i rendered = Yaml.number (record { as_i64 = some i; as_f64 = none; rendered = rendered })
