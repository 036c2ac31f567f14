-- ===== src/Config/Tests.antt =====
-- A path in a home directory that the environment names.
use leafmask.Prelude.{Text, codes, Option, none, some}
use leafmask.Prelude.{◌≡◌, refl, text_eq, if◌then◌else◌}
use leafmask.Config.{interpolate_env, interpolate_from, reference, before_close, is_valid_env_name}
use leafmask.Config.Interpolated.{Expands, interpolate_env_iff}

abbrev environment : Text → Option Text
environment name = if text_eq name (codes "HOME") then some (codes "/h/${X}") else none

expanded :
    interpolate_env (codes "${HOME}${NONE}/d ${1X} ${") environment ≡ codes "/h/${X}/d ${1X} ${"
unfolding interpolate_env interpolate_from reference before_close is_valid_env_name
expanded = refl

interpolate_env_iff_example :
    Expands environment (codes "${HOME}${NONE}/d ${1X} ${") (codes "/h/${X}/d ${1X} ${")
interpolate_env_iff_example =
    (interpolate_env_iff environment (codes "${HOME}${NONE}/d ${1X} ${")
        (codes "/h/${X}/d ${1X} ${")).0
      expanded
