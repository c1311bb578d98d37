-- ===== src/Tests/Startup.antt =====
-- A process that lacks two variables, and a migration that lacks its one.
use Prim.Native.String.{◌++◌}
use gpca_v.Prelude.{true, none, refl, [], some, ◌≡◌, ◌<◌, ◌⊎◌, if◌then◌else◌}
use gpca_v.Config.{Settings}
use gpca_v.Config.Load.{Source, natural, loaded, config_error, problems, load_settings}
use gpca_v.Config.Load.Rules.{IsUsable, IsReadFrom, faults}
use gpca_v.Config.Load.Laws.{load_settings_outcome}
use gpca_v.Db.Table.{length}
use gpca_v.Schema.Migrations.Environment.{Process, runtime_error, run}
use package.text.Mathlib.Text.{◌==◌ as str_eq}

abbrev unset : Source
unset = record {
  variable = λ name. if str_eq name "database_url" then some "postgresql://" else none;
  read_int = λ text. some (natural 1);
  wording = λ fault. "Field required";
}

load_settings_outcome_example :
    ((settings : Settings) × (load_settings unset ≡ loaded settings)
      × IsUsable settings
      × IsReadFrom unset settings
      × (faults unset ≡ []))
    ⊎ ((0 < length (faults unset))
        × (load_settings unset
            ≡ config_error (
                "Invalid configuration. Fix these environment variables (see infra/env/.env.example):\n"
                ++ problems unset (faults unset))))
load_settings_outcome_example = load_settings_outcome unset

abbrev offline : Process
offline = record { variable = λ name. some ""; config_file_name = none; is_offline_mode = true }

-- an empty DATABASE_URL is as good as none
empty_url_raises :
    run offline
    ≡ runtime_error []
        "DATABASE_URL is not set. Alembic takes the connection URL from the environment so the same migrations run everywhere unchanged."
unfolding run
empty_url_raises = refl
