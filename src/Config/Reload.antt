-- ===== src/Config/Reload.antt =====
-- src/config.rs: what is loaded after a configuration has been saved.
use parsip.Base.{ℕ, ◌≡◌, ap, ◌∙◌, List, none, arith}
use parsip.Text.{IsText, from_utf8}
use parsip.Io.{ok}
use parsip.Disk.{Disk, written, write_file, read_file, write_file-read_file}
use parsip.Config.{Config, Environment, Toml, config_path, read_to_string, load, save}

-- Where `toml` prints a configuration as a text that it reads as the same configuration, and the
-- system refuses nothing, the configuration is saved, and it is loaded afterwards.
pub save-load :
    (toml : Toml) (env : Environment) (config : Config) (content : List ℕ) (d : Disk)
    → toml.to_string config ≡ ok content
    → IsText content
    → toml.from_str content ≡ ok config
    → ((save toml env none written config d).0 ≡ ok tt)
      × (load toml env none (save toml env none written config d).1 ≡ config)
unfolding save load read_to_string from_utf8 write_file
save-load toml env config content d prints t reads =
    let path = config_path env in
    let saved : save toml env none written config d ≡ write_file written path content d =
      ground (arith, prints) in
    let found : read_file none path (save toml env none written config d).1 ≡ ok content =
      ap (λ x. read_file none path x.1) saved ∙ write_file-read_file path content d in
    (ap (λ x. x.0) saved, ground (arith, found, t, reads))
