-- ===== src/Config.antt =====
-- src/config.rs: the configuration file. The environment and the library `toml` are arguments; what
-- is printed is left out.
pub mod Reload
use parsip.Base.{ℕ, List, Option, none, some}
use parsip.Text.{text, from_utf8}
use parsip.Io.{Error, Result, ok, err, invalid_data}
use parsip.Disk.{Disk, WriteAnswer, join, read_file, write_file}

pub record Config : Type 0 where
  pub listen_port : ℕ
  pub shared_dir : List ℕ
  pub downloads_dir : List ℕ
  pub log_file : List ℕ
  pub nickname : List ℕ

-- The variable `HOME`, if it is set and a text, and the directory for temporary files.
pub record Environment : Type 0 where
  pub home : Option (List ℕ)
  pub temp_dir : List ℕ

-- `toml::to_string` and `toml::from_str` on `Config`, with the texts of their errors.
pub record Toml : Type 0 where
  pub to_string : Config → Result (List ℕ) (List ℕ)
  pub from_str : List ℕ → Result Config (List ℕ)

unfoldable pub parsip_dir : Environment → List ℕ
parsip_dir env =
    let base : List ℕ = elim env.home [ none ↦ env.temp_dir | some home ↦ home ] in
    join base (text ".parsip")

unfoldable pub control_socket_path : Environment → List ℕ
control_socket_path env = join (parsip_dir env) (text "daemon.sock")

unfoldable pub default : Environment → Config
default env = record {
  listen_port = 9000;
  shared_dir = join (parsip_dir env) (text "shared");
  downloads_dir = join (parsip_dir env) (text "downloads");
  log_file = join (parsip_dir env) (text "parsip.log");
  nickname = text "Anonymous";
}

abbrev pub config_path : Environment → List ℕ
config_path env = join (parsip_dir env) (text "config.toml")

-- `fs::read_to_string`, where `refused` is what the system answers to the reading.
unfoldable pub read_to_string : Option Error → List ℕ → Disk → Result (List ℕ) Error
read_to_string refused path d = elim (read_file refused path d) [
  | err e ↦ err e
  | ok bytes ↦ elim (from_utf8 bytes) [
    | none ↦
        err (record { kind = invalid_data; message = text "stream did not contain valid UTF-8" })
    | some content ↦ ok content
  ]
]

unfoldable pub load : Toml → Environment → Option Error → Disk → Config
load toml env refused d = elim (read_to_string refused (config_path env) d) [
  | err e ↦ default env
  | ok content ↦ elim (toml.from_str content) [ err e ↦ default env | ok config ↦ config ]
]

-- `created` is what the system answers to the creation of the directory.
unfoldable pub save :
    Toml
    → Environment
    → (created : Option Error) → WriteAnswer
    → Config
    → Disk
    → Result (Unit {0}) Error × Disk
save toml env (some e) answer config d = (err e, d)
save toml env none answer config d = elim (toml.to_string config) [
  | err e ↦ (err (record { kind = invalid_data; message = e }), d)
  | ok content ↦ write_file answer (config_path env) content d
]
