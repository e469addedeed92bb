-- ===== src/Cli.antt =====
-- src/cli/mod.rs: the client on the command line. What it prints is a result; the environment, the
-- file system and the daemon's socket are arguments.
pub mod Responses
pub mod Settings
use parsip.Base.{ℕ, List, [], ◌∷◌, ◌++◌, Bool, true, false, ◌||◌, Option, none, some, if◌then◌else◌}
use parsip.Text.{text, decimal}
use parsip.Text.Strings.{bytes_eq}
use parsip.Text.Parse.{parse_u16}
use parsip.Io.{Error, Result, ok, err}
use parsip.Disk.{Disk, WriteAnswer}
use parsip.Config.{Config, Environment, Toml, load, save}
use parsip.Control.{
  ControlMessage, scan, connect, list_peers, list_resources, get_resource, add_resource,
}

-- A line on the standard output or on the standard error, or output without a newline.
pub data Printed : Type 0 where
  out : List ℕ → Printed
  err_line : List ℕ → Printed
  part : List ℕ → Printed

-- The arguments after `parsip`: the request, or what is printed instead.
unfoldable pub request : List ℕ → List (List ℕ) → Result ControlMessage Printed
request cmd args =
    let connecting : Result ControlMessage Printed = elim args [
      | [] ↦ err (out (text "Usage: parsip connect <alias>"))
      | alias ∷ more ↦ ok (connect alias)
    ] in
    let listing : Result ControlMessage Printed = elim args [
      | [] ↦ err (out (text "Usage: parsip list <peer_alias>"))
      | alias ∷ more ↦ ok (list_resources alias)
    ] in
    let get_usage : Result ControlMessage Printed =
      err (out (text "Usage: parsip get <peer_alias> <resource_alias>")) in
    let getting : Result ControlMessage Printed = elim args [
      | [] ↦ get_usage
      | peer ∷ more ↦ elim more [
        | [] ↦ get_usage
        | resource ∷ rest ↦ ok (get_resource peer resource)
      ]
    ] in
    let adding : Result ControlMessage Printed = elim args [
      | [] ↦ err (out (text "Usage: parsip add <file_path>"))
      | path ∷ more ↦ ok (add_resource path)
    ] in
    if bytes_eq cmd (text "scan")
    then ok scan
    else if bytes_eq cmd (text "peers")
    then ok list_peers
    else if bytes_eq cmd (text "connect")
    then connecting
    else if bytes_eq cmd (text "list")
    then listing
    else if bytes_eq cmd (text "get")
    then getting
    else if bytes_eq cmd (text "add")
    then adding
    else err (out (text "Unknown command: " ++ cmd))

-- `config set`: the changed configuration, or what is printed instead.
unfoldable pub set_key : List ℕ → List ℕ → Config → Result Config Printed
set_key key val config =
    let with_port : Result Config Printed = elim (parse_u16 val) [
      | none ↦ err (out (text "Invalid port number."))
      | some p ↦ ok (record config { listen_port = p })
    ] in
    if bytes_eq key (text "nickname")
    then ok (record config { nickname = val })
    else if bytes_eq key (text "shared") || bytes_eq key (text "shared_dir")
    then ok (record config { shared_dir = val })
    else if bytes_eq key (text "downloads") || bytes_eq key (text "downloads_dir")
    then ok (record config { downloads_dir = val })
    else if bytes_eq key (text "port") || bytes_eq key (text "listen_port")
    then with_port
    else err (out (text "Unknown config key: " ++ key))

-- `config show`; `display` is what a path is shown as.
show_config : (List ℕ → List ℕ) → Config → List Printed
show_config display config =
    out (text "Nickname: " ++ config.nickname)
    ∷ out (text "Shared Dir: " ++ display config.shared_dir)
    ∷ out (text "Downloads Dir: " ++ display config.downloads_dir)
    ∷ out (text "Listen Port: " ++ decimal config.listen_port)
    ∷ out (text "Log File: " ++ display config.log_file)
    ∷ []

-- What `config` meets: `toml`, the environment, how paths are shown, and what the file system
-- answers.
pub record Surroundings : Type 0 where
  pub toml : Toml
  pub env : Environment
  pub display : List ℕ → List ℕ
  pub refused : Option Error
  pub created : Option Error
  pub answer : WriteAnswer

set_usage : Printed
set_usage = out (text "Usage: parsip config set <key> <value>")

unfoldable pub set_config : Surroundings → List (List ℕ) → Config → Disk → List Printed × Disk
unfolding set_usage
set_config w (key ∷ val ∷ rest) config d = elim (set_key key val config) [
  | err line ↦ (line ∷ [], d)
  | ok changed ↦
      let (result, d') = save w.toml w.env w.created w.answer changed d in
      elim result [
        | err e ↦ (err_line (text "Failed to save config: " ++ e.message) ∷ [], d')
        | ok u ↦ (out (text "Configuration updated.") ∷ [], d')
      ]
]
set_config w args config d = (set_usage ∷ [], d)

config_usage : Printed
config_usage = out (text "Usage: parsip config <show|set> [key] [value]")

-- `config` with the arguments after it.
unfoldable pub run_config : Surroundings → List (List ℕ) → Disk → List Printed × Disk
unfolding show_config config_usage
run_config w [] d = (config_usage ∷ [], d)
run_config w (action ∷ args) d =
    let config = load w.toml w.env w.refused d in
    if bytes_eq action (text "show")
    then (show_config w.display config, d)
    else if bytes_eq action (text "set")
    then set_config w args config d
    else (config_usage ∷ [], d)
