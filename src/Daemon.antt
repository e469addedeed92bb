-- ===== src/Daemon.antt =====
-- src/daemon/mod.rs: the thread that serves one client on the control socket.
pub mod Session
pub mod Start
use parsip.Base.{ℕ, suc, List, [], ◌∷◌, ◌++◌, Bool, Option, none, some, if◌then◌else◌}
use parsip.Text.{text, from_utf8}
use parsip.Control.{ControlMessage, ControlResponse, is_terminal}
use parsip.Cli.Responses.{Json}

-- The loop over the answers to one request, each with whether it can be written. A channel whose
-- senders are gone ends the loop too. What is written to the client.
unfoldable pub serve_request : Json → List (ControlResponse × Bool) → List ℕ
serve_request json [] = []
serve_request json ((resp, reaches) ∷ answers) =
    let rest = serve_request json answers in
    let more = if is_terminal resp then [] else rest in
    elim (json.write_response resp) [
      | none ↦ more
      | some resp_json ↦ if reaches then resp_json ++ (10 ∷ more) else []
    ]

invalid_json : List ℕ
invalid_json = text "{\"Error\":\"Invalid JSON\"}" ++ (10 ∷ [])

-- The loop over the lines of the client, as far as they are texts. `answers` are those to each of
-- its requests. The requests that go to the event loop, and what is written to the client.
unfoldable pub serve_lines :
    Json → (ℕ → List (ControlResponse × Bool)) → List (List ℕ) → List ControlMessage × List ℕ
unfolding invalid_json
serve_lines json answers [] = ([], [])
serve_lines json answers (line ∷ lines) =
    let (cmds, written) = serve_lines json (λ n. answers (suc n)) lines in
    let (cmds', written') = serve_lines json answers lines in
    elim (from_utf8 line) [
      | none ↦ ([], [])
      | some l ↦ elim (json.read_request l) [
        | some cmd ↦ (cmd ∷ cmds, serve_request json (answers 0) ++ written)
        | none ↦ (cmds', invalid_json ++ written')
      ]
    ]
