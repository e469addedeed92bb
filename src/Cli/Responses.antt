-- ===== src/Cli/Responses.antt =====
-- src/cli/mod.rs: the loop of the client over the daemon's answers.
use parsip.Base.{
  ℕ, List, [], ◌∷◌, ◌++◌, Bool, true, false, Option, none, some, leb, ◌==◌, if◌then◌else◌, map,
}
use parsip.Text.{text, decimal, from_utf8}
use parsip.Io.{Error, Result, ok, err, invalid_data}
use parsip.Identity.{PeerId}
use parsip.Protocol.{ResourceId}
use parsip.Control.{
  ControlMessage, ControlResponse, DiscoveredPeerInfo, ConnectedPeerInfo, ListedResource,
  SocketAddr, F64, of_integer, quotient, scan_results, done, error, peers_list, resource_list,
  resource_added, download_progress, download_complete,
}
use parsip.Disk.{Disk}
use parsip.Text.Strings.{bytes_eq}
use parsip.Cli.{Surroundings, request, run_config, Printed, out, err_line, part}

-- `serde_json` on what crosses the socket, with the texts of its errors.
pub record Json : Type 0 where
  pub write_request : ControlMessage → List ℕ
  pub read_request : List ℕ → Option ControlMessage
  pub write_response : ControlResponse → Option (List ℕ)
  pub read_response : List ℕ → Result ControlResponse (List ℕ)

-- What `format!` makes of numbers with two decimals, of addresses and identifiers, and of a text
-- with the blanks that fill it up to a width; and whether a number is above 0.0.
pub record Format : Type 0 where
  pub fixed2 : F64 → List ℕ
  pub is_positive : F64 → Bool
  pub address : SocketAddr → List ℕ
  pub peer_id : PeerId → List ℕ
  pub resource_id : ResourceId → List ℕ
  pub padded : ℕ → List ℕ → List ℕ

-- The bounds are powers of two, so the comparisons of floats are those of the integers.
unfoldable format_size : Format → ℕ → List ℕ
format_size f bytes =
    let kb : ℕ = 1024 in
    let mb : ℕ = 1048576 in
    let gb : ℕ = 1073741824 in
    let over : ℕ → List ℕ = λ unit. f.fixed2 (quotient (of_integer bytes) (of_integer unit)) in
    if leb gb bytes
    then over gb ++ text " GB"
    else if leb mb bytes
    then over mb ++ text " MB"
    else if leb kb bytes
    then over kb ++ text " KB"
    else decimal bytes ++ text " bytes"

show_peer : Format → DiscoveredPeerInfo → Printed
show_peer f r = out (
    text "  "
    ++ (r.alias ++ (text ": " ++ (r.nickname ++ (text " (" ++ (f.address r.address ++ text ")"))))))

show_connected : Format → ConnectedPeerInfo → Printed
show_connected f p = out (text "  " ++ (p.alias ++ (text " -> " ++ f.peer_id p.peer_id)))

show_resource : Format → ListedResource → Printed
unfolding format_size
show_resource f r = out (
    text "  "
    ++ (f.padded 4 r.alias
        ++ (text " " ++ (f.padded 30 r.name ++ (text " " ++ format_size f r.size)))))

-- The arms of the `match`: what is printed, and whether the loop ends there.
unfoldable pub show_response : Format → ControlResponse → List Printed × Bool
unfolding show_peer show_connected show_resource format_size
show_response f done = (out (text "Success") ∷ [], true)
show_response f (error e) = (err_line (text "Error: " ++ e) ∷ [], true)
show_response f (scan_results []) = (out (text "No peers discovered.") ∷ [], true)
show_response f (scan_results (r ∷ rs)) = (map (show_peer f) (r ∷ rs), true)
show_response f (peers_list []) = (out (text "No connected peers.") ∷ [], true)
show_response f (peers_list (p ∷ ps)) =
    (out (text "Connected Peers:") ∷ map (show_connected f) (p ∷ ps), true)
show_response f (resource_list []) = (out (text "No resources available.") ∷ [], true)
show_response f (resource_list (r ∷ rs)) = (map (show_resource f) (r ∷ rs), true)
show_response f (resource_added alias id) = (
  out (text "Added resource -> " ++ (f.resource_id id ++ (text " (alias: " ++ (alias ++ text ")"))))
      ∷ [],
  true,
)
show_response f (download_progress bytes total mbps) = (
  part (
        13
        ∷ (text "Downloading... "
            ++ (format_size f bytes
                ++ (text " / "
                    ++ (format_size f total ++ (text " (" ++ (f.fixed2 mbps ++ text " MB/s)")))))))
      ∷ [],
  false,
)
show_response f (download_complete bytes elapsed_secs) =
    let mb = quotient (of_integer bytes) (of_integer 1_000_000) in
    let mb_per_sec =
      if f.is_positive elapsed_secs then quotient mb elapsed_secs else of_integer 0 in
    (
      out (
            10
            ∷ (text "Downloaded "
                ++ (format_size f bytes
                    ++ (text " in "
                        ++ (f.fixed2 elapsed_secs
                            ++ (text "s (" ++ (f.fixed2 mb_per_sec ++ text " MB/s)")))))))
          ∷ [],
      true,
    )

-- The lines that `read_line` gives, each with its newline; a last one without a newline is given
-- only if the stream has ended without an error.
unfoldable pub read_lines : (seen : List ℕ) → (failed : Bool) → List ℕ → List (List ℕ)
read_lines [] failed [] = []
read_lines (c ∷ cs) failed [] = if failed then [] else (c ∷ cs) ∷ []
read_lines seen failed (c ∷ cs) =
    let ended = (seen ++ (c ∷ [])) ∷ read_lines [] failed cs in
    let more = read_lines (seen ++ (c ∷ [])) failed cs in if c == 10 then ended else more

-- The loop: what it returns and what was printed.
unfoldable pub read_responses :
    Json → Format → List (List ℕ) → Result (Unit {0}) Error × List Printed
read_responses json f [] = (ok tt, [])
read_responses json f (line ∷ lines) =
    let (result, later) = read_responses json f lines in
    elim (from_utf8 line) [
      | none ↦ (ok tt, [])
      | some resp_line ↦ elim (json.read_response resp_line) [
        | err e ↦ (err (record { kind = invalid_data; message = e }), [])
        | ok resp ↦
            let (shown, ends) = show_response f resp in
            if ends then (ok tt, shown) else (result, shown ++ later)
      ]
    ]

-- `run` for a request: `connected` and `sent` are what the socket answers, and `answered` is what
-- comes out of it, with whether it fails in the end.
unfoldable pub run_request :
    Json
    → Format
    → (connected sent : Option Error) → List ℕ × Bool
    → ControlMessage
    → List ℕ × Result (Unit {0}) Error × List Printed
run_request json f (some e) sent answered msg = (
  [],
  err e,
  err_line (text "Failed to connect to daemon. Is 'parsip daemon' running? Error: " ++ e.message)
      ∷ [],
)
run_request json f none (some e) answered msg = ([], err e, [])
run_request json f none none (bytes, failed) msg =
    let (result, shown) = read_responses json f (read_lines [] failed bytes) in
    (json.write_request msg ++ (10 ∷ []), result, shown)

-- `run`: what is sent to the daemon, what is returned, what is printed, and the disk afterwards.
-- `connected`, `sent` and `answered` are as in `run_request`.
unfoldable pub run :
    Json
    → Format
    → Surroundings
    → (connected sent : Option Error) → List ℕ × Bool
    → List (List ℕ)
    → Disk
    → List ℕ × Result (Unit {0}) Error × List Printed × Disk
run json f w connected sent answered (program ∷ cmd ∷ args) d =
    let (configured, d') = run_config w args d in
    let asking : List ℕ × Result (Unit {0}) Error × List Printed × Disk = elim (request cmd args) [
      | err line ↦ ([], ok tt, line ∷ [], d)
      | ok msg ↦
          let (written, result, printed) = run_request json f connected sent answered msg in
          (written, result, printed, d)
    ] in
    if bytes_eq cmd (text "config") then ([], ok tt, configured, d') else asking
run json f w connected sent answered args d =
    ([], ok tt, out (text "Usage: parsip <command> [args]") ∷ [], d)
