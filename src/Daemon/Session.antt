-- ===== src/Daemon/Session.antt =====
-- src/daemon/mod.rs and src/cli/mod.rs: one request over the control socket.
use parsip.Base.{
  ℕ, ◌≡◌, ◌≢◌, refl, ap, ◌∙◌, List, [], ◌∷◌, ◌++◌, Bool, true, false, none, some, All, append_assoc,
  append-nil, concat, map, arith, if◌then◌else◌,
}
use parsip.Text.{IsText, from_utf8}
use parsip.Text.Strings.{lines_from, lines_from_line}
use parsip.Io.{ok}
use parsip.Control.{
  ControlMessage, ControlResponse, is_terminal, done, error, scan_results, peers_list,
  resource_list, resource_added, download_progress, download_complete,
}
use parsip.Cli.{Printed}
use parsip.Cli.Responses.{Json, Format, show_response, read_lines, read_responses, run_request}
use parsip.Daemon.{serve_request, serve_lines}

-- What is read of an answer, on a line of its own, is the answer.
pub record IsRead (json : Json) (r : ControlResponse) : Type 0 where
  pub written : List ℕ
  pub writes : json.write_response r ≡ some written
  pub one_line : All (λ c. c ≢ 10) written
  pub is_text : IsText (written ++ (10 ∷ []))
  pub reads : json.read_response (written ++ (10 ∷ [])) ≡ ok r

read_lines_line :
    (seen line rest : List ℕ) (failed : Bool)
    → All (λ c. c ≢ 10) line
    → read_lines seen failed (line ++ (10 ∷ rest))
      ≡ (seen ++ (line ++ (10 ∷ []))) ∷ read_lines [] failed rest
unfolding read_lines
read_lines_line [] [] rest failed h = refl
read_lines_line (x ∷ xs) [] rest failed h = refl
read_lines_line [] (c ∷ cs) rest failed (ne, h) =
    ground (arith, ne, read_lines_line (c ∷ []) cs rest failed h)
read_lines_line (x ∷ xs) (c ∷ cs) rest failed (ne, h) = ground (
  arith,
  ne,
  read_lines_line ((x ∷ xs) ++ (c ∷ [])) cs rest failed h,
  append_assoc (x ∷ xs) (c ∷ []) (cs ++ (10 ∷ [])),
)

-- The client stops at the answers at which the daemon stops.
show_response-is_terminal :
    (f : Format) (r : ControlResponse) → (show_response f r).1 ≡ is_terminal r
unfolding show_response is_terminal
show_response-is_terminal f done = refl
show_response-is_terminal f (error e) = refl
show_response-is_terminal f (scan_results []) = refl
show_response-is_terminal f (scan_results (x ∷ xs)) = refl
show_response-is_terminal f (peers_list []) = refl
show_response-is_terminal f (peers_list (x ∷ xs)) = refl
show_response-is_terminal f (resource_list []) = refl
show_response-is_terminal f (resource_list (x ∷ xs)) = refl
show_response-is_terminal f (resource_added alias id) = refl
show_response-is_terminal f (download_progress bytes total mbps) = refl
show_response-is_terminal f (download_complete bytes secs) = refl

read_responses_line :
    (json : Json) (f : Format) (r : ControlResponse) (line : List ℕ) (lines : List (List ℕ))
    → IsText line
    → json.read_response line ≡ ok r
    → read_responses json f (line ∷ lines) ≡ (
        let (result, later) = read_responses json f lines in
        let (shown, ends) = show_response f r in
        if ends then (ok tt, shown) else (result, shown ++ later))
unfolding read_responses from_utf8
read_responses_line json f r line lines t e = ground (arith, t, e)

read_responses_step :
    (json : Json) (f : Format) (r : ControlResponse) (rest : List ℕ) (failed : Bool)
    (v : IsRead json r)
    → read_responses json f (read_lines [] failed (v.written ++ (10 ∷ rest))) ≡ (
        let (result, later) = read_responses json f (read_lines [] failed rest) in
        let (shown, ends) = show_response f r in
        if ends then (ok tt, shown) else (result, shown ++ later))
read_responses_step json f r rest failed v =
    ap (read_responses json f) (read_lines_line [] v.written rest failed v.one_line)
    ∙ read_responses_line json f r (v.written ++ (10 ∷ [])) (read_lines [] failed rest) v.is_text
        v.reads

-- Answers that can all be written.
abbrev pub reached : List ControlResponse → List (ControlResponse × Bool)
reached rs = map (λ r. (r, true)) rs

abbrev pub shown : Format → List ControlResponse → List Printed
shown f rs = concat (map (λ r. (show_response f r).0) rs)

-- Answers that leave the request open, and the one that ends it.
pub record IsAnswer (json : Json) (progress : List ControlResponse) (last : ControlResponse)
    : Type 0 where
  pub read : All (IsRead json) progress
  pub goes_on : All (λ r. is_terminal r ≡ false) progress
  pub last_read : IsRead json last
  pub ends : is_terminal last ≡ true

read_responses-serve_request :
    (json : Json) (f : Format) (progress : List ControlResponse) (last : ControlResponse)
    (later : List (ControlResponse × Bool)) (failed : Bool)
    → IsAnswer json progress last
    → read_responses json f
        (read_lines [] failed (serve_request json (reached progress ++ ((last, true) ∷ later))))
      ≡ (ok tt, shown f progress ++ (show_response f last).0)
unfolding serve_request concat
read_responses-serve_request json f [] last later failed v =
    let r = v.last_read in
    let wrote : serve_request json ((last, true) ∷ later) ≡ r.written ++ (10 ∷ []) =
      ground (arith, v.ends, r.writes) in
    ap (λ bytes. read_responses json f (read_lines [] failed bytes)) wrote
    ∙ read_responses_step json f last [] failed r
    ∙ ground (arith, v.ends, show_response-is_terminal f last)
read_responses-serve_request json f (p ∷ ps) last later failed v =
    let (r, read) = v.read in
    let (open_yet, goes_on) = v.goes_on in
    let answers = reached ps ++ ((last, true) ∷ later) in
    let wrote : serve_request json ((p, true) ∷ answers)
        ≡ r.written ++ (10 ∷ serve_request json answers) =
      ground (arith, open_yet, r.writes) in
    let others =
      read_responses-serve_request json f ps last later failed
        (record { read = read; goes_on = goes_on; last_read = v.last_read; ends = v.ends }) in
    ap (λ bytes. read_responses json f (read_lines [] failed bytes)) wrote
    ∙ read_responses_step json f p (serve_request json answers) failed r
    ∙ ground (
      arith,
      open_yet,
      show_response-is_terminal f p,
      others,
      append_assoc (show_response f p).0 (shown f ps) (show_response f last).0,
    )

-- What is read of a request, on a line of its own, is the request.
pub record IsRequest (json : Json) (cmd : ControlMessage) : Type 0 where
  pub one_line : All (λ c. c ≢ 10) (json.write_request cmd)
  pub no_return : All (λ c. c ≢ 13) (json.write_request cmd)
  pub is_text : IsText (json.write_request cmd)
  pub reads : json.read_request (json.write_request cmd) ≡ some cmd

serve_lines_request :
    (json : Json) (cmd : ControlMessage) (answers : ℕ → List (ControlResponse × Bool))
    → IsRequest json cmd
    → serve_lines json answers (lines_from [] (json.write_request cmd ++ (10 ∷ [])))
      ≡ (cmd ∷ [], serve_request json (answers 0))
unfolding serve_lines from_utf8
serve_lines_request json cmd answers v =
    let line = lines_from_line (json.write_request cmd) v.one_line v.no_return in
    ap (serve_lines json answers) line
    ∙ ground (arith, v.is_text, v.reads, append-nil (serve_request json (answers 0)))

-- Where the library `serde_json` reads what it has written of a request and its answers, each on a
-- line of its own, and the socket does not fail: the daemon takes exactly this request from what
-- the client sends, and the client shows the answers up to the first one that ends the request, in
-- their order, and returns with success, whatever comes into the channel afterwards.
pub run_request-serve_lines :
    (json : Json) (f : Format) (cmd : ControlMessage) (progress : List ControlResponse)
    (last : ControlResponse) (later : List (ControlResponse × Bool)) (failed : Bool)
    → IsRequest json cmd
    → IsAnswer json progress last
    → let answers : ℕ → List (ControlResponse × Bool) =
        λ n. reached progress ++ ((last, true) ∷ later) in
      let (cmds, written) =
        serve_lines json answers (lines_from [] (json.write_request cmd ++ (10 ∷ []))) in
      let (sent, result, printed) = run_request json f none none (written, failed) cmd in
      (sent ≡ json.write_request cmd ++ (10 ∷ []))
      × (cmds ≡ cmd ∷ [])
      × (result ≡ ok tt)
      × (printed ≡ shown f progress ++ (show_response f last).0)
unfolding run_request
run_request-serve_lines json f cmd progress last later failed v w =
    let answers : ℕ → List (ControlResponse × Bool) =
      λ n. reached progress ++ ((last, true) ∷ later) in
    let served = serve_lines_request json cmd answers v in
    let got = read_responses-serve_request json f progress last later failed w in
    let read = ap (λ x. read_responses json f (read_lines [] failed x.1)) served ∙ got in
    (refl, ap (λ x. x.0) served, ap (λ x. x.0) read, ap (λ x. x.1) read)
