-- ===== src/Tests/Requests.antt =====
-- The requests of the command line (src/event_handler.rs), at fixed inputs.
use parsip.Base.{
  false, arith, ◌+◌, ◌≤◌, ℕ_discrete, ◌≡◌, refl, List, [], ◌∷◌, none, inl, Among, ◌⊎◌,
}
use parsip.Map.{lookup, nat_key}
use parsip.Text.{text}
use parsip.Io.{ok}
use parsip.Control.{scan, add_resource}
use parsip.Peer.{PeerEvent, new_connection, scan_timeout, control_request}
use parsip.Resource.Store.{
  OpenFile, Digests, file_name, hash_file, components, push_component, last_name, is_parent,
}
use parsip.Resource.Store as Store
use parsip.EventHandler.{DaemonContext, Answers, handle_new_connection, handle_scan_timeout}
use parsip.EventHandler.Dispatch.{
  ControlAnswers, handle_control, handle_add_resource, handle_scan, handle_event, event_loop,
  expand_home,
}
use parsip.EventHandler.Dispatch.Served.{IsFresh, IsTaken, handle_control-IsTaken}
use parsip.EventHandler.Dispatch.Serving.{IsServing, IsServed}
use parsip.EventHandler.Dispatch.Liveness.{IsDone, IsReport, event_loop-IsDone, handle_scan-IsDone}
use parsip.EventHandler.Dispatch.Once.{waiting as pending, answered}
use parsip.EventHandler.Dispatch.Once.Events.{all_asked, event_loop-answered}
use parsip.Tests.Samples.{bob}
use parsip.Tests.Downloads.{waiting}

abbrev pub answers : Answers
answers = record { now = 0; later = 0; writes = λ n. none; renamed = none; call_panics = false }

abbrev pub a_file : OpenFile
a_file = record { metadata = ok 3; reads = (1 ∷ 2 ∷ []) ∷ (3 ∷ []) ∷ [] }

abbrev pub toy_digests : Digests
toy_digests = record { sha256 = λ bytes. bytes; lossy = λ bytes. bytes }

abbrev pub control_answers : ControlAnswers
control_answers = record {
  home = none;
  socket = none;
  trie = none;
  route = none;
  created = none;
  started = 0;
  reported = 0;
  opened = λ path. ok a_file;
  digests = toy_digests;
  call_panics = false;
}

waiting-IsFresh : IsFresh waiting.req_tracker
unfolding IsFresh lookup
waiting-IsFresh = λ id h. ground (arith, h)

abbrev scanned : DaemonContext
scanned = handle_scan control_answers 3 waiting

handle_control-IsTaken_example : IsTaken 3 waiting scanned
unfolding handle_control
handle_control-IsTaken_example =
    handle_control-IsTaken control_answers scan 3 waiting scanned waiting-IsFresh refl

abbrev bob_comes : List (PeerEvent × Answers × ControlAnswers)
bob_comes = (new_connection bob, answers, control_answers) ∷ []

handle_scan-IsDone_example :
    (IsDone 3 scanned ⊎ Among 6 scanned.timers)
    × IsDone 3 (handle_scan_timeout 6 (handle_new_connection bob scanned))
unfolding event_loop handle_event
handle_scan-IsDone_example =
    handle_scan-IsDone control_answers 3 waiting bob_comes (handle_new_connection bob scanned)
      waiting-IsFresh (omega arith) refl

-- The request that waits in the beginning.
waiting-IsServing : IsServing 4 0 1 waiting
unfolding IsServed lookup ℕ_discrete
waiting-IsServing = record { room = omega arith; fresh = waiting-IsFresh; served = inl refl }

scan_timeout-IsReport : IsReport 4 (scan_timeout 4)
unfolding IsReport
scan_timeout-IsReport = inl refl

event_loop-IsDone_example : IsDone 0 (handle_scan_timeout 4 (handle_new_connection bob waiting))
unfolding event_loop handle_event
event_loop-IsDone_example =
    event_loop-IsDone 4 0 bob_comes answers control_answers (scan_timeout 4) waiting
      (handle_new_connection bob waiting)
      (handle_scan_timeout 4 (handle_new_connection bob waiting)) waiting-IsServing refl
      scan_timeout-IsReport refl

-- `parsip add ..`
abbrev add_parent : PeerEvent
add_parent = control_request (add_resource (text "..")) 3

add_parent_panics : handle_event answers control_answers add_parent waiting ≡ none
unfolding handle_event handle_control handle_add_resource expand_home Store.add_resource hash_file
    file_name components push_component last_name is_parent text
add_parent_panics = refl

abbrev a_scan : List (PeerEvent × Answers × ControlAnswers)
a_scan = (control_request scan 3, answers, control_answers) ∷ []

event_loop-answered_example :
    pending 3 scanned.req_tracker.pending_requests + answered 3 scanned.responses
    ≤ pending 3 waiting.req_tracker.pending_requests
      + answered 3 waiting.responses
      + all_asked 3 a_scan
unfolding event_loop handle_event handle_control
event_loop-answered_example = event_loop-answered 3 a_scan waiting scanned refl
