-- ===== src/Tests/Downloads.antt =====
-- Downloads and transfers (src/resource, src/event_handler.rs), at fixed inputs.
use parsip.Base.{arith, false, ◌≡◌, refl, List, [], ◌∷◌, none, some}
use parsip.Map.{lookup, nat_key}
use parsip.Text.{text}
use parsip.Identity.{peer_key}
use parsip.Disk.{Disk}
use parsip.Resource.Keys.{resource_key}
use parsip.Resource.Transfer.{Transfer, TransferManager}
use parsip.Resource.Transfer.Keyed.{IsKeyed}
use parsip.Resource.Download.{DownloadManager}
use parsip.Resource.Download.Content.{
  Event, arrives, works, arrived, downloaded, downloaded-IsFinished,
}
use parsip.Resource.Download.Running.{IsFinished}
use parsip.ConnectionManager as Connections
use parsip.AliasRegistry as Aliases
use parsip.EventHandler.{DaemonContext, handle_disconnected}
use parsip.EventHandler.Discover.{IsListed}
use parsip.AliasRegistry.Named.{new-IsRegistry}
use parsip.Control.{SocketAddr, v4}
use parsip.EventHandler.Disconnect.{IsCancelled, handle_disconnected-IsCancelled}
use parsip.Tests.Samples.{alice, bob, resource, info}

abbrev downloads : DownloadManager
downloads = record { downloads = []; detached = []; downloads_dir = text "/home/me/Downloads" }

abbrev pub empty_disk : Disk
empty_disk = record { names = []; contents = []; next_file = 0; refuses_removal = λ path. false }

abbrev happenings : List Event
happenings = arrives (1 ∷ 2 ∷ 3 ∷ []) ∷ works ∷ arrives (4 ∷ 5 ∷ []) ∷ works ∷ []

no_download_yet : lookup info.id downloads.downloads ≡ none
unfolding lookup
no_download_yet = refl

downloaded-IsFinished_example :
    IsFinished info downloads.downloads_dir
      (arrived happenings)
      (downloaded info happenings downloads empty_disk)
downloaded-IsFinished_example =
    downloaded-IsFinished info happenings downloads empty_disk no_download_yet

abbrev from_bob : Transfer
from_bob = record {
  request_id = 4;
  peer_id = bob;
  resource_id = resource;
  bytes_transferred = 3;
  bytes_total = 5;
  start_time = 0;
  last_report_time = 0;
  last_report_bytes = 0;
}

abbrev from_alice : Transfer
from_alice = record from_bob { request_id = 5; peer_id = alice }

abbrev transfers : TransferManager
transfers = (4, from_bob) ∷ (5, from_alice) ∷ []

transfers-IsKeyed : IsKeyed transfers
unfolding IsKeyed lookup
transfers-IsKeyed = (refl, ground arith, (refl, refl, tt))

-- A node that waits for bob.
abbrev pub waiting : DaemonContext
waiting = record {
  node = record { tcp_listen_port = 9000; my_id = alice; my_nickname = text "alice" };
  manager = Connections.new;
  store = record { shared_dir = text "/home/me/shared"; index = [] };
  download_mgr = downloads;
  transfer_mgr = transfers;
  aliases = Aliases.new;
  req_tracker = record { next_id = 6; pending_requests = (4, 0) ∷ [] };
  disk = empty_disk;
  responses = [];
  uploads = [];
  datagrams = [];
  timers = [];
  connecting = [];
}

bob_found : lookup 4 transfers ≡ some from_bob
unfolding lookup
bob_found = ground arith

handle_disconnected-IsCancelled_example :
    IsCancelled from_bob waiting (handle_disconnected bob waiting)
handle_disconnected-IsCancelled_example =
    handle_disconnected-IsCancelled bob waiting from_bob transfers-IsKeyed bob_found refl

-- Nobody has been discovered yet.
pub new-IsListed : IsListed Aliases.new
unfolding Aliases.new lookup
new-IsListed = record { registry = new-IsRegistry; listed = λ p i e. ground (arith, e) }

abbrev pub bobs_address : SocketAddr
bobs_address = record { ip = v4 192 168 0 7; port = 4000 }
