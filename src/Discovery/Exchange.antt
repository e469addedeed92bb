-- ===== src/Discovery/Exchange.antt =====
-- src/discovery/mod.rs: a request and its reply, between two nodes.
use parsip.Base.{
  ℕ, suc, ◌+◌, ◌<◌, ◌≡◌, ◌≢◌, refl, sym, ap, ◌∙◌, List, [], ◌∷◌, ◌++◌, ◌||◌, Bool, true, false,
  none, some, ltb, if◌then◌else◌, length, take, drop, slice, arith, length-append, slice_segment,
  drop_prefix, append_assoc, ite, lt→ltb, take_behind,
}
use mathlib.Core.Logic.{if_pos, if_neg}
use parsip.Bytes.{to_be_bytes, from_be_bytes, length-to_be_bytes, from_be_bytes-to_be_bytes}
use parsip.Text.{text}
use parsip.Identity.{PeerId, PeerId-discrete}
use parsip.Peer.{PeerEvent, discovered}
use parsip.Control.{SocketAddr}
use parsip.Text.Strings.{bytes_eq}
use parsip.Discovery.{
  Node, payload, magic_request, magic_response, discovery_port, handle_greeting, handle_datagram,
}

-- What a receiver shows of a nickname: 984 bytes fit beside the rest.
unfoldable pub shown : (List ℕ → List ℕ) → List ℕ → List ℕ
shown lossy [] = text "Unknown"
shown lossy (c ∷ cs) = lossy (take 984 (c ∷ cs))

-- A magic word, a port of 16 bits and an identity of 32 bytes.
module _ (magic : List ℕ) (port : ℕ) (id : PeerId) (nickname : List ℕ) (six : length magic ≡ 6)
    (u16 : port < 65536) (array : length id.bytes ≡ 32) where
  -- What of a payload gets through to the buffer.
  payload_cut :
      take 1024 (payload magic port id nickname) ≡ payload magic port id (take 984 nickname)
  unfolding payload
  payload_cut =
      let two = length-to_be_bytes 2 port in
      take_behind 1024 1018 magic _ (omega arith)
      ∙ ap (magic ++◌) (
          take_behind 1018 1016 (to_be_bytes 2 port) _ (omega (arith, two))
          ∙ ap (to_be_bytes 2 port ++◌) (take_behind 1016 984 id.bytes nickname (omega arith)))

  payload_magic : slice (payload magic port id nickname) 0 6 ≡ magic
  unfolding payload
  payload_magic = slice_segment [] magic _ _ 0 6 refl refl (omega arith)

  payload_port : from_be_bytes (slice (payload magic port id nickname) 6 8) ≡ port
  unfolding payload
  payload_port =
      let two = length-to_be_bytes 2 port in
      ap from_be_bytes (
        slice_segment magic (to_be_bytes 2 port) (id.bytes ++ nickname) _ 6 8 refl (omega arith)
          (omega (arith, two)))
      ∙ from_be_bytes-to_be_bytes 2 port (omega arith)

  payload_head :
      payload magic port id nickname ≡ (magic ++ to_be_bytes 2 port) ++ (id.bytes ++ nickname)
  unfolding payload
  payload_head = sym (append_assoc magic (to_be_bytes 2 port) (id.bytes ++ nickname))

  head_length : length (magic ++ to_be_bytes 2 port) ≡ 8
  head_length = omega (arith, length-append magic (to_be_bytes 2 port), length-to_be_bytes 2 port)

  payload_id : slice (payload magic port id nickname) 8 40 ≡ id.bytes
  payload_id =
      slice_segment (magic ++ to_be_bytes 2 port) id.bytes nickname _ 8 40 payload_head
        (sym head_length) (omega (arith, head_length))

  payload_nickname : drop 40 (payload magic port id nickname) ≡ nickname
  payload_nickname =
      drop_prefix ((magic ++ to_be_bytes 2 port) ++ id.bytes) nickname _ 40
        (payload_head ∙ sym (append_assoc (magic ++ to_be_bytes 2 port) id.bytes nickname))
        (omega (arith, head_length, length-append (magic ++ to_be_bytes 2 port) id.bytes))

  payload_length : length (payload magic port id nickname) ≡ 40 + length nickname
  payload_length =
      ap length payload_head
      ∙ omega (
        arith,
        head_length,
        length-append (magic ++ to_be_bytes 2 port) (id.bytes ++ nickname),
        length-append id.bytes nickname,
      )

shown_cut :
    (lossy : List ℕ → List ℕ) (nickname : List ℕ)
    → (if ltb 40 (40 + length (take 984 nickname))
        then lossy (take 984 nickname)
        else text "Unknown")
      ≡ shown lossy nickname
unfolding shown
shown_cut lossy [] = refl
shown_cut lossy (c ∷ cs) = rw (lt→ltb 40 (40 + suc (length (take 983 cs))) (omega arith)) refl

-- What a node says of itself fits the format: a port of 16 bits, and an identity of 32 bytes.
pub record IsNode (n : Node) : Type 0 where
  pub port_u16 : n.tcp_listen_port < 65536
  pub id_array : length n.my_id.bytes ≡ 32

abbrev pub request_of : Node → List ℕ
request_of n = payload magic_request n.tcp_listen_port n.my_id n.my_nickname

abbrev pub response_of : Node → List ℕ
response_of n = payload magic_response n.tcp_listen_port n.my_id n.my_nickname

-- The event that reports a node, heard from `src`.
abbrev pub report : (List ℕ → List ℕ) → Node → SocketAddr → PeerEvent
report lossy n src =
    discovered n.my_id (record src { port = n.tcp_listen_port }) (shown lossy n.my_nickname)

module _ (lossy : List ℕ → List ℕ) (hearer teller : Node) (v : IsNode teller)
    (src : SocketAddr) where
  open teller use {tcp_listen_port as port, my_id as id, my_nickname as nickname}

  handle_greeting-payload :
      (magic : List ℕ) (is_request : Bool)
      → length magic ≡ 6
      → handle_greeting lossy hearer is_request (payload magic port id (take 984 nickname)) src
        ≡ ite
            (PeerId-discrete id hearer.my_id)
            (none, none)
            (
              if is_request
                  then some (response_of hearer, record src { port = discovery_port })
                  else none,
              some (report lossy teller src),
            )
  unfolding handle_greeting
  handle_greeting-payload magic is_request six =
      let cut = take 984 nickname in
      rw
        (
          handle_greeting,
          payload_port magic port id cut six v.port_u16 v.id_array,
          payload_id magic port id cut six v.port_u16 v.id_array,
          payload_nickname magic port id cut six v.port_u16 v.id_array,
          payload_length magic port id cut six v.port_u16 v.id_array,
          shown_cut lossy nickname,
        )
        refl

  -- A datagram with one of the two magic words is handled as a greeting.
  handle_datagram-payload :
      (magic : List ℕ) (is_request : Bool)
      → length magic ≡ 6
      → bytes_eq magic magic_request ≡ is_request
      → (is_request || bytes_eq magic magic_response) ≡ true
      → handle_datagram lossy hearer (payload magic port id nickname) src
        ≡ handle_greeting lossy hearer is_request (payload magic port id (take 984 nickname)) src
  unfolding handle_datagram
  handle_datagram-payload magic is_request six req either =
      let cut = take 984 nickname in
      rw
        (
          handle_datagram,
          payload_cut magic port id nickname six v.port_u16 v.id_array,
          payload_magic magic port id cut six v.port_u16 v.id_array,
          payload_length magic port id cut six v.port_u16 v.id_array,
          req,
        )
        (ground (arith, either))

-- Two nodes with different identities, whatever address each hears the other from: the request of
-- one makes the other report it and send a response to the discovery port, the response makes the
-- first one report the other, with no further reply, and nobody reacts to what it sent itself.
pub handle_datagram-exchange :
    (lossy : List ℕ → List ℕ) (asker teller : Node) (src src' : SocketAddr)
    → IsNode asker
    → IsNode teller
    → asker.my_id ≢ teller.my_id
    → (handle_datagram lossy teller (request_of asker) src ≡ (
      some (response_of teller, record src { port = discovery_port }),
      some (report lossy asker src),
    ))
      × (handle_datagram lossy asker (response_of teller) src'
          ≡ (none, some (report lossy teller src')))
      × (handle_datagram lossy asker (request_of asker) src ≡ (none, none))
      × (handle_datagram lossy teller (response_of teller) src ≡ (none, none))
unfolding bytes_eq text
handle_datagram-exchange lossy asker teller src src' va vt ne = (
  handle_datagram-payload lossy teller asker va src magic_request true refl refl refl
      ∙ handle_greeting-payload lossy teller asker va src magic_request true refl
      ∙ rw (if_neg _ ne) refl,
  handle_datagram-payload lossy asker teller vt src' magic_response false refl refl refl
      ∙ handle_greeting-payload lossy asker teller vt src' magic_response false refl
      ∙ rw (if_neg _ (λ e. ne (sym e))) refl,
  handle_datagram-payload lossy asker asker va src magic_request true refl refl refl
      ∙ handle_greeting-payload lossy asker asker va src magic_request true refl
      ∙ rw (if_pos _ refl) refl,
  handle_datagram-payload lossy teller teller vt src magic_response false refl refl refl
      ∙ handle_greeting-payload lossy teller teller vt src magic_response false refl
      ∙ rw (if_pos _ refl) refl,
)
