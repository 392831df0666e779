-- ===== src/Server/Delivering.antt =====
-- What the client gets of a response.
use ats_fastcgi.Common.{
  ℕ, ◌≡◌, refl, ap, sym, ◌∙◌, Bool, true, false, List, [], ◌∷◌, ◌++◌, append_assoc, append-nil,
  none, some, ◌==◌, if◌then◌else◌, Bytes, length, Outcome, ok, fault, ◌>>=◌, Safe-result, arith,
}
use ats_fastcgi.Connection.{ServerConnection, FcgiRequest}
use ats_fastcgi.Connection.Heap.{load, cell-put}
use ats_fastcgi.Record.Message.{Message}
use ats_fastcgi.Response.{Decoder, Run}
use ats_fastcgi.Response.Stream.{IsResponse, encode_all, outputs}
use ats_fastcgi.Transfer.{and_then, intercept_transfer_data, read_events}
use ats_fastcgi.Transfer.Delivery.{new_decoder, AllEventsLong, join_all, read_events-outputs}
use ats_fastcgi.Intercept.{Environment, Effect, produce}
use ats_fastcgi.Server.{Server, find, get_intercept}
use ats_fastcgi.Server.Owners.{IsOwned}
use ats_fastcgi.Server.Ownership.{HasIds}
use ats_fastcgi.Server.Handling.{IsLive, complete_response-IsOwned}
use ats_fastcgi.Server.Receiving.{received-KeepsLive}
use ats_fastcgi.Server.Reachable.{Reachable, Reachable-IsOwned}
use ats_fastcgi.Server.Events.{
  received, after_transfer, transfer_to, transfer_found, read_ready, complete_response,
}

-- What the client of an intercept is given
abbrev pub produced_by : ℕ → Effect → Bytes
produced_by i (produce j bs) = if j == i then bs else []
produced_by i _ = []

abbrev pub produced : ℕ → List Effect → Bytes
produced i [] = []
produced i (e ∷ es) = produced_by i e ++ produced i es

-- The read events of a connection, one after the other
abbrev pub read_all : List (List Bytes) → ℕ → Server → Outcome Server
read_all [] c s = ok s
read_all (blocks ∷ events) c s = read_ready blocks c s >>= read_all events c

-- The connection `c` serves the request `k` of the intercept `i`, with the client request `r`.
abbrev pub Serves : ℕ → ℕ → ℕ → ServerConnection → FcgiRequest → Server → Type 0
Serves i c k conn r s =
    (find k s.intercept_list ≡ some (i, c))
    × (s.heap.cell c ≡ some conn)
    × (conn.request_id ≡ k)
    × (conn.fcgi_request ≡ some r)

produced-append :
    (i : ℕ) (es fs : List Effect) → produced i (es ++ fs) ≡ produced i es ++ produced i fs
produced-append i [] fs = refl
produced-append i (e ∷ es) fs =
    ap (◌++◌ (produced_by i e)) (produced-append i es fs)
    ∙ sym (append_assoc (produced_by i e) (produced i es) (produced i fs))

produced-own : (i : ℕ) (bs : Bytes) → produced i (produce i bs ∷ []) ≡ bs
produced-own i bs = let own : (i == i) ≡ true = ground arith in rw own (append-nil bs)

-- The chunk is added to what the client has, and all else but the decoder stays.
abbrev IsReceived :
    ℕ → ℕ → ℕ → ServerConnection → FcgiRequest → Decoder → Bytes → Server → Server → Type 0
IsReceived i c k conn r d output s s' =
    Serves i c k (record conn { fcgi_request = some (record r { decoder = d }) })
      (record r { decoder = d }) s'
    × (produced i s'.effects ≡ produced i s.effects ++ output)
    × (s'.env ≡ s.env)

received-IsReceived :
    (i c k : ℕ) (conn : ServerConnection) (r : FcgiRequest) (d : Decoder) (output : Bytes)
    (s : Server)
    → Serves i c k conn r s
    → IsReceived i c k conn r d output s (received i c conn r d output s)
received-IsReceived i c k conn r d [] s (f, e, same, client) =
    let conn' = record conn { fcgi_request = some (record r { decoder = d }) } in
    (
      (f, ground (arith, cell-put c c (some conn') s.heap), same, refl),
      sym (append-nil (produced i s.effects)),
      refl,
    )
received-IsReceived i c k conn r d (b ∷ bs) s (f, e, same, client) =
    let conn' = record conn { fcgi_request = some (record r { decoder = d }) } in
    (
      (f, ground (arith, cell-put c c (some conn') s.heap), same, refl),
      produced-append i s.effects (produce i (b ∷ bs) ∷ [])
          ∙ ap (◌++◌ (produced i s.effects)) (produced-own i (b ∷ bs)),
      refl,
    )

-- One event, by what its blocks are decoded to
read_ready-received :
    (i c k : ℕ) (conn : ServerConnection) (r : FcgiRequest) (blocks : List Bytes) (s : Server)
    (d : Decoder) (output : Bytes) (status : Bool)
    → Serves i c k conn r s
    → intercept_transfer_data s.env.ts_malloc s.env.mime blocks r.decoder
      ≡ some (ok (d, output, status))
    → read_ready blocks c s ≡ (
        if status
        then complete_response i c (received i c conn r d output s)
        else ok (received i c conn r d output s))
unfolding read_ready transfer_found transfer_to after_transfer
read_ready-received i c k conn r blocks s d output status (f, e, same, client) run =
    let there : load c s.heap ≡ ok conn = rw (e, load) refl in
    let found : get_intercept conn.request_id s ≡ some i = rw same (rw (f, get_intercept) refl) in
    rw (there, found, client, run) refl

-- The events up to `blocks` end well, and these complete the response: the client then has `client`.
abbrev pub IsDelivered : ℕ → ℕ → Bytes → List (List Bytes) → Server → Type 0
IsDelivered i c client events s =
    (before after : List (List Bytes)) × (blocks : List Bytes) × (s1 s2 : Server) × (events
      ≡ before ++ blocks ∷ after)
    × (read_all before c s ≡ ok s1)
    × (read_ready blocks c s1 ≡ complete_response i c s2)
    × (IsOwned s2 × HasIds s2 × IsLive c s2)
    × (produced i s2.effects ≡ client)

received-IsOwned :
    (i c : ℕ) (conn : ServerConnection) (r : FcgiRequest) (d : Decoder) (output : Bytes)
    (s : Server)
    → IsOwned s
    → HasIds s
    → s.heap.cell c ≡ some conn
    → (let s' = received i c conn r d output s in IsOwned s' × HasIds s' × IsLive c s')
received-IsOwned i c conn r d output s o more e =
    let ((o', same), live) = received-KeepsLive s i c conn r d output o e in
    (o', rw same more, live)

read_all-first :
    (blocks : List Bytes) (events : List (List Bytes)) (c : ℕ) (s s' : Server) (m : Outcome Server)
    → read_ready blocks c s ≡ ok s'
    → read_all events c s' ≡ m
    → read_all (blocks ∷ events) c s ≡ m
read_all-first blocks events c s s' m run rest = rw run rest

module _ (env : Environment) (i c k : ℕ) (base : Bytes) where
  -- The events of a response from a state on
  abbrev Goes : List (List Bytes) → Bytes → Type 0
  Goes events client' =
      (s : Server) (conn : ServerConnection) (r : FcgiRequest) (client : Bytes) (d' : Decoder)
      → s.env ≡ env
      → IsOwned s
      → HasIds s
      → Serves i c k conn r s
      → produced i s.effects ≡ base ++ client
      → read_events env.ts_malloc env.mime events r.decoder client ≡ some (ok (d', client', true))
      → IsDelivered i c (base ++ client') events s

  -- One event, by what its blocks are decoded to
  Goes-step :
      (blocks : List Bytes) (events : List (List Bytes)) (client' : Bytes) (run : Run) (s : Server)
      (conn : ServerConnection) (r : FcgiRequest) (client : Bytes) (d' : Decoder)
      → Goes events client'
      → s.env ≡ env
      → IsOwned s
      → HasIds s
      → Serves i c k conn r s
      → produced i s.effects ≡ base ++ client
      → intercept_transfer_data s.env.ts_malloc s.env.mime blocks r.decoder ≡ run
      → and_then run (λ d sent status. elim status [
        | true ↦ some (ok (d, client ++ sent, true))
        | false ↦ read_events env.ts_malloc env.mime events d (client ++ sent)
      ])
        ≡ some (ok (d', client', true))
      → IsDelivered i c (base ++ client') (blocks ∷ events) s
  Goes-step blocks events client' none s conn r client d' next same o more serves p q e =
      absurd (cc)
  Goes-step blocks events client' (some fault) s conn r client d' next same o more serves p q e =
      absurd (cc)
  Goes-step blocks events client' (some (ok (d, sent, true))) s conn r client d' next same o more
        serves p q e =
      let (serves', added, kept) = received-IsReceived i c k conn r d sent s serves in
      let done : client ++ sent ≡ client' = cc in
      (
        [],
        events,
        blocks,
        s,
        received i c conn r d sent s,
        refl,
        refl,
        read_ready-received i c k conn r blocks s d sent true serves q,
        received-IsOwned i c conn r d sent s o more serves.1,
        added ∙ ap (λ x. x ++ sent) p ∙ append_assoc base client sent ∙ ap (◌++◌ base) done,
      )
  Goes-step blocks events client' (some (ok (d, sent, false))) s conn r client d' next same o more
        serves p q e =
      let s' = received i c conn r d sent s in
      let r' = record r { decoder = d } in
      let (serves', added, kept) = received-IsReceived i c k conn r d sent s serves in
      let (o', more', live) = received-IsOwned i c conn r d sent s o more serves.1 in
      let (before, after, last, s1, s2, split, run, end, owned, got) =
        next s' (record conn { fcgi_request = some r' }) r' (client ++ sent) d' (kept ∙ same) o'
          more' serves' (added ∙ ap (λ x. x ++ sent) p ∙ append_assoc base client sent) e in
      (
        blocks ∷ before,
        after,
        last,
        s1,
        s2,
        ap (◌∷◌ blocks) split,
        read_all-first blocks before c s s' (ok s1)
            (read_ready-received i c k conn r blocks s d sent false serves q) run,
        end,
        owned,
        got,
      )

  read_events-Goes : (events : List (List Bytes)) (client' : Bytes) → Goes events client'
  unfolding read_events
  read_events-Goes [] client' s conn r client d' same o more serves p e = absurd (cc)
  read_events-Goes (blocks ∷ events) client' s conn r client d' same o more serves p e =
      Goes-step blocks events client'
        (intercept_transfer_data env.ts_malloc env.mime blocks r.decoder) s conn r client d'
        (read_events-Goes events client') same o more serves p
        (ap (λ v. intercept_transfer_data v.ts_malloc v.mime blocks r.decoder) same) e

-- In every state that the server comes to by calls and events, which are made while request ids are left
-- and of which the events and `connectionClosed` get a live connection, where the address of the
-- application can be read and every client request can be made, and while request ids are left: the
-- `TS_EVENT_VCONN_READ_READY` events that bring a whole response to the connection of a request, whose
-- client request has a new decoder, give the client of the request's intercept the status line for the
-- first record and the texts of all the records, in order; the events before some one end well, and this
-- one completes the response, once the client has it, which succeeds. Each block is empty or at least as
-- long as the longest padding; the response is records that end with the first `FCGI_STDERR` or
-- `FCGI_END_REQUEST`, and that record has content or padding; `TSmalloc n` gives `n` bytes.
pub read_ready-delivers :
    (s : Server) (i c k n : ℕ) (conn : ServerConnection) (r : FcgiRequest)
    (events : List (List Bytes)) (ms : List Message)
    → Reachable s
    → HasIds s
    → ((m : ℕ) → length (s.env.ts_malloc m) ≡ m)
    → Serves i c k conn r s
    → r.decoder ≡ new_decoder
    → IsResponse n ms
    → AllEventsLong n events
    → join_all events ≡ encode_all ms
    → (before after : List (List Bytes)) × (blocks : List Bytes) × (s1 s2 s' : Server) × (events
        ≡ before ++ blocks ∷ after)
      × (read_all before c s ≡ ok s1)
      × (read_ready blocks c s1 ≡ complete_response i c s2)
      × (produced i s2.effects ≡ produced i s.effects ++ outputs s.env.mime true ms)
      × (complete_response i c s2 ≡ ok s')
read_ready-delivers s i c k n conn r events ms reach more sized serves fresh is long whole =
    let (d, run) = read_events-outputs s.env.ts_malloc sized s.env.mime n events ms is long whole in
    let (before, after, blocks, s1, s2, split, first, last, (o, more', live), got) =
      read_events-Goes s.env i c k (produced i s.effects) events (outputs s.env.mime true ms) s conn
        r [] d refl (Reachable-IsOwned reach) more serves (sym (append-nil (produced i s.effects)))
        (ap (λ x. read_events s.env.ts_malloc s.env.mime events x []) fresh ∙ run) in
    let (s', done, o') =
      Safe-result IsOwned (complete_response i c s2)
        (complete_response-IsOwned s2 i c o more' live) in
    (before, after, blocks, s1, s2, s', split, first, last, got, done)
