-- ===== src/Server/Receiving.antt =====
-- The event that reads a response keeps the invariant of the server.
use ats_fastcgi.Common.{
  ℕ, ◌≡◌, refl, List, [], ◌∷◌, Option, none, some, ok, fault, OnOk, OnOk-Safe, arith, Bool, true,
  false, Bytes, if◌then◌else◌,
}
use ats_fastcgi.Connection.{FcgiRequest, ServerConnection}
use ats_fastcgi.Connection.Heap.{put}
use ats_fastcgi.Response.{Decoder, Run}
use ats_fastcgi.Transfer.{intercept_transfer_data}
use ats_fastcgi.Server.{Server, get_intercept}
use ats_fastcgi.Server.Owners.{IsOwned, owner-put}
use ats_fastcgi.Server.Ownership.{HasIds}
use ats_fastcgi.Server.Events.{
  complete_response, write_response_chunk, received, after_transfer, transfer_to, transfer_found,
  read_ready,
}
use ats_fastcgi.Server.Handling.{
  IsLive, KeepsLive, load-OnOk, change-IsOwned, complete_response-IsOwned,
}

write_response_chunk-KeepsLive :
    (i : ℕ) (bs : Bytes) (c id : ℕ) (s : Server)
    → KeepsLive c id s
    → KeepsLive c id (write_response_chunk i bs s)
write_response_chunk-KeepsLive i [] c id s p = p
write_response_chunk-KeepsLive i (b ∷ bs) c id s p = p

pub received-KeepsLive :
    (s : Server) (i c : ℕ) (conn : ServerConnection) (r : FcgiRequest) (d : Decoder)
    (output : Bytes)
    → IsOwned s
    → s.heap.cell c ≡ some conn
    → KeepsLive c s.next_id (received i c conn r d output s)
unfolding put
received-KeepsLive s i c conn r d output o f =
    let conn' = record conn { fcgi_request = some (record r { decoder = d }) } in
    write_response_chunk-KeepsLive i output c s.next_id
      (record s { heap = put c (some conn') s.heap })
      (
        (change-IsOwned s c conn conn' f refl o, refl),
        (conn.request_id, ground (arith, owner-put c c (some conn') s.heap)),
      )

after_transfer-IsOwned :
    (s : Server) (i c : ℕ) (conn : ServerConnection) (r : FcgiRequest) (run : Run)
    → IsOwned s
    → HasIds s
    → s.heap.cell c ≡ some conn
    → OnOk IsOwned (after_transfer i c conn r run s)
unfolding after_transfer put
after_transfer-IsOwned s i c conn r none o more f = tt
after_transfer-IsOwned s i c conn r (some fault) o more f = tt
after_transfer-IsOwned s i c conn r (some (ok (d, output, response_status))) o more f =
    by_status response_status
  where
    s' : Server
    s' = received i c conn r d output s

    kept : KeepsLive c s.next_id s'
    kept = received-KeepsLive s i c conn r d output o f

    by_status : (b : Bool) → OnOk IsOwned (if b then complete_response i c s' else ok s')
    by_status true =
        OnOk-Safe IsOwned (complete_response i c s')
          (complete_response-IsOwned s' i c kept.0.0 (rw kept.0.1 more) kept.1)
    by_status false = kept.0.0

transfer_to-IsOwned :
    (s : Server) (i c : ℕ) (conn : ServerConnection) (blocks : List Bytes)
    (client : Option FcgiRequest)
    → IsOwned s
    → HasIds s
    → s.heap.cell c ≡ some conn
    → OnOk IsOwned (transfer_to i c conn blocks client s)
unfolding transfer_to
transfer_to-IsOwned s i c conn blocks none o more f = by_blocks _
  where
    by_blocks : (b : Bool) → OnOk IsOwned (if b then ok s else fault)
    by_blocks true = o
    by_blocks false = tt
transfer_to-IsOwned s i c conn blocks (some r) o more f =
    after_transfer-IsOwned s i c conn r
      (intercept_transfer_data s.env.ts_malloc s.env.mime blocks r.decoder) o more f

transfer_found-IsOwned :
    (s : Server) (found : Option ℕ) (c : ℕ) (conn : ServerConnection) (blocks : List Bytes)
    → IsOwned s
    → HasIds s
    → s.heap.cell c ≡ some conn
    → OnOk IsOwned (transfer_found found c conn blocks s)
unfolding transfer_found
transfer_found-IsOwned s none c conn blocks o more f = o
transfer_found-IsOwned s (some i) c conn blocks o more f =
    transfer_to-IsOwned s i c conn blocks conn.fcgi_request o more f

-- `TS_EVENT_VCONN_READ_READY`, of a live connection.
pub read_ready-IsOwned :
    (s : Server) (blocks : List Bytes) (c : ℕ)
    → IsOwned s
    → HasIds s
    → IsLive c s
    → OnOk IsOwned (read_ready blocks c s)
unfolding read_ready
read_ready-IsOwned s blocks c o more live =
    load-OnOk IsOwned c s _ live
      (λ conn f. transfer_found-IsOwned s (get_intercept conn.request_id s) c conn blocks o more f)
