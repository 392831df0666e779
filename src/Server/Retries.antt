-- ===== src/Server/Retries.antt =====
-- A request whose connection fails, or ends, before the request is written is not lost.
use ats_fastcgi.Common.{
  ℕ, ◌<◌, ◌≡◌, ◌≢◌, ap, ◌∙◌, inl, inr, ◌⊎◌, List, none, some, ok, Safe, Safe->>=, Safe-OnOk,
  Safe-mono, Safe-result, arith, false,
}
use ats_fastcgi.Connection.{ServerConnection}
use ats_fastcgi.Queue.{RequestQueue, add_to_queue}
use ats_fastcgi.Server.{Server, find, erase, re_connect}
use ats_fastcgi.Server.Lists.{find-erase, find-assign}
use ats_fastcgi.Server.Owners.{IsOwned, load_lem}
use ats_fastcgi.Server.Ownership.{HasIds, re_connect-IsOwned}
use ats_fastcgi.Server.Events.{close_down, retry, net_connect_failed, eos}
use ats_fastcgi.Server.Retry.{IsPlaced, re_connect-IsPlaced, IsClosed, close_down-IsClosed}
use ats_fastcgi.Server.Reachable.{Reachable, Reachable-IsOwned}

-- The request `i`, which had the id `k` and the connection `c`, has another connection under the id `id`
-- or is offered to the queue `q`.
abbrev pub IsRetried : ℕ → ℕ → ℕ → ℕ → RequestQueue → Server → Type 0
IsRetried i c k id q s' =
    (s'.heap.cell c ≡ none)
    × (find k s'.intercept_list ≡ none)
    × (((d : ℕ) × (d ≢ c) × (find id s'.intercept_list ≡ some (i, d)) × (s'.queue ≡ q))
        ⊎ (s'.queue ≡ (add_to_queue i q).0))

placed-closed :
    (i c k id : ℕ) (l : List (ℕ × ℕ × ℕ)) (q : RequestQueue) (s s' : Server)
    → k < id
    → find k l ≡ none
    → IsOwned s
    → IsPlaced i c k id l q s
    → IsClosed c k s s'
    → IsRetried i c k id q s'
placed-closed i c k id l q s s' n e o (own, inl (d, f, g)) (gone, erased, same) =
    let there : find id s.intercept_list ≡ some (i, d) =
      ap (find id) f ∙ ground (arith, find-assign id id i d l) in
    (
      gone,
      ap (find k) erased ∙ ground (arith, find-erase k k s.intercept_list),
      inl (
        d,
        (λ h. let serving = o.serving id i d there in ground arith),
        ap (find id) erased ∙ find-erase id k s.intercept_list ∙ ground (arith, there),
        same ∙ g,
      ),
    )
placed-closed i c k id l q s s' n e o (own, inr (f, g)) (gone, erased, same) =
    (gone, ap (find k) erased ∙ ground (arith, find-erase k k s.intercept_list), inr (same ∙ g))

retry-IsRetried :
    (s : Server) (i c k : ℕ)
    → IsOwned s
    → HasIds s
    → find k s.intercept_list ≡ some (i, c)
    → Safe (IsRetried i c k s.next_id s.queue) (retry c k s)
unfolding retry
retry-IsRetried s i c k o more e =
    let Placed = IsPlaced i c k s.next_id (erase k s.intercept_list) s.queue in
    Safe->>= (λ s'. IsOwned s' × Placed s') (IsRetried i c k s.next_id s.queue) (re_connect k s)
      (close_down c)
      (Safe-OnOk IsOwned Placed (re_connect k s) (re_connect-IsOwned s k o more)
        (re_connect-IsPlaced s i c k o e))
      (λ s' (o', placed).
        Safe-mono (IsClosed c k s') (IsRetried i c k s.next_id s.queue) (close_down c s')
          (close_down-IsClosed s' c k placed.0)
          (λ s'' closed.
            placed-closed i c k s.next_id (erase k s.intercept_list) s.queue s' s''
              (o.ids k i c e).1 (ground (arith, find-erase k k s.intercept_list)) o' placed closed))

-- In every state that the server comes to by calls and events, which are made while request ids are left
-- and of which the events and `connectionClosed` get a live connection, where the address of the
-- application can be read and every client request can be made, and while request ids are left:
-- `TS_EVENT_NET_CONNECT_FAILED` of a request's connection succeeds and deletes this connection with the
-- entry of its request, and the intercept either has another connection under the next id or is offered
-- to the queue.
pub net_connect_failed-IsRetried :
    (s : Server) (i c k : ℕ)
    → Reachable s
    → HasIds s
    → find k s.intercept_list ≡ some (i, c)
    → (s' : Server) × (net_connect_failed c s ≡ ok s') × IsRetried i c k s.next_id s.queue s'
unfolding net_connect_failed
net_connect_failed-IsRetried s i c k r more e =
    let o = Reachable-IsOwned r in
    let (conn, f, run, same) = load_lem c k s.heap (o.serving k i c e) in
    let (s', done, retried) =
      Safe-result (IsRetried i c k s.next_id s.queue) (retry c k s)
        (retry-IsRetried s i c k o more e) in
    (s', rw (run, same) done, retried)

-- In every state that the server comes to by calls and events, which are made while request ids are left
-- and of which the events and `connectionClosed` get a live connection, where the address of the
-- application can be read and every client request can be made, and while request ids are left:
-- `TS_EVENT_VCONN_EOS` of a request's connection, before the request is written to its end, succeeds and
-- deletes this connection with the entry of its request, and the intercept either has another connection
-- under the next id or is offered to the queue.
pub eos-IsRetried :
    (s : Server) (i c k : ℕ) (conn : ServerConnection)
    → Reachable s
    → HasIds s
    → find k s.intercept_list ≡ some (i, c)
    → s.heap.cell c ≡ some conn
    → conn.read_enable ≡ false
    → (s' : Server) × (eos c s ≡ ok s') × IsRetried i c k s.next_id s.queue s'
unfolding eos
eos-IsRetried s i c k conn r more e g w =
    let o = Reachable-IsOwned r in
    let (conn', f, run, same) = load_lem c k s.heap (o.serving k i c e) in
    let unwritten : conn'.read_enable ≡ false = cc in
    let (s', done, retried) =
      Safe-result (IsRetried i c k s.next_id s.queue) (retry c k s)
        (retry-IsRetried s i c k o more e) in
    (s', rw (run, same, unwritten) done, retried)
