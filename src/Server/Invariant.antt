-- ===== src/Server/Invariant.antt =====
-- Which connection serves which request: the invariant of the server, over what it depends on, and the
-- changes that keep it.
use ats_fastcgi.Common.{
  ℕ, ◌+◌, ◌≤◌, ◌<◌, ◌≡◌, ◌≢◌, List, [], ◌∷◌, ◌++◌, Option, none, some, length, ◌==◌, if◌then◌else◌,
  arith, length-append,
}
use ats_fastcgi.Config.Access.{get_max_conn_length}
use ats_fastcgi.Pool.{remove, new_pool}
use ats_fastcgi.Intercept.{Environment, Works}
use ats_fastcgi.Server.{find, erase, assign}
use ats_fastcgi.Server.Lists.{
  count, count-append, count-remove, length-remove, find-erase, find-assign,
}

-- `requests` is the map; `owner` gives a live connection the request id that it has, 0 for none;
-- `next` is the first unused address, and `next_id` the next request id.
pub record Owned (requests : List (ℕ × ℕ × ℕ)) (available connections : List ℕ) (max_conn : ℕ)
    (owner : ℕ → Option ℕ) (next next_id : ℕ) (env : Environment) : Type 0 where
  pub bounded : length connections ≤ max_conn
  pub serving : (k i c : ℕ) → find k requests ≡ some (i, c) → owner c ≡ some k
  pub ids : (k i c : ℕ) → find k requests ≡ some (i, c) → (0 < k) × (k < next_id)
  pub idle : (c : ℕ) → 0 < count c available → owner c ≡ some 0
  pub once : (c : ℕ) → count c available ≤ 1
  pub pooled : (c : ℕ) → 0 < count c connections → owner c ≢ none
  pub live : (c k : ℕ) → owner c ≡ some k → 0 < count c connections
  pub unused : (c : ℕ) → next ≤ c → owner c ≡ none
  pub next_id_pos : 0 < next_id
  pub works : Works env
  pub sized : max_conn ≡ (new_pool (get_max_conn_length env.config)).max_conn

module _ {l : List (ℕ × ℕ × ℕ)} {av cs : List ℕ} {max : ℕ} {own : ℕ → Option ℕ} {next id : ℕ}
    {env : Environment} (o : Owned l av cs max own next id env) where
  pub erase-Owned : (k : ℕ) → Owned (erase k l) av cs max own next id env
  erase-Owned k = record {
    bounded = o.bounded;
    serving = λ j i c e. o.serving j i c (ground (arith, find-erase j k l));
    ids = λ j i c e. o.ids j i c (ground (arith, find-erase j k l));
    idle = o.idle;
    once = o.once;
    pooled = o.pooled;
    live = o.live;
    unused = o.unused;
    next_id_pos = o.next_id_pos;
    works = o.works;
    sized = o.sized;
  }

  -- No request has a connection that has none.
  pub free : (c : ℕ) → own c ≡ some 0 → (k i : ℕ) → find k l ≢ some (i, c)
  free c e k i f = let h = o.serving k i c f in let g = o.ids k i c f in ground arith

  -- A connection that is out of the pool gets the next request.
  pub assign-Owned :
      (i c : ℕ) (own' : ℕ → Option ℕ)
      → own c ≡ some 0
      → count c av ≡ 0
      → ((d : ℕ) → own' d ≡ (if c == d then some id else own d))
      → Owned (assign id i c l) av cs max own' next (id + 1) env
  assign-Owned i c own' e n u = record {
    bounded = o.bounded;
    serving =
        λ k i' c' f. ground (arith, find-assign k id i c l, o.serving k i' c', free c e k i', u c');
    ids = λ k i' c' f. ground (arith, find-assign k id i c l, o.ids k i' c', o.next_id_pos);
    idle = λ d h. ground (arith, u d, o.idle d h, n);
    once = o.once;
    pooled = λ d h e'. ground (arith, u d, o.pooled d h);
    live = λ d k e'. ground (arith, u d, o.live d k, o.live c 0 e);
    unused = λ d h. ground (arith, u d, o.unused d h, o.unused c);
    next_id_pos = omega arith;
    works = o.works;
    sized = o.sized;
  }

  -- A connection that serves no request goes back to the pool.
  pub give_back-Owned :
      (c m : ℕ) (own' : ℕ → Option ℕ)
      → own c ≡ some m
      → ((k i : ℕ) → find k l ≢ some (i, c))
      → count c av ≡ 0
      → ((d : ℕ) → own' d ≡ (if c == d then some 0 else own d))
      → Owned l (av ++ (c ∷ [])) cs max own' next id env
  give_back-Owned c m own' e f n u = record {
    bounded = o.bounded;
    serving = λ k i d g. ground (arith, o.serving k i d g, f k i, u d);
    ids = o.ids;
    idle = λ d h. ground (arith, u d, o.idle d, count-append d c av);
    once = λ d. ground (arith, o.once d, n, count-append d c av);
    pooled = λ d h e'. ground (arith, u d, o.pooled d h);
    live = λ d k e'. ground (arith, u d, o.live d k, o.live c m e);
    unused = λ d h. ground (arith, u d, o.unused d h, o.unused c);
    next_id_pos = o.next_id_pos;
    works = o.works;
    sized = o.sized;
  }

  -- A connection is closed, with the entry of its request.
  pub close-Owned :
      (c k : ℕ) (own' : ℕ → Option ℕ)
      → own c ≡ some k
      → ((d : ℕ) → own' d ≡ (if c == d then none else own d))
      → Owned (erase k l) (remove c av) (remove c cs) max own' next id env
  close-Owned c k own' e u = record {
    bounded = omega (arith, o.bounded, length-remove c cs);
    serving = λ j i d g. ground (arith, find-erase j k l, o.serving j i d, u d, e);
    ids = λ j i d g. ground (arith, find-erase j k l, o.ids j i d);
    idle = λ d h. ground (arith, u d, o.idle d, count-remove d c av);
    once = λ d. ground (arith, o.once d, count-remove d c av);
    pooled = λ d h e'. ground (arith, u d, o.pooled d, count-remove d c cs);
    live = λ d j e'. ground (arith, u d, o.live d j, count-remove d c cs);
    unused = λ d h. ground (arith, u d, o.unused d h);
    next_id_pos = o.next_id_pos;
    works = o.works;
    sized = o.sized;
  }

  -- A new connection, where there is room.
  pub grow-Owned :
      (own' : ℕ → Option ℕ)
      → length cs < max
      → ((d : ℕ) → own' d ≡ (if next == d then some 0 else own d))
      → Owned l av (cs ++ (next ∷ [])) max own' (next + 1) id env
  grow-Owned own' h u = record {
    bounded = omega (arith, h, length-append cs (next ∷ []));
    serving = λ j i d g. ground (arith, o.serving j i d g, u d, o.unused d);
    ids = o.ids;
    idle = λ d g. ground (arith, u d, o.idle d g, o.unused d);
    once = o.once;
    pooled = λ d g e'. ground (arith, u d, o.pooled d, count-append d next cs);
    live = λ d j e'. ground (arith, u d, o.live d j, count-append d next cs);
    unused = λ d g. ground (arith, u d, o.unused d);
    next_id_pos = o.next_id_pos;
    works = o.works;
    sized = o.sized;
  }

  -- A connection without requests gives up its request id.
  pub reset-Owned :
      (c m : ℕ) (own' : ℕ → Option ℕ)
      → own c ≡ some m
      → ((k i : ℕ) → find k l ≢ some (i, c))
      → ((d : ℕ) → own' d ≡ (if c == d then some 0 else own d))
      → Owned l av cs max own' next id env
  reset-Owned c m own' e f u = record {
    bounded = o.bounded;
    serving = λ k i d g. ground (arith, o.serving k i d g, f k i, u d);
    ids = o.ids;
    idle = λ d h. ground (arith, u d, o.idle d);
    once = o.once;
    pooled = λ d h e'. ground (arith, u d, o.pooled d h);
    live = λ d k e'. ground (arith, u d, o.live d k, o.live c m e);
    unused = λ d h. ground (arith, u d, o.unused d h, o.unused c);
    next_id_pos = o.next_id_pos;
    works = o.works;
    sized = o.sized;
  }

  -- The connection of a request is in no other entry of the map, and not in the pool.
  pub alone :
      (k i c : ℕ)
      → find k l ≡ some (i, c)
      → (own c ≡ some k) × ((j i' : ℕ) → find j (erase k l) ≢ some (i', c)) × (count c av ≡ 0)
  alone k i c e =
      let own_k = o.serving k i c e in
      let idle = o.idle c in
      let pos = (o.ids k i c e).0 in
      (
        own_k,
        (λ j i' g. let serving = o.serving j i' c in let same = find-erase j k l in ground arith),
        ground arith,
      )

  pub new-count : count next av ≡ 0
  new-count = let idle = o.idle next in let unused = o.unused next (omega arith) in ground arith

  -- The owners stay the same.
  pub same-Owned :
      (own' : ℕ → Option ℕ) → ((d : ℕ) → own' d ≡ own d) → Owned l av cs max own' next id env
  same-Owned own' u = record {
    bounded = o.bounded;
    serving = λ j i d g. ground (arith, o.serving j i d g, u d);
    ids = o.ids;
    idle = λ d g. ground (arith, u d, o.idle d g);
    once = o.once;
    pooled = λ d g e'. ground (arith, u d, o.pooled d g);
    live = λ d j e'. ground (arith, u d, o.live d j);
    unused = λ d g. ground (arith, u d, o.unused d g);
    next_id_pos = o.next_id_pos;
    works = o.works;
    sized = o.sized;
  }

-- A connection is taken from the pool.
pub take-Owned :
    {l : List (ℕ × ℕ × ℕ)} {c : ℕ} {av cs : List ℕ} {max : ℕ} {own : ℕ → Option ℕ} {next id : ℕ}
    {env : Environment}
    → Owned l (c ∷ av) cs max own next id env
    → Owned l av cs max own next id env × (own c ≡ some 0) × (count c av ≡ 0)
unfolding count
take-Owned {l} {c} {av} o = (
  record {
    bounded = o.bounded;
    serving = o.serving;
    ids = o.ids;
    idle = λ d h. o.idle d (ground arith);
    once = λ d. ground (arith, o.once d);
    pooled = o.pooled;
    live = o.live;
    unused = o.unused;
    next_id_pos = o.next_id_pos;
    works = o.works;
    sized = o.sized;
  },
  o.idle c (ground arith),
  ground (arith, o.once c),
)
